-- ===== src/Serial/Pair.antt =====
-- A pair of mock endpoints: order, and the end of a wait.
use dnp3_rust_lib.Prelude.{
  ℕ, zero, suc, ◌+◌, ◌*◌, ◌<◌, ◌≤◌, ◌≡◌, ◌≢◌, refl, sym, ap, ◌∙◌, Bool-cases, List, [], ◌∷◌, ◌++◌,
  All, map, append-nil, append_assoc, leb, arith, inl, inr,
}
use mathlib.Core.Path.{subst}
use dnp3_rust_lib.Prelude.Bytes.{IsBytes}
use dnp3_rust_lib.Core.Error
use dnp3_rust_lib.Core.Fallible.{Fallible, stuck, from_result}
use dnp3_rust_lib.Link.LinkFrame
use dnp3_rust_lib.Link.LinkFrame.{LinkFrame}
use dnp3_rust_lib.Link.LinkFrame.RoundTrip.{IsValid, decode-encode_frame}
use dnp3_rust_lib.Link.LinkFrame.Canonical.{decode-ne-stuck_frame}
use dnp3_rust_lib.Serial.{protocol, Driver}
use dnp3_rust_lib.Serial
use dnp3_rust_lib.Serial.Mock.{
  Wires, Side, left, right, peer, MockSerialEndpoint, inbound, set_inbound, write_frame, round,
  read_until, read_frame, read_frame-waiting, Reads, over, reads, written,
}

inbound-set :
    (s : Side) (queue : List (List ℕ)) (w : Wires) → inbound s (set_inbound s queue w) ≡ queue
inbound-set left queue w = refl
inbound-set right queue w = refl

module _ (D : Driver) where
  from_result-ne-stuck :
      (x : Error.Result LinkFrame)
      → x ≢ Error.stuck
      → ◌≢◌ {A = Fallible (Serial.Error D) LinkFrame} (from_result protocol x) stuck
  from_result-ne-stuck (Error.ok value) h e = cc
  from_result-ne-stuck (Error.err error) h e = cc
  from_result-ne-stuck Error.stuck h e = h refl

  inbound-written :
      (e : MockSerialEndpoint) (frames : List LinkFrame) (w : Wires)
      → inbound (peer e.side) (written D e frames w)
        ≡ inbound (peer e.side) w ++ map LinkFrame.encode frames
  unfolding write_frame
  inbound-written e [] w = sym (append-nil (inbound (peer e.side) w))
  inbound-written e (frame ∷ frames) w =
      inbound-written e frames (write_frame D e frame w).1
      ∙ ap (λ q. q ++ map LinkFrame.encode frames) (inbound-set (peer e.side) _ w)
      ∙ append_assoc (inbound (peer e.side) w) (LinkFrame.encode frame ∷ [])
          (map LinkFrame.encode frames)

  module _ (sleep : Wires → Wires) where
    queued-Reads :
        (e : MockSerialEndpoint) (frames : List LinkFrame) (w : Wires)
        → All IsValid frames
        → inbound e.side w ≡ map LinkFrame.encode frames
        → (w' : Wires) × Reads D sleep e w frames w' × (inbound e.side w' ≡ [])
    queued-Reads e [] w v h = (w, over, h)
    queued-Reads e (frame ∷ frames) w (v, vs) h =
        let rest : List (List ℕ) = map LinkFrame.encode frames in
        let (w', r, empty) =
          queued-Reads e frames (set_inbound e.side rest w) vs (inbound-set e.side rest w) in
        (
          w',
          reads
              (λ fuel.
                read_frame-waiting D sleep e fuel w (LinkFrame.encode frame) rest h
                ∙ ap (λ x. (from_result protocol x, set_inbound e.side rest w))
                    (decode-encode_frame frame v))
              r,
          empty,
        )

    -- Valid frames that one endpoint of a pair writes are read by the other in the same order and
    -- without a wait, when nothing was waiting there before, and then nothing is left to read.
    pub written-Reads :
        (e reader : MockSerialEndpoint) (frames : List LinkFrame) (w : Wires)
        → peer e.side ≡ reader.side
        → inbound reader.side w ≡ []
        → All IsValid frames
        → (w' : Wires) × Reads D sleep reader (written D e frames w) frames w'
          × (inbound reader.side w' ≡ [])
    written-Reads e reader frames w opposite empty v =
        queued-Reads reader frames (written D e frames w) v (
          subst (λ s. inbound s (written D e frames w) ≡ inbound s w ++ map LinkFrame.encode frames)
            opposite (inbound-written e frames w)
          ∙ ap (λ q. q ++ map LinkFrame.encode frames) empty)

    -- The clock runs while an endpoint sleeps, and what arrives is bytes.
    pub record Runs : Type 0 where
      pub ticks : (w : Wires) → w.now + 5 ≤ (sleep w).now
      pub bytes :
          (s : Side) (w : Wires) → All IsBytes (inbound s w) → All IsBytes (inbound s (sleep w))

    module _ (runs : Runs) where
      round-ends :
          (side : Side) (deadline : ℕ) (later : Fallible (Serial.Error D) LinkFrame × Wires)
          (queue : List (List ℕ)) (w : Wires)
          → All IsBytes queue
          → (queue ≡ [] → w.now < deadline → later.0 ≢ stuck)
          → (round D sleep side deadline later queue w).0 ≢ stuck
      round-ends side deadline later (bytes ∷ rest) w (hb, hbs) k =
          from_result-ne-stuck (LinkFrame.decode bytes) (decode-ne-stuck_frame bytes hb)
      round-ends side deadline later [] w hb k = elim (Bool-cases (leb deadline w.now)) [
        | inl late ↦ rw late (λ e. cc)
        | inr early ↦ rw early (k refl (ground arith))
      ]

      read_until-ends :
          (side : Side) (deadline fuel : ℕ) (w : Wires)
          → All IsBytes (inbound side w)
          → deadline ≤ w.now + 5 * fuel
          → (read_until D sleep side deadline (suc fuel) w).0 ≢ stuck
      unfolding read_until
      read_until-ends side deadline zero w hb h =
          round-ends side deadline (read_until D sleep side deadline 0 (sleep w)) (inbound side w) w
            hb (λ empty early. absurd (omega arith))
      read_until-ends side deadline (suc fuel) w hb h =
          round-ends side deadline (read_until D sleep side deadline (suc fuel) (sleep w))
            (inbound side w) w hb
            (λ empty early.
              read_until-ends side deadline fuel (sleep w) (runs.bytes side w hb)
                (omega (arith, runs.ticks w)))

      -- While the clock runs and the queues hold bytes, a read ends with a frame or an error, after at
      -- most one round for every five milliseconds of the timeout, and one more.
      pub read_frame-ne-stuck :
          (e : MockSerialEndpoint) (fuel : ℕ) (w : Wires)
          → All IsBytes (inbound e.side w)
          → e.timeout ≤ 5 * fuel
          → (read_frame D sleep e (suc fuel) w).0 ≢ stuck
      unfolding read_frame
      read_frame-ne-stuck e fuel w hb h =
          read_until-ends e.side (w.now + e.timeout) fuel w hb (omega arith)
