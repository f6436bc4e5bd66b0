-- ===== src/Master/Receives.antt =====
-- What `receive_application` takes from a channel.
use dnp3_rust_lib.Prelude.{
  ℕ, zero, suc, ◌≤◌, ◌≡◌, ◌≢◌, refl, sym, ap, ◌∙◌, Option, none, some, List, [], ◌∷◌, All, length,
  arith, ==_refl,
}
use dnp3_rust_lib.Core.Error
use dnp3_rust_lib.Core.Error.{Result, >>=-eq-ok}
use dnp3_rust_lib.Core.Fallible.{Fallible, ok, from_result, >>=-of_ok}
use dnp3_rust_lib.Core.Address.{Address}
use dnp3_rust_lib.Link.LinkFrame.{LinkFrame}
use dnp3_rust_lib.Transport.Segment
use dnp3_rust_lib.Transport.Segment.{TransportSegment}
use dnp3_rust_lib.Transport.Reassembler.{Reassembler, push, push_all}
use dnp3_rust_lib.Transport.Reassembler.Delivers.{waits_then}
use dnp3_rust_lib.App.ApplicationFragment
use dnp3_rust_lib.App.ApplicationFragment.{ApplicationFragment}
use dnp3_rust_lib.Outstation.Delivers.{received}
use dnp3_rust_lib.Master.{
  round, MasterChannel, MasterError, MasterSession, protocol, on_channel, end_round, receive_one,
  after_push, receive_application,
}

-- Frames to the master whose segments, pushed in turn, complete `bytes` at the last frame.
pub data Carried (master : Address)
    : Reassembler → List LinkFrame → List ℕ → Reassembler → Type 0 where
  last :
      {r r' : Reassembler} {frame : LinkFrame} {bytes : List ℕ} (segment : TransportSegment)
      → frame.destination ≡ master
      → Segment.decode frame.payload ≡ Error.ok segment
      → push segment r ≡ (Error.ok (some bytes), r')
      → Carried master r (frame ∷ []) bytes r'
  more :
      {r r1 r' : Reassembler} {frame : LinkFrame} {frames : List LinkFrame} {bytes : List ℕ}
      (segment : TransportSegment)
      → frame.destination ≡ master
      → Segment.decode frame.payload ≡ Error.ok segment
      → push segment r ≡ (Error.ok none, r1)
      → Carried master r1 frames bytes r'
      → Carried master r (frame ∷ frames) bytes r'

head_eq {ℓ} : {A : Type ℓ} {x y : A} {xs ys : List A} → x ∷ xs ≡ y ∷ ys → x ≡ y
head_eq h = cc

tail_eq {ℓ} : {A : Type ℓ} {x y : A} {xs ys : List A} → x ∷ xs ≡ y ∷ ys → xs ≡ ys
tail_eq h = cc

not-nil {ℓ} : {A : Type ℓ} {x : A} {xs : List A} → x ∷ xs ≢ []
not-nil h = cc

pub waits_then-ne-nil : (n : ℕ) (bytes : List ℕ) → waits_then n bytes ≢ []
waits_then-ne-nil zero bytes h = cc
waits_then-ne-nil (suc n) bytes h = cc

Result-ok-injective {ℓ} : {A : Type ℓ} {x y : A} → Error.ok x ≡ Error.ok y → x ≡ y
Result-ok-injective h = cc

received-cons :
    (f : LinkFrame) (fs : List LinkFrame) (s : TransportSegment) (ss : List TransportSegment)
    → received (f ∷ fs) ≡ Error.ok (s ∷ ss)
    → (Segment.decode f.payload ≡ Error.ok s) × (received fs ≡ Error.ok ss)
received-cons f fs s ss h =
    let (segment, decoded, h1) = >>=-eq-ok (Segment.decode f.payload) _ h in
    let (rest, hrest, h2) = >>=-eq-ok (received fs) _ h1 in
    let same : segment ∷ rest ≡ s ∷ ss = Result-ok-injective h2 in
    (decoded ∙ ap Error.ok (head_eq same), hrest ∙ ap Error.ok (tail_eq same))

received-ne-nil : (f : LinkFrame) (fs : List LinkFrame) → received (f ∷ fs) ≢ Error.ok []
received-ne-nil f fs h =
    let (segment, decoded, h1) = >>=-eq-ok (Segment.decode f.payload) _ h in
    let (rest, hrest, h2) = >>=-eq-ok (received fs) _ h1 in not-nil (Result-ok-injective h2)

-- The first of the pushes, and those after it.
pub push_all-cons :
    (s : TransportSegment) (ss : List TransportSegment) (r r' : Reassembler)
    (x : Result (Option (List ℕ))) (xs : List (Result (Option (List ℕ))))
    → push_all (s ∷ ss) r ≡ (x ∷ xs, r')
    → (push s r ≡ (x, (push s r).1)) × (push_all ss (push s r).1 ≡ (xs, r'))
unfolding push_all
push_all-cons s ss r r' x xs h =
    (λ i. (head_eq (ap (λ p. p.0) h) i, (push s r).1), λ i. (tail_eq (ap (λ p. p.0) h) i, (h i).1))

pub push_all-nil : (r : Reassembler) → push_all [] r ≡ ([], r)
unfolding push_all
push_all-nil r = refl

pub push_all-ne-nil :
    (s : TransportSegment) (ss : List TransportSegment) (r : Reassembler)
    → (push_all (s ∷ ss) r).0 ≢ []
unfolding push_all
push_all-ne-nil s ss r h = not-nil h

pub pushed-Carried :
    (master : Address) (r r' : Reassembler) (frames : List LinkFrame)
    (segments : List TransportSegment) (n : ℕ) (bytes : List ℕ)
    → All (λ (f : LinkFrame). f.destination ≡ master) frames
    → received frames ≡ Error.ok segments
    → push_all segments r ≡ (waits_then n bytes, r')
    → Carried master r frames bytes r'
pushed-Carried master r r' [] [] n bytes hd hr hp =
    absurd (waits_then-ne-nil n bytes (ap (λ p. p.0) (sym hp ∙ push_all-nil r)))
pushed-Carried master r r' [] (s ∷ ss) n bytes hd hr hp =
    absurd (not-nil (sym (Result-ok-injective hr)))
pushed-Carried master r r' (f ∷ fs) [] n bytes hd hr hp = absurd (received-ne-nil f fs hr)
pushed-Carried master r r' (f ∷ []) (s ∷ []) zero bytes (hd, hds) hr hp =
    let (first, after) = push_all-cons s [] r r' _ _ hp in
    last s hd (received-cons f [] s [] hr).0 (
      first ∙ λ i.
      (Error.ok (some bytes), (ap (λ p. p.1) (sym (push_all-nil (push s r).1) ∙ after)) i))
pushed-Carried master r r' (f ∷ []) (s ∷ t ∷ ss) n bytes (hd, hds) hr hp =
    absurd (not-nil (sym (Result-ok-injective (received-cons f [] s (t ∷ ss) hr).1)))
pushed-Carried master r r' (f ∷ g ∷ fs) (s ∷ []) n bytes (hd, hds) hr hp =
    absurd (received-ne-nil g fs (received-cons f (g ∷ fs) s [] hr).1)
pushed-Carried master r r' (f ∷ g ∷ fs) (s ∷ t ∷ ss) zero bytes (hd, hds) hr hp =
    let (first, after) = push_all-cons s (t ∷ ss) r r' _ _ hp in
    absurd (push_all-ne-nil t ss (push s r).1 (ap (λ p. p.0) after))
pushed-Carried master r r' (f ∷ []) (s ∷ []) (suc n) bytes (hd, hds) hr hp =
    let (first, after) = push_all-cons s [] r r' _ _ hp in
    absurd (waits_then-ne-nil n bytes (ap (λ p. p.0) (sym after ∙ push_all-nil (push s r).1)))
pushed-Carried master r r' (f ∷ g ∷ fs) (s ∷ t ∷ ss) (suc n) bytes (hd, hds) hr hp =
    let (first, after) = push_all-cons s (t ∷ ss) r r' _ _ hp in
    let (decoded, rest) = received-cons f (g ∷ fs) s (t ∷ ss) hr in
    more s hd decoded first
      (pushed-Carried master (push s r).1 r' (g ∷ fs) (t ∷ ss) n bytes hds rest after)

module _ (m : MasterSession) (frame : LinkFrame) (segment : TransportSegment)
    (mine : frame.destination ≡ m.config.master)
    (decoded : Segment.decode frame.payload ≡ Error.ok segment) where
  receive_one-mine :
      receive_one frame m
      ≡ after_push
          (push segment m.reassembler).0
          (record m { reassembler = (push segment m.reassembler).1 })
  unfolding receive_one
  receive_one-mine = rw (mine, receive_one, ==_refl m.config.master.value, decoded)

  receive_one-waits :
      {r : Reassembler}
      → push segment m.reassembler ≡ (Error.ok none, r)
      → receive_one frame m ≡ (none, record m { reassembler = r })
  receive_one-waits e = receive_one-mine ∙ unfold after_push in (rw e)

  receive_one-completes :
      {bytes : List ℕ} {r : Reassembler}
      → push segment m.reassembler ≡ (Error.ok (some bytes), r)
      → receive_one frame m ≡ (
        some (from_result protocol (ApplicationFragment.decode bytes)),
        record m { reassembler = r },
      )
  receive_one-completes e = receive_one-mine ∙ unfold after_push in (rw e)

module _ (C : MasterChannel) where
  -- A channel that gives these frames, one for each receive.
  pub data Offers : C.State → List LinkFrame → C.State → Type 0 where
    over : {c : C.State} → Offers c [] c
    offered :
        {c c1 c' : C.State} {frame : LinkFrame} {frames : List LinkFrame}
        → C.receive_frame c ≡ (ok frame, c1)
        → Offers c1 frames c'
        → Offers c (frame ∷ frames) c'

  on_channel-ok :
      (m : MasterSession) (c : C.State) {frame : LinkFrame} {c' : C.State}
      → C.receive_frame c ≡ (ok frame, c')
      → on_channel C C.receive_frame (m, c) ≡ (ok frame, (m, c'))
  on_channel-ok m c e i = ((e i).0, (m, (e i).1))

  receive-done :
      (fuel : ℕ) (m m' : MasterSession) (c c' : C.State) (frame : LinkFrame)
      (result : Fallible MasterError ApplicationFragment)
      → C.receive_frame c ≡ (ok frame, c')
      → receive_one frame m ≡ (some result, m')
      → receive_application C (suc fuel) (m, c) ≡ (result, (m', c'))
  unfolding receive_application
  receive-done fuel m m' c c' frame result e h =
      >>=-of_ok (on_channel C C.receive_frame) (round C (receive_application C fuel)) (m, c)
        (on_channel-ok m c e)
      ∙ ap (λ done. end_round C (receive_application C fuel) done c') h

  receive-next :
      (fuel : ℕ) (m m' : MasterSession) (c c' : C.State) (frame : LinkFrame)
      → C.receive_frame c ≡ (ok frame, c')
      → receive_one frame m ≡ (none, m')
      → receive_application C (suc fuel) (m, c) ≡ receive_application C fuel (m', c')
  unfolding receive_application
  receive-next fuel m m' c c' frame e h =
      >>=-of_ok (on_channel C C.receive_frame) (round C (receive_application C fuel)) (m, c)
        (on_channel-ok m c e)
      ∙ ap (λ done. end_round C (receive_application C fuel) done c') h

  pub receive-Carried :
      (fuel : ℕ) (m : MasterSession) (c c' : C.State) {r : Reassembler} {frames : List LinkFrame}
      {bytes : List ℕ}
      → Carried m.config.master m.reassembler frames bytes r
      → Offers c frames c'
      → length frames ≤ fuel
      → receive_application C fuel (m, c) ≡ (
        from_result protocol (ApplicationFragment.decode bytes),
        (record m { reassembler = r }, c'),
      )
  receive-Carried zero m c c' (last {frame = frame} segment hd hs hp) o h = absurd (omega arith)
  receive-Carried zero m c c' (more segment hd hs hp rest) o h = absurd (omega arith)
  receive-Carried (suc fuel) m c c' (last {frame = frame} segment hd hs hp) (offered e over) h =
      receive-done fuel m _ c c' frame _ e (receive_one-completes m frame segment hd hs hp)
  receive-Carried (suc fuel) m c c' (more {r1 = r1} {frame = frame} segment hd hs hp rest)
        (offered {c1 = c1} e o) h =
      receive-next fuel m (record m { reassembler = r1 }) c c1 frame e
        (receive_one-waits m frame segment hd hs hp)
      ∙ receive-Carried fuel (record m { reassembler = r1 }) c1 c' rest o (omega arith)
