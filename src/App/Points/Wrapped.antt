-- ===== src/App/Points/Wrapped.antt =====
-- Runs of indices that pass 0xffff.
use dnp3_rust_lib.Prelude.{
  ℕ, ◌+◌, ◌^◌, ◌<◌, ◌≤◌, ◌≡◌, true, List, ◌∷◌, ◌++◌, map, length, arith, lt→ltb,
}
use dnp3_rust_lib.Core.Error.{ok, err, invalid_length}
use dnp3_rust_lib.Core.Reader.{Reader}
use dnp3_rust_lib.App.ObjectHeader
use dnp3_rust_lib.App.ObjectHeader.{range16}
use dnp3_rust_lib.App.Points.{BinaryInput, is_run, last_or, range16_count}
use dnp3_rust_lib.App.Points.Encode.{bodies, binary_body, binary_prefixed, encode_binary_like}
use dnp3_rust_lib.App.Points.Binary.{decode_binary_points}
use dnp3_rust_lib.App.Points.Loops.{last_or-is_run}
use dnp3_rust_lib.App.Points.RoundTrip.{contiguous-run, encode_like_range, length-map}

range16_count-descending :
    (start stop : ℕ) → stop < start → range16_count start stop ≡ err (invalid_length start stop)
unfolding range16_count
range16_count-descending start stop h = rw (lt→ltb stop start h)

-- At most 65536 points whose indices run past 0xffff and go on from 0 are encoded as a range that
-- ends below its start, with all their flags behind it; reading that range fails, whatever follows.
pub encode_binary_like-wrapped :
    (group variation : ℕ) (x : BinaryInput) (xs : List BinaryInput) (out : List ℕ)
    → x.index < 2 ^ 16
    → is_run x.index 0 (map (λ p. p.index) (x ∷ xs)) ≡ true
    → 2 ^ 16 < x.index + length (x ∷ xs)
    → length (x ∷ xs) ≤ 2 ^ 16
    → (stop : ℕ) × (encode_binary_like group variation (x ∷ xs) out
        ≡ ok (
            ObjectHeader.encode (ObjectHeader.new group variation (range16 x.index stop)) out
            ++ bodies binary_body (x ∷ xs)))
      × ((r : Reader)
          → decode_binary_points group variation (range16 x.index stop) r
            ≡ err (invalid_length x.index stop))
unfolding encode_binary_like decode_binary_points
encode_binary_like-wrapped group variation x xs out hx run past few = (
  last_or x.index indices,
  encode_like_range (λ p. p.index) binary_body binary_prefixed group variation (x ∷ xs) out x.index
      (last_or x.index indices) (contiguous-run x.index indices run),
  λ r. rw (range16_count-descending x.index (last_or x.index indices) descending),
)
  where
    indices : List ℕ
    indices = map (λ p. p.index) xs

    descending : last_or x.index indices < x.index
    descending = omega (
      arith,
      last_or-is_run x.index 0 x.index x.index indices run,
      length-map (λ (p : BinaryInput). p.index) xs,
    )
