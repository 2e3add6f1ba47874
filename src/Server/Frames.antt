-- ===== src/Server/Frames.antt =====
-- The frames of the dashboard's WebSocket in app/server.py: `encode_ws_frame`, and how
-- `handle_ws_dashboard` reads a frame's length. A byte is a number below 256.
use Prim.Native.Nat.{bit_or}
use hawal.Base.{
  ℕ, zero, suc, ◌+◌, ◌*◌, ◌/◌, ◌%◌, ◌^◌, ◌<◌, ◌≡◌, refl, ◌∙◌, ap, sym, arith, inl, inr,
}
use hawal.Base.{Option, none, some, List, [], ◌∷◌, ◌++◌}
use hawal.Base.Tests.{leb, eqb, if◌then◌else◌, Bool-cases}
use hawal.Base.Lists.{length, take, drop, take-append, drop-append}

-- `n.to_bytes(k, "big")`
unfoldable pub to_bytes : ℕ → ℕ → List ℕ
to_bytes zero n = []
to_bytes (suc k) n = n / 256 ^ k % 256 ∷ to_bytes k n

-- `int.from_bytes(bytes, "big")`, behind what is read already.
unfoldable pub from_bytes : ℕ → List ℕ → ℕ
from_bytes n [] = n
from_bytes n (b ∷ bs) = from_bytes (n * 256 + b) bs

unfoldable pub encode_ws_frame : List ℕ → ℕ → List ℕ
encode_ws_frame payload_bytes opcode =
    let n = length payload_bytes in
    bit_or 0x80 opcode
    ∷ (if leb n 125
        then n ∷ payload_bytes
        else if leb n 65535
        then 126 ∷ to_bytes 2 n ++ payload_bytes
        else 127 ∷ to_bytes 8 n ++ payload_bytes)

-- The length behind the first two bytes and what follows it; `% 128` is `& 0x7F`. None where the
-- loop ends for want of two bytes.
unfoldable pub read_length : List ℕ → Option (ℕ × List ℕ)
read_length [] = none
read_length (b ∷ []) = none
read_length (b ∷ c ∷ rest) =
    let n = c % 128 in
    some (
      if eqb n 126
      then (from_bytes 0 (take 2 rest), drop 2 rest)
      else if eqb n 127
      then (from_bytes 0 (take 8 rest), drop 8 rest)
      else (n, rest))

from_to_2 : (n : ℕ) → n < 65536 → from_bytes 0 (to_bytes 2 n) ≡ n
unfolding from_bytes to_bytes
from_to_2 n h = omega arith

from_to_8 : (n : ℕ) → n < 2 ^ 64 → from_bytes 0 (to_bytes 8 n) ≡ n
unfolding from_bytes to_bytes
from_to_8 n h = omega arith

read_to :
    (k n : ℕ) (payload : List ℕ)
    → length (to_bytes k n) ≡ k
    → from_bytes 0 (to_bytes k n) ≡ n
    → (from_bytes 0 (take k (to_bytes k n ++ payload)) ≡ n)
      × (drop k (to_bytes k n ++ payload) ≡ payload)
read_to k n payload e h = (
  ap (λ m. from_bytes 0 (take m (to_bytes k n ++ payload))) (sym e)
      ∙ ap (from_bytes 0) (take-append (to_bytes k n) payload)
      ∙ h,
  ap (λ m. drop m (to_bytes k n ++ payload)) (sym e) ∙ drop-append (to_bytes k n) payload,
)

length-to_bytes : (k n : ℕ) → length (to_bytes k n) ≡ k
unfolding to_bytes
length-to_bytes zero n = refl
length-to_bytes (suc k) n = ap suc (length-to_bytes k n)

-- A frame carries the length of its payload: up to 2 ^ 64 bytes the reader finds the length and
-- the payload behind it, whichever of the three forms the header has.
pub read_length-encode_ws_frame :
    (payload : List ℕ) (opcode : ℕ)
    → length payload < 2 ^ 64
    → read_length (encode_ws_frame payload opcode) ≡ some (length payload, payload)
unfolding read_length encode_ws_frame
read_length-encode_ws_frame payload opcode h =
    let n = length payload in
    elim (Bool-cases (leb n 125)) [
      | inl e ↦ rw e (ground arith)
      | inr e ↦ elim (Bool-cases (leb n 65535)) [
        | inl f ↦
            let (p, q) = read_to 2 n payload (length-to_bytes 2 n) (from_to_2 n (ground arith)) in
            rw (e, f) (rw (p, q) refl)
        | inr f ↦
            let (p, q) = read_to 8 n payload (length-to_bytes 8 n) (from_to_8 n h) in
            rw (e, f) (rw (p, q) refl)
      ]
    ]
