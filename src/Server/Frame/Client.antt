-- ===== src/Server/Frame/Client.antt =====
-- internal/server/http.go: `wsReadFrame` on frames as RFC 6455 lays them out. The layout here is
-- written down without the functions of the source.
use Prim.Native.Nat.{bit_xor}
use rawth.Base.{
  ℕ, zero, suc, ◌+◌, ◌/◌, ◌%◌, ◌^◌, ◌≤◌, ◌<◌, ◌≡◌, ◌≢◌, refl, sym, ap, ap₂, ◌∙◌, inl, inr, [], ◌∷◌,
  ◌++◌, length, get_or, ltb, ◌==◌, if◌then◌else◌, arith, Outcome, ok, err, Bool-cases, All,
}
use rawth.Bytes.{Bytes, IsByte}
use rawth.Server.Frame.{
  FrameError, close_received, xor, apply_mask, put_big_endian, put_length, by_opcode, read_frame,
}
use rawth.Server.Frame.Masks.{xor-bit_xor}
use rawth.Server.Frame.RoundTrip.{masked_frame, read_masked_frame}

-- The four bytes of a mask
pub record Mask : Type 0 where
  pub first : ℕ
  pub second : ℕ
  pub third : ℕ
  pub fourth : ℕ

abbrev pub mask_bytes : Mask → Bytes
mask_bytes m = m.first ∷ m.second ∷ m.third ∷ m.fourth ∷ []

abbrev turned : Mask → Mask
turned m = record { first = m.second; second = m.third; third = m.fourth; fourth = m.first }

-- Each byte of a payload with the bytes of the mask in turn.
abbrev pub under_mask : Mask → Bytes → Bytes
under_mask m [] = []
under_mask m (b ∷ bs) = bit_xor b m.first ∷ under_mask (turned m) bs

-- Byte `k` of a number, the lowest one first
abbrev pub byte_at : ℕ → ℕ → ℕ
byte_at zero n = n % 256
byte_at (suc k) n = byte_at k (n / 256)

-- The bit of the mask with the length: in seven bits, in two bytes, or in eight, the highest first.
abbrev pub frame_length : ℕ → Bytes
frame_length n =
    if ltb n 126
    then (128 + n) ∷ []
    else if ltb n 65536
    then 254 ∷ byte_at 1 n ∷ byte_at 0 n ∷ []
    else 255
      ∷ byte_at 7 n
      ∷ byte_at 6 n
      ∷ byte_at 5 n
      ∷ byte_at 4 n
      ∷ byte_at 3 n
      ∷ byte_at 2 n
      ∷ byte_at 1 n
      ∷ byte_at 0 n
      ∷ []

-- A frame from a client: all of a message, under a mask.
abbrev pub client_frame : ℕ → Mask → Bytes → Bytes
client_frame opcode m payload =
    (0x80 + opcode) ∷ (frame_length (length payload) ++ (mask_bytes m ++ under_mask m payload))

-- What the reader makes of a frame: a close frame ends the reading, a ping is answered with nothing,
-- and any other frame gives its payload.
pub data FrameRead (opcode : ℕ) (payload rest : Bytes) (r : Outcome FrameError (Bytes × Bytes))
    : Type 0 where
  closes : opcode ≡ 8 → r ≡ err close_received → FrameRead opcode payload rest r
  pings : opcode ≡ 9 → r ≡ ok ([], rest) → FrameRead opcode payload rest r
  carries : opcode ≢ 8 → opcode ≢ 9 → r ≡ ok (payload, rest) → FrameRead opcode payload rest r

frame_length-put_length : (n : ℕ) → frame_length n ≡ put_length 128 n
unfolding put_length put_big_endian
frame_length-put_length n = refl

-- `r` is the mask `m` from byte `i` on.
abbrev Turned : Mask → ℕ → Mask → Type 0
Turned m i r =
    (get_or (mask_bytes m) (i % 4) 0 ≡ r.first)
    × (get_or (mask_bytes m) ((i + 1) % 4) 0 ≡ r.second)
    × (get_or (mask_bytes m) ((i + 2) % 4) 0 ≡ r.third)
    × (get_or (mask_bytes m) ((i + 3) % 4) 0 ≡ r.fourth)

Turned-turned : (m : Mask) (i : ℕ) (r : Mask) → Turned m i r → Turned m (i + 1) (turned r)
Turned-turned m i r (a, b, c, d) = (
  b,
  ap (λ k. get_or (mask_bytes m) (k % 4) 0) (omega arith) ∙ c,
  ap (λ k. get_or (mask_bytes m) (k % 4) 0) (omega arith) ∙ d,
  ap (λ k. get_or (mask_bytes m) k 0) (omega arith) ∙ a,
)

apply_mask-under_mask :
    (m : Mask) (i : ℕ) (r : Mask) (bs : Bytes)
    → Turned m i r
    → All IsByte (mask_bytes r)
    → All IsByte bs
    → apply_mask (mask_bytes m) i bs ≡ under_mask r bs
unfolding apply_mask
apply_mask-under_mask m i r [] t h k = refl
apply_mask-under_mask m i r (b ∷ bs) t (h1, (h2, (h3, (h4, _)))) (byte, k) =
    ap₂ (λ u v. u ∷ v) (ap (xor 8 b) t.0 ∙ xor-bit_xor b r.first byte h1)
      (apply_mask-under_mask m (i + 1) (turned r) bs (Turned-turned m i r t)
        (h2, (h3, (h4, (h1, tt)))) k)

client_frame-masked_frame :
    (opcode : ℕ) (m : Mask) (payload : Bytes)
    → All IsByte (mask_bytes m)
    → All IsByte payload
    → client_frame opcode m payload ≡ masked_frame opcode (mask_bytes m) payload
client_frame-masked_frame opcode m payload h k =
    ap₂ (λ u v. (0x80 + opcode) ∷ (u ++ (mask_bytes m ++ v)))
      (frame_length-put_length (length payload))
      (sym (apply_mask-under_mask m 0 m payload (refl, refl, refl, refl) h k))

by_opcode-FrameRead :
    (opcode : ℕ) (payload rest : Bytes)
    → FrameRead opcode payload rest (by_opcode opcode payload rest)
unfolding by_opcode
by_opcode-FrameRead opcode payload rest = elim (Bool-cases (opcode == 8)) [
  | inl e ↦ closes (ground (arith, e)) (ground (arith, e))
  | inr e ↦ elim (Bool-cases (opcode == 9)) [
    | inl f ↦ pings (ground (arith, f)) (ground (arith, e, f))
    | inr f ↦ carries (λ q. ground (arith, e, q)) (λ q. ground (arith, f, q)) (ground (arith, e, f))
  ]
]

-- On a final frame as RFC 6455 lays it out, with an opcode below 16, four bytes of a mask, and a
-- payload of bytes that is no longer than the longest slice (below 2 ^ 63), in each of the three
-- forms of its length, `wsReadFrame` gives the close error for opcode 8, nothing for opcode 9, the
-- ping, and the unmasked payload for any other opcode, and leaves, but for a close frame, what
-- stands behind the frame.
pub read_client_frame :
    (max_alloc opcode : ℕ) (m : Mask) (payload rest : Bytes)
    → max_alloc < 2 ^ 63
    → length payload ≤ max_alloc
    → opcode < 16
    → All IsByte (mask_bytes m)
    → All IsByte payload
    → FrameRead opcode payload rest (read_frame max_alloc (client_frame opcode m payload ++ rest))
read_client_frame max_alloc opcode m payload rest limit fits op h k =
    rw
      (ap (λ xs. read_frame max_alloc (xs ++ rest)) (client_frame-masked_frame opcode m payload h k)
        ∙ read_masked_frame max_alloc limit payload rest fits opcode (mask_bytes m) op refl k)
      (by_opcode-FrameRead opcode payload rest)
