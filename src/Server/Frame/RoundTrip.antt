-- ===== src/Server/Frame/RoundTrip.antt =====
-- internal/server/http.go: `wsReadFrame` on masked frames and on those of `wsWriteFrame`.
use rawth.Base.{
  ℕ, ◌+◌, ◌/◌, ◌%◌, ◌^◌, ◌≤◌, ◌<◌, ◌≡◌, refl, ap, ◌∙◌, true, false, [], ◌∷◌, ◌++◌, length, ◌==◌,
  arith, ok, panic, append_assoc, All, lt→ltb,
}
use rawth.Bytes.{Bytes, IsByte}
use rawth.Server.Frame.{
  read_full, apply_mask, put_big_endian, read_length, read_payload, by_opcode, read_body,
  read_frame, put_length, write_frame,
}
use rawth.Server.Frame.Masks.{apply_mask_twice, length-apply_mask}
use rawth.Server.Frame.Lengths.{
  HasBytes-eight, extended, read_full-append, PutLength, put_length_lem,
}

-- A frame under a mask, put together with the functions of the source.
abbrev pub masked_frame : ℕ → Bytes → Bytes → Bytes
masked_frame opcode mask payload =
    (0x80 + opcode) ∷ (put_length 128 (length payload) ++ (mask ++ apply_mask mask 0 payload))

module _ (max_alloc first second : ℕ) (input : Bytes) where
  body_masked :
      (n : ℕ) (mask raw r1 r2 rest : Bytes)
      → (second / 128 % 2 == 1) ≡ true
      → read_length (second % 128) input ≡ ok (n, r1)
      → read_full 4 r1 ≡ ok (mask, r2)
      → read_payload max_alloc n r2 ≡ ok (raw, rest)
      → read_body max_alloc first second input ≡ by_opcode (first % 16) (apply_mask mask 0 raw) rest
  unfolding read_body
  body_masked n mask raw r1 r2 rest m l k p = rw (m, l, k, p) refl

  body_plain :
      (n : ℕ) (raw r1 rest : Bytes)
      → (second / 128 % 2 == 1) ≡ false
      → read_length (second % 128) input ≡ ok (n, r1)
      → read_payload max_alloc n r1 ≡ ok (raw, rest)
      → read_body max_alloc first second input ≡ by_opcode (first % 16) raw rest
  unfolding read_body
  body_plain n raw r1 rest m l p = rw (m, l, p) refl

read_header :
    (max_alloc first second : ℕ) (rest : Bytes)
    → read_frame max_alloc (first ∷ second ∷ rest) ≡ read_body max_alloc first second rest
unfolding read_frame
read_header max_alloc first second rest =
    rw (read_full-append (first ∷ second ∷ []) rest 2 refl) refl

payload_read :
    (max_alloc : ℕ) (raw rest : Bytes) (n : ℕ)
    → length raw ≡ n
    → n ≤ max_alloc
    → read_payload max_alloc n (raw ++ rest) ≡ ok (raw, rest)
unfolding read_payload
payload_read max_alloc raw rest n e h = ground (arith, h, read_full-append raw rest n e)

module _ (max_alloc : ℕ) (limit : max_alloc < 2 ^ 63) (payload rest : Bytes)
    (fits : length payload ≤ max_alloc) where
  pub read_masked_frame :
      (opcode : ℕ) (mask : Bytes)
      → opcode < 16
      → length mask ≡ 4
      → All IsByte payload
      → read_frame max_alloc (masked_frame opcode mask payload ++ rest)
        ≡ by_opcode opcode payload rest
  read_masked_frame opcode mask op four bytes =
      ap (λ xs. read_frame max_alloc (((0x80 + opcode) ∷ xs) ++ rest))
        (ap (λ xs. xs ++ (mask ++ apply_mask mask 0 payload)) l.put)
      ∙ read_header max_alloc (0x80 + opcode) (128 + l.short) _
      ∙ body_masked max_alloc (0x80 + opcode) (128 + l.short)
          ((l.extension ++ (mask ++ apply_mask mask 0 payload)) ++ rest) (length payload) mask
          (apply_mask mask 0 payload) ((mask ++ apply_mask mask 0 payload) ++ rest)
          (apply_mask mask 0 payload ++ rest) rest (ground (arith, l.small))
          (ap (λ m. read_length m ((l.extension ++ (mask ++ apply_mask mask 0 payload)) ++ rest))
              (omega (arith, l.small))
            ∙ ap (read_length l.short)
                (append_assoc l.extension (mask ++ apply_mask mask 0 payload) rest)
            ∙ l.read ((mask ++ apply_mask mask 0 payload) ++ rest))
          (ap (read_full 4) (append_assoc mask (apply_mask mask 0 payload) rest)
            ∙ read_full-append mask (apply_mask mask 0 payload ++ rest) 4 four)
          (payload_read max_alloc (apply_mask mask 0 payload) rest (length payload)
            (length-apply_mask mask 0 payload) fits)
      ∙ ap (λ m. by_opcode m (apply_mask mask 0 (apply_mask mask 0 payload)) rest)
          (omega (arith, op))
      ∙ ap (λ xs. by_opcode opcode xs rest) (apply_mask_twice mask 0 payload bytes)
    where
      l : PutLength 128 (length payload)
      l = put_length_lem 128 (length payload) (omega (arith, limit, fits))

  -- For a payload that is no longer than the longest slice, `wsReadFrame` on the frame that
  -- `wsWriteFrame` writes gives the payload and leaves what stands behind the frame.
  pub read_frame-write_frame :
      read_frame max_alloc (write_frame payload ++ rest) ≡ ok (payload, rest)
  unfolding write_frame by_opcode
  read_frame-write_frame =
      ap (λ xs. read_frame max_alloc ((0x81 ∷ xs) ++ rest)) (ap (λ xs. xs ++ payload) l.put)
      ∙ read_header max_alloc 0x81 (0 + l.short) _
      ∙ body_plain max_alloc 0x81 (0 + l.short) ((l.extension ++ payload) ++ rest) (length payload)
          payload (payload ++ rest) rest (ground (arith, l.small))
          (ap (λ m. read_length m ((l.extension ++ payload) ++ rest)) (omega (arith, l.small))
            ∙ ap (read_length l.short) (append_assoc l.extension payload rest)
            ∙ l.read (payload ++ rest))
          (payload_read max_alloc payload rest (length payload) refl fits)
    where
      l : PutLength 0 (length payload)
      l = put_length_lem 0 (length payload) (omega (arith, limit, fits))

-- The first bytes of a frame that announces `n` bytes under a mask
abbrev pub announcement : ℕ → Bytes → Bytes
announcement n mask = 0x81 ∷ 255 ∷ (put_big_endian 8 n ++ mask)

read_length-eight :
    (n : ℕ) (rest : Bytes)
    → n < 2 ^ 64
    → read_length 127 (put_big_endian 8 n ++ rest) ≡ ok (n, rest)
unfolding read_length
read_length-eight n rest h = extended 8 n rest (HasBytes-eight n h)

body_refused :
    (max_alloc first n : ℕ) (input mask r1 r2 : Bytes)
    → max_alloc < n
    → read_length 127 input ≡ ok (n, r1)
    → read_full 4 r1 ≡ ok (mask, r2)
    → read_body max_alloc first 255 input ≡ panic
unfolding read_body read_payload
body_refused max_alloc first n input mask r1 r2 h l k = rw (l, k, lt→ltb max_alloc n h) refl

-- `wsReadFrame` on a frame that announces a payload longer than the longest slice, in 8 bytes and
-- with a mask, panics.
pub read_frame-announcement :
    (max_alloc n : ℕ) (mask rest : Bytes)
    → max_alloc < n
    → n < 2 ^ 64
    → length mask ≡ 4
    → read_frame max_alloc (announcement n mask ++ rest) ≡ panic
read_frame-announcement max_alloc n mask rest h bound four =
    read_header max_alloc 0x81 255 ((put_big_endian 8 n ++ mask) ++ rest)
    ∙ body_refused max_alloc 0x81 n ((put_big_endian 8 n ++ mask) ++ rest) mask (mask ++ rest) rest
        h
        (ap (read_length 127) (append_assoc (put_big_endian 8 n) mask rest)
          ∙ read_length-eight n (mask ++ rest) bound)
        (read_full-append mask rest 4 four)
