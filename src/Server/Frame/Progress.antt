-- ===== src/Server/Frame/Progress.antt =====
-- internal/server/http.go: `wsReadFrame` takes at least two bytes.
use rawth.Base.{
  ℕ, ◌+◌, ◌/◌, ◌%◌, ◌≤◌, inl, inr, Bool, true, false, length, ltb, ltb→ge, ◌==◌, if◌then◌else◌,
  arith, Outcome, ok, err, panic, stuck, ◌>>=◌, Bool-cases, length-drop, get_or,
}
use rawth.Bytes.{Bytes}
use rawth.Server.Frame.{
  FrameError, read_full, as_length, read_length, no_mask, read_payload, by_opcode, read_body,
  read_frame,
}

-- A reading that ends, and leaves at least `k` bytes less than `n`.
abbrev pub Leaves : ℕ → ℕ → {A : Type 0} → Outcome FrameError (A × Bytes) → Type 0
Leaves k n (ok r) = length r.1 + k ≤ n
Leaves k n (err x) = Unit
Leaves k n panic = Unit
Leaves k n stuck = ⊥

module _ (k n : ℕ) where
  bind-Leaves :
      {A B : Type 0} (r : Outcome FrameError (A × Bytes))
      (f : A × Bytes → Outcome FrameError (B × Bytes))
      → Leaves k n r
      → ((p : A × Bytes) → length p.1 + k ≤ n → Leaves k n (f p))
      → Leaves k n (r >>= f)
  bind-Leaves (ok p) f h g = g p h
  bind-Leaves (err x) f h g = tt
  bind-Leaves panic f h g = tt
  bind-Leaves stuck f h g = h

  if-Leaves :
      {A : Type 0} (b : Bool) (r s : Outcome FrameError (A × Bytes))
      → Leaves k n r
      → Leaves k n s
      → Leaves k n (if b then r else s)
  if-Leaves true r s h g = h
  if-Leaves false r s h g = g

  read_full-Leaves : (j : ℕ) (input : Bytes) → length input + k ≤ n → Leaves k n (read_full j input)
  unfolding read_full
  read_full-Leaves j input h =
      if-Leaves (ltb (length input) j) _ _ tt (omega (arith, h, length-drop j input))

  as_length-Leaves : (p : Bytes × Bytes) → length p.1 + k ≤ n → Leaves k n (as_length p)
  as_length-Leaves (ext, rest) h = h

  read_length-Leaves :
      (short : ℕ) (input : Bytes) → length input + k ≤ n → Leaves k n (read_length short input)
  unfolding read_length
  read_length-Leaves short input h =
      if-Leaves (short == 126) _ _
        (bind-Leaves (read_full 2 input) as_length (read_full-Leaves 2 input h) as_length-Leaves)
        (if-Leaves (short == 127) _ _
          (bind-Leaves (read_full 8 input) as_length (read_full-Leaves 8 input h) as_length-Leaves)
          h)

  read_payload-Leaves :
      (max_alloc m : ℕ) (input : Bytes)
      → length input + k ≤ n
      → Leaves k n (read_payload max_alloc m input)
  unfolding read_payload
  read_payload-Leaves max_alloc m input h =
      if-Leaves (ltb max_alloc m) _ _ tt (read_full-Leaves m input h)

  by_opcode-Leaves :
      (opcode : ℕ) (payload rest : Bytes)
      → length rest + k ≤ n
      → Leaves k n (by_opcode opcode payload rest)
  unfolding by_opcode
  by_opcode-Leaves opcode payload rest h =
      if-Leaves (opcode == 8) _ _ tt (if-Leaves (opcode == 9) _ _ h h)

  read_body-Leaves :
      (max_alloc first second : ℕ) (input : Bytes)
      → length input + k ≤ n
      → Leaves k n (read_body max_alloc first second input)
  unfolding read_body
  read_body-Leaves max_alloc first second input h =
      bind-Leaves (read_length (second % 128) input) _ (read_length-Leaves (second % 128) input h)
        (λ l a.
          bind-Leaves _ _
            (if-Leaves (second / 128 % 2 == 1) (read_full 4 l.1) (ok (no_mask, l.1))
              (read_full-Leaves 4 l.1 a) a)
            (λ m b.
              bind-Leaves (read_payload max_alloc l.0 m.1) _
                (read_payload-Leaves max_alloc l.0 m.1 b)
                (λ p c. by_opcode-Leaves (first % 16) _ p.1 c)))

header-Leaves : (input : Bytes) → Leaves 2 (length input) (read_full 2 input)
unfolding read_full
header-Leaves input = elim (Bool-cases (ltb (length input) 2)) [
  | inl short ↦ rw short tt
  | inr long ↦ rw long (omega (arith, length-drop 2 input, ltb→ge (length input) 2 long))
]

pub read_frame-Leaves :
    (max_alloc : ℕ) (input : Bytes) → Leaves 2 (length input) (read_frame max_alloc input)
unfolding read_frame
read_frame-Leaves max_alloc input =
    bind-Leaves 2 (length input) (read_full 2 input) _ (header-Leaves input)
      (λ p h. read_body-Leaves 2 (length input) max_alloc (get_or p.0 0 0) (get_or p.0 1 0) p.1 h)
