-- ===== src/Storage/Disk/Slices.antt =====
-- Reading back what was written to a file.
use rawth.Base.{
  ℕ, ◌+◌, ◌-◌, ◌≤◌, ◌≡◌, sym, ◌∙◌, ap, ◌++◌, length, take, drop, replicate, arith, length-append,
  length-take, length-drop, length-replicate, take-append_le, drop-append_le, drop-append_add,
  take-append_length, drop-append_length, drop-drop, drop-take, take-take, max,
}
use rawth.Bytes.{Bytes}
use rawth.Storage.Disk.{overwrite, slice}

module _ (content bytes : Bytes) (offset : ℕ) where
  -- What stands in front of the written bytes.
  front : Bytes
  front = take offset (content ++ replicate (offset - length content) 0)

  length-front : length front ≡ offset
  unfolding front
  length-front = omega (
    arith,
    length-take offset (content ++ replicate (offset - length content) 0),
    length-append content (replicate (offset - length content) 0),
    length-replicate {A = ℕ} (offset - length content) 0,
  )

  pub slice-overwrite_self : slice (overwrite content offset bytes) offset (length bytes) ≡ bytes
  unfolding slice overwrite front
  slice-overwrite_self =
      ap (λ k. take (length bytes) (drop k (front ++ (bytes ++ rest)))) (sym length-front)
      ∙ ap (take (length bytes)) (drop-append_length front (bytes ++ rest))
      ∙ take-append_length bytes rest
    where
      rest : Bytes
      rest = drop (offset + length bytes) content

  pub slice-overwrite_before :
      (start size : ℕ)
      → start + size ≤ offset
      → start + size ≤ length content
      → slice (overwrite content offset bytes) start size ≡ slice content start size
  unfolding slice overwrite front
  slice-overwrite_before start size h k =
      ap (take size) (drop-append_le start front _ (omega (arith, length-front)))
      ∙ take-append_le size (drop start front) _
          (omega (arith, length-front, length-drop start front))
      ∙ ap (take size) (drop-take start offset (content ++ zeros))
      ∙ take-take size (offset - start) _ (omega arith)
      ∙ ap (take size) (drop-append_le start content zeros (omega arith))
      ∙ take-append_le size (drop start content) zeros (omega (arith, length-drop start content))
    where
      zeros : Bytes
      zeros = replicate (offset - length content) 0

  pub slice-overwrite_after :
      (start size : ℕ)
      → offset + length bytes ≤ start
      → slice (overwrite content offset bytes) start size ≡ slice content start size
  unfolding slice overwrite front
  slice-overwrite_after start size h =
      ap (λ k. take size (drop k (front ++ (bytes ++ rest)))) (omega (arith, length-front))
      ∙ ap (take size) (drop-append_add (length bytes + gap) front (bytes ++ rest))
      ∙ ap (take size) (drop-append_add gap bytes rest)
      ∙ ap (take size) (drop-drop gap (offset + length bytes) content)
      ∙ ap (λ k. take size (drop k content)) (omega arith)
    where
      rest : Bytes
      rest = drop (offset + length bytes) content

      gap : ℕ
      gap = start - (offset + length bytes)

  pub length-overwrite :
      length (overwrite content offset bytes) ≡ max (length content) (offset + length bytes)
  unfolding overwrite front
  length-overwrite = omega (
    arith,
    length-append front (bytes ++ drop (offset + length bytes) content),
    length-append bytes (drop (offset + length bytes) content),
    length-drop (offset + length bytes) content,
    length-front,
  )

pub length-slice :
    (content : Bytes) (offset size : ℕ)
    → offset + size ≤ length content
    → length (slice content offset size) ≡ size
unfolding slice
length-slice content offset size h =
    omega (arith, length-take size (drop offset content), length-drop offset content)
