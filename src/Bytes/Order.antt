-- ===== src/Bytes/Order.antt =====
-- The order that `compare_bytes` decides.
use Prim.Native.Nat.Ordering.{lt, eq, gt}
use rawth.Base.{◌≡◌, refl, arith, [], ◌∷◌}
use rawth.Bytes.{Bytes, compare_bytes}

pub compare_bytes_refl : (a : Bytes) → compare_bytes a a ≡ eq
unfolding compare_bytes
compare_bytes_refl [] = refl
compare_bytes_refl (x ∷ a) = ground (arith, compare_bytes_refl a)

pub eq_of_compare : (a b : Bytes) → compare_bytes a b ≡ eq → a ≡ b
unfolding compare_bytes
eq_of_compare [] [] h = refl
eq_of_compare [] (y ∷ b) h = cc
eq_of_compare (x ∷ a) [] h = cc
eq_of_compare (x ∷ a) (y ∷ b) h = ground (arith, eq_of_compare a b)

pub lt_of_gt : (a b : Bytes) → compare_bytes a b ≡ gt → compare_bytes b a ≡ lt
unfolding compare_bytes
lt_of_gt [] [] h = cc
lt_of_gt [] (y ∷ b) h = cc
lt_of_gt (x ∷ a) [] h = refl
lt_of_gt (x ∷ a) (y ∷ b) h = ground (arith, lt_of_gt a b)

pub gt_of_lt : (a b : Bytes) → compare_bytes a b ≡ lt → compare_bytes b a ≡ gt
unfolding compare_bytes
gt_of_lt [] [] h = cc
gt_of_lt [] (y ∷ b) h = refl
gt_of_lt (x ∷ a) [] h = cc
gt_of_lt (x ∷ a) (y ∷ b) h = ground (arith, gt_of_lt a b)

pub compare_trans :
    (a b c : Bytes) → compare_bytes a b ≡ lt → compare_bytes b c ≡ lt → compare_bytes a c ≡ lt
unfolding compare_bytes
compare_trans [] [] c h k = cc
compare_trans [] (y ∷ b) [] h k = cc
compare_trans [] (y ∷ b) (z ∷ c) h k = refl
compare_trans (x ∷ a) [] c h k = cc
compare_trans (x ∷ a) (y ∷ b) [] h k = cc
compare_trans (x ∷ a) (y ∷ b) (z ∷ c) h k = ground (arith, compare_trans a b c)
