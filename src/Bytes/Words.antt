-- ===== src/Bytes/Words.antt =====
-- Little-endian words at the front of a byte slice.
use rawth.Base.{ℕ, ◌≡◌, refl, ◌++◌, length, arith}
use rawth.Bytes.{Bytes, IsU16, IsU32, put_uint16, uint16, put_uint32, uint32}

pub uint16-put_uint16 : (n : ℕ) (rest : Bytes) → IsU16 n → uint16 (put_uint16 n ++ rest) ≡ n
unfolding uint16 put_uint16
uint16-put_uint16 n rest h = omega arith

pub uint32-put_uint32 : (n : ℕ) (rest : Bytes) → IsU32 n → uint32 (put_uint32 n ++ rest) ≡ n
unfolding uint32 put_uint32
uint32-put_uint32 n rest h = omega arith

pub length-put_uint16 : (n : ℕ) → length (put_uint16 n) ≡ 2
unfolding put_uint16
length-put_uint16 n = refl

pub length-put_uint32 : (n : ℕ) → length (put_uint32 n) ≡ 4
unfolding put_uint32
length-put_uint32 n = refl
