-- ===== src/Server/Frame.antt =====
-- internal/server/http.go: WebSocket frames. The reader is the list of the bytes that still come, an
-- error behind them; bytes are numbers below 256.
pub mod Masks
pub mod Lengths
pub mod RoundTrip
pub mod Client
pub mod Progress
use rawth.Base.{
  ℕ, zero, suc, ◌+◌, ◌*◌, ◌/◌, ◌%◌, ◌^◌, Bool, true, false, List, [], ◌∷◌, ◌++◌, length, take, drop,
  get_or, ltb, ◌==◌, if◌then◌else◌, Outcome, ok, err, panic, ◌>>=◌,
}
use rawth.Bytes.{Bytes}

pub data FrameError : Type 0 where
  read_error close_received : FrameError

-- `io.ReadFull` into `n` bytes
unfoldable pub read_full : ℕ → Bytes → Outcome FrameError (Bytes × Bytes)
read_full n input = if ltb (length input) n then err read_error else ok (take n input, drop n input)

-- `^` on the lowest `n` bits
unfoldable pub xor : ℕ → ℕ → ℕ → ℕ
xor zero a b = 0
xor (suc n) a b = (a % 2 + b % 2) % 2 + 2 * xor n (a / 2) (b / 2)

-- The loop that takes the mask off, from index `i` on
unfoldable pub apply_mask : Bytes → ℕ → Bytes → Bytes
unfolding xor
apply_mask mask i [] = []
apply_mask mask i (b ∷ bs) = xor 8 b (get_or mask (i % 4) 0) ∷ apply_mask mask (i + 1) bs

-- `binary.BigEndian`: the number that bytes write, and the lowest `k` bytes of a number
abbrev pub big_endian_from : ℕ → Bytes → ℕ
big_endian_from acc [] = acc
big_endian_from acc (b ∷ bs) = big_endian_from (acc * 256 + b) bs

unfoldable pub put_big_endian : ℕ → ℕ → Bytes
put_big_endian zero n = []
put_big_endian (suc k) n = put_big_endian k (n / 256) ++ ((n % 256) ∷ [])

abbrev pub as_length : Bytes × Bytes → Outcome FrameError (ℕ × Bytes)
as_length (ext, rest) = ok (big_endian_from 0 ext, rest)

-- The length behind the seven bits of it in the header
unfoldable pub read_length : ℕ → Bytes → Outcome FrameError (ℕ × Bytes)
unfolding read_full
read_length short input =
    if short == 126
    then read_full 2 input >>= as_length
    else if short == 127
    then read_full 8 input >>= as_length
    else ok (short, input)

abbrev pub no_mask : Bytes
no_mask = 0 ∷ 0 ∷ 0 ∷ 0 ∷ []

-- `make([]byte, n)` and `io.ReadFull`. `max_alloc` is the longest slice that the runtime makes, below
-- `2 ^ 63`; a longer one, or one whose length is negative as an `int64`, panics.
unfoldable pub read_payload : ℕ → ℕ → Bytes → Outcome FrameError (Bytes × Bytes)
unfolding read_full
read_payload max_alloc n input = if ltb max_alloc n then panic else read_full n input

-- What the opcode makes of a payload. The pong to a ping is built and dropped.
unfoldable pub by_opcode : ℕ → Bytes → Bytes → Outcome FrameError (Bytes × Bytes)
by_opcode opcode payload rest =
    if opcode == 8
    then err close_received
    else if opcode == 9
    then ok ([], rest)
    else ok (payload, rest)

-- `wsReadFrame`, behind the two bytes of the header
unfoldable pub read_body : ℕ → ℕ → ℕ → Bytes → Outcome FrameError (Bytes × Bytes)
unfolding read_length read_payload apply_mask by_opcode
read_body max_alloc first second input =
    let masked : Bool = second / 128 % 2 == 1 in
    do
      (n, after_length) ← read_length (second % 128) input
      (mask, after_mask) ← if masked then read_full 4 after_length else ok (no_mask, after_length)
      (payload, rest) ← read_payload max_alloc n after_mask
      by_opcode (first % 16) (if masked then apply_mask mask 0 payload else payload) rest

unfoldable pub read_frame : ℕ → Bytes → Outcome FrameError (Bytes × Bytes)
unfolding read_body
read_frame max_alloc input = do
  (header, rest) ← read_full 2 input
  read_body max_alloc (get_or header 0 0) (get_or header 1 0) rest

-- The length in a frame, with the bit of the mask (`128` or `0`) in its first byte
unfoldable pub put_length : ℕ → ℕ → Bytes
unfolding put_big_endian
put_length bit n =
    if ltb n 126
    then (bit + n) ∷ []
    else if ltb n 65536
    then (bit + 126) ∷ put_big_endian 2 n
    else (bit + 127) ∷ put_big_endian 8 n

-- The frame that `wsWriteFrame` writes
unfoldable pub write_frame : Bytes → Bytes
unfolding put_length
write_frame payload = 0x81 ∷ (put_length 0 (length payload) ++ payload)
