-- ===== src/Bytes/Text.antt =====
-- Text literals as the bytes that Go stores for them: their UTF-8 encoding.
use Prim.Native.Char.{code}
use Prim.Native.String.{String}
use rawth.Base.{ℕ, ◌+◌, ◌/◌, ◌%◌, [], ◌∷◌, ◌++◌, ltb, if◌then◌else◌}
use rawth.Bytes.{Bytes}

-- One code point; `string(b)` of a byte is that of the code point `b`.
abbrev pub rune_bytes : ℕ → Bytes
rune_bytes c =
    if ltb c 0x80
    then c ∷ []
    else if ltb c 0x800
    then (0xc0 + c / 64) ∷ (0x80 + c % 64) ∷ []
    else if ltb c 0x10000
    then (0xe0 + c / 4096) ∷ (0x80 + c / 64 % 64) ∷ (0x80 + c % 64) ∷ []
    else (0xf0 + c / 262144) ∷ (0x80 + c / 4096 % 64) ∷ (0x80 + c / 64 % 64) ∷ (0x80 + c % 64) ∷ []

abbrev pub text : String → Bytes
text String.[] = []
text (String.◌∷◌ c s) = rune_bytes (code c) ++ text s
