-- ===== src/Parse/Utf8.antt =====
-- UTF-8 in src/teptris/parse: `utf8_invalid_at` and `validate_utf8` of parser.c, and `utf8_put` of
-- scalars.c. On a byte, `c & 0xE0 == 0xC0` is `c / 32 == 6`, `c & 0x1F` is `c % 32`, and so on;
-- where `|` joins disjoint bits it is `+`.
pub mod Words
pub mod Sequences
pub mod Valid
use Prim.Native.Nat.{bit_and}
use teptris.Base.{
  ℕ, zero, suc, ◌+◌, ◌-◌, ◌*◌, ◌/◌, ◌%◌, Bool, not, ◌&&◌, ◌||◌, List, [], ◌∷◌, Option, none, some,
  Bytes, length, drop, ltb, leb, ◌==◌, if◌then◌else◌, Turn, again, leave, run,
}
use teptris.Parse.Position.{Position, position}

-- The bytes that `utf8_put` writes.
unfoldable pub utf8_put : ℕ → Bytes
utf8_put cp =
    if ltb cp 0x80
    then cp ∷ []
    else if ltb cp 0x800
    then (0xC0 + cp / 64) ∷ (0x80 + cp % 64) ∷ []
    else if ltb cp 0x10000
    then (0xE0 + cp / 4096) ∷ (0x80 + cp / 64 % 64) ∷ (0x80 + cp % 64) ∷ []
    else (0xF0 + cp / 262144)
      ∷ (0x80 + cp / 4096 % 64)
      ∷ (0x80 + cp / 64 % 64)
      ∷ (0x80 + cp % 64)
      ∷ []

-- Eight bytes as `memcpy` loads them; the mask is the same in either byte order.
abbrev pub word : ℕ → ℕ → ℕ → ℕ → ℕ → ℕ → ℕ → ℕ → ℕ
word a b c d e f g h =
    a + 256 * (b + 256 * (c + 256 * (d + 256 * (e + 256 * (f + 256 * (g + 256 * h))))))

abbrev pub high_bits : ℕ
high_bits = 0x8080808080808080

-- The inner loop: eight bytes at a time while no high bit is set.
unfoldable pub skip_words : Bytes → Bytes
skip_words (a ∷ b ∷ c ∷ d ∷ e ∷ f ∷ g ∷ h ∷ s) =
    if bit_and (word a b c d e f g h) high_bits == 0
    then skip_words s
    else a ∷ b ∷ c ∷ d ∷ e ∷ f ∷ g ∷ h ∷ s
skip_words s = s

-- The loop over the continuation bytes.
continue_bytes : ℕ → Bytes → ℕ → Option ℕ
continue_bytes zero s cp = some cp
continue_bytes (suc k) [] cp = none
continue_bytes (suc k) (cc ∷ s) cp =
    if not (cc / 64 == 2) then none else continue_bytes k s (cp * 64 + cc % 64)

is_bad_code_point : ℕ → ℕ → Bool
is_bad_code_point least cp = ltb cp least || (leb 0xD800 cp && leb cp 0xDFFF) || ltb 0x10FFFF cp

-- A sequence of `need` continuation bytes behind `c`; `least` is `mins[need - 1]`. The result is
-- where the loop goes on, or where it stops.
end_sequence : ℕ → Bytes → Bytes → Option ℕ → ℕ → Turn Bytes Bytes
end_sequence least s at none need = leave at
end_sequence least s at (some cp) need =
    if is_bad_code_point least cp then leave at else again (drop need s)

utf8_sequence : ℕ → ℕ → ℕ → Bytes → Bytes → Turn Bytes Bytes
unfolding continue_bytes is_bad_code_point end_sequence
utf8_sequence need least lead s at =
    if ltb (length s) need
    then leave at
    else end_sequence least s at (continue_bytes need s lead) need

-- One byte or one sequence.
pub utf8_at : Bytes → Turn Bytes Bytes
unfolding utf8_sequence
utf8_at [] = leave []
utf8_at (c ∷ s) =
    if ltb c 0x80
    then again s
    else if c / 32 == 6
    then utf8_sequence 1 0x80 (c % 32) s (c ∷ s)
    else if c / 16 == 14
    then utf8_sequence 2 0x800 (c % 16) s (c ∷ s)
    else if c / 8 == 30
    then utf8_sequence 3 0x10000 (c % 8) s (c ∷ s)
    else leave (c ∷ s)

utf8_turn : Bytes → Turn Bytes Bytes
unfolding skip_words utf8_at
utf8_turn s = utf8_at (skip_words s)

-- What is left at the first byte that is not UTF-8; nothing if all is.
unfoldable pub utf8_invalid : Bytes → Bytes
unfolding utf8_turn
utf8_invalid s = run (0xFF ∷ []) utf8_turn length s

unfoldable pub utf8_invalid_at : Bytes → ℕ
unfolding utf8_invalid
utf8_invalid_at s = length s - length (utf8_invalid s)

-- `none` is `TEPTRIS_OK`; otherwise the status is `TEPTRIS_ERR_ENCODING`, at this position.
unfoldable pub validate_utf8 : Bytes → Option Position
unfolding utf8_invalid_at position
validate_utf8 s =
    if utf8_invalid_at s == length s then none else some (position s (utf8_invalid_at s))
