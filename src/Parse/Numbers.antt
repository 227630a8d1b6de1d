-- ===== src/Parse/Numbers.antt =====
-- src/teptris/parse/scalars.c: teptris_parse_number, up to the point where a float begins. It goes
-- on from there in Parse/Floats.
pub mod Magnitude
pub mod Decimal
pub mod Progress
use teptris.Base.{
  ℕ, ◌+◌, ◌-◌, ◌*◌, ◌/◌, ◌%◌, Bool, true, false, not, ◌&&◌, ◌||◌, List, [], ◌∷◌, ◌++◌, Option, none,
  some, Bytes, codes, length, ltb, leb, ◌==◌, if◌then◌else◌, ℤ, pos, minus,
}
use teptris.Common.Chartype.{is_dec, is_hex}
use teptris.Parse.Cursor.{adv, next_is}
use teptris.Parse.Result.{
  Result, ok, fail, stuck, Parser, ◌>>=◌, syntax, invalid_value, invalid_number, number_too_long,
  underscore_between, trailing_underscore, expected_digits, sign_on_radix, out_of_range,
  leading_zero,
}
use teptris.Parse.Strings.{hexval}

-- The number that a node holds, or the digits of the integer part of a float, with a `.`, an `e` or
-- an `E` at the cursor: `plain_float` on the fast path, `slow_float` behind `slow_decimal`.
pub data Number : Type 0 where
  integer : ℤ → Number
  infinity : Bool → Number
  not_a_number : Number
  plain_float : Bytes → Number
  slow_float : Bytes → Number

-- The words `inf` and `nan`.
abbrev pub is_word : Bytes → Bytes → Bool
is_word [] s = true
is_word (w ∷ ws) [] = false
is_word (w ∷ ws) (c ∷ s) = c == w && is_word ws s

unfoldable pub expect_word : Bytes → Parser (Unit {0})
expect_word w s = if is_word w s then ok tt (adv (length w) s) else syntax invalid_value s

unfoldable pub digit_for : ℕ → ℕ → Bool
digit_for c radix =
    if radix == 10
    then is_dec c
    else if radix == 16
    then is_hex c
    else if radix == 8
    then leb b'0' c && leb c b'7'
    else if radix == 2
    then c == b'0' || c == b'1'
    else false

-- One less than TEP_NUM_MAX.
abbrev pub digits_max : ℕ
digits_max = 511

-- Behind the digits and underscores.
unfoldable pub run_end : Bytes → Bool → Parser Bytes
run_end buf prev_digit s =
    if length buf == 0
    then syntax expected_digits s
    else if not prev_digit
    then syntax trailing_underscore s
    else ok buf s

-- The loop of `scan_run`, with the digits put into `buf` so far.
unfoldable pub run_loop : ℕ → Bytes → Bool → Parser Bytes
unfolding run_end digit_for
run_loop radix buf prev_digit [] = run_end buf prev_digit []
run_loop radix buf prev_digit (c ∷ s) =
    let is_digit = digit_for c radix in
    let rest = run_loop radix (if is_digit then buf ++ c ∷ [] else buf) is_digit s in
    if is_digit
    then (if length buf == digits_max then syntax number_too_long (c ∷ s) else rest)
    else if c == b'_'
    then (if prev_digit then rest else syntax underscore_between (c ∷ s))
    else run_end buf prev_digit (c ∷ s)

unfoldable pub scan_run : ℕ → Parser Bytes
unfolding run_loop
scan_run radix s = run_loop radix [] false s

-- UINT64_MAX
abbrev pub magnitude_max : ℕ
magnitude_max = 18446744073709551615

-- The loop of `mag_from`; `none` where the next step would wrap.
unfoldable pub mag_from : ℕ → ℕ → Bytes → Option ℕ
unfolding hexval
mag_from radix v [] = some v
mag_from radix v (c ∷ s) =
    let rest = mag_from radix (v * radix + hexval c) s in
    if ltb ((magnitude_max - hexval c) / radix) v then none else rest

-- INT64_MAX
abbrev pub integer_max : ℕ
integer_max = 9223372036854775807

-- The largest magnitude with a sign.
abbrev pub magnitude_limit : Bool → ℕ
magnitude_limit neg = if neg then 9223372036854775808 else integer_max

abbrev pub signed : Bool → ℕ → ℤ
signed neg mag = if neg then minus mag else pos mag

abbrev pub in_range : Bool → Option ℕ → Parser Number
in_range neg none s = syntax out_of_range s
in_range neg (some mag) s =
    if ltb (magnitude_limit neg) mag then syntax out_of_range s else ok (integer (signed neg mag)) s

abbrev pub radix_of : ℕ → ℕ
radix_of r = if r == b'x' then 16 else if r == b'o' then 8 else 2

-- Behind the prefix.
unfoldable pub radix_integer : ℕ → Parser Number
unfolding scan_run mag_from
radix_integer radix = scan_run radix >>= λ buf. in_range false (mag_from radix 0 buf)

abbrev pub begins_float : Bytes → Bool
begins_float [] = false
begins_float (c ∷ s) = c == b'.' || c == b'e' || c == b'E'

-- A zero with a digit behind it.
abbrev pub has_leading_zero : Bytes → Bool
has_leading_zero (a ∷ b ∷ buf) = a == b'0'
has_leading_zero _ = false

unfoldable pub decimal_end : Bool → Bytes → Parser Number
unfolding mag_from
decimal_end neg buf s =
    if has_leading_zero buf
    then syntax leading_zero s
    else if begins_float s
    then ok (slow_float buf) s
    else in_range neg (mag_from 10 0 buf) s

-- From the label `slow_decimal`.
unfoldable pub slow_decimal : Bool → Parser Number
unfolding scan_run decimal_end
slow_decimal neg = scan_run 10 >>= decimal_end neg

-- The loop of the fast path: its digits, what is left, and the magnitude, which wraps.
unfoldable pub dec_run : Bytes → Bytes
dec_run [] = []
dec_run (c ∷ s) = let rest = dec_run s in if is_dec c then c ∷ rest else []

unfoldable pub behind_dec_run : Bytes → Bytes
behind_dec_run [] = []
behind_dec_run (c ∷ s) = let rest = behind_dec_run s in if is_dec c then rest else c ∷ s

unfoldable pub wrapping : ℕ → Bytes → ℕ
wrapping v [] = v
wrapping v (c ∷ s) = wrapping ((v * 10 + (c - b'0')) % (magnitude_max + 1)) s

unfoldable pub plain_end : Bool → Bytes → Parser Number
unfolding wrapping
plain_end neg digits s =
    if has_leading_zero digits
    then syntax leading_zero s
    else if begins_float s
    then ok (plain_float digits) s
    else ok (integer (signed neg (wrapping 0 digits))) s

-- At most 18 digits and no underscore behind them.
unfoldable pub decimal : Bool → Parser Number
unfolding plain_end slow_decimal dec_run behind_dec_run
decimal neg s =
    let digits = dec_run s in
    let rest = behind_dec_run s in
    if ltb 0 (length digits) && leb (length digits) 18 && not (next_is b'_' rest)
    then plain_end neg digits rest
    else slow_decimal neg s

abbrev pub has_radix : Bytes → Bool
has_radix (c ∷ r ∷ s) = c == b'0' && (r == b'x' || r == b'o' || r == b'b')
has_radix _ = false

-- `ps->p[1]`
abbrev pub second_byte : Bytes → ℕ
second_byte (c ∷ r ∷ s) = r
second_byte _ = 0

-- Behind the sign.
unfoldable pub unsigned_number : Bool → Bool → Parser Number
unfolding radix_integer expect_word
unsigned_number signed_input neg [] = syntax invalid_number []
unsigned_number signed_input neg (c ∷ s) =
    if c == b'i'
    then (expect_word (codes "inf") >>= λ _. ok (infinity neg)) (c ∷ s)
    else if c == b'n'
    then (expect_word (codes "nan") >>= λ _. ok not_a_number) (c ∷ s)
    else if not (is_dec c)
    then syntax invalid_number (c ∷ s)
    else if has_radix (c ∷ s)
    then (if signed_input
        then syntax sign_on_radix (c ∷ s)
        else radix_integer (radix_of (second_byte (c ∷ s))) (adv 2 (c ∷ s)))
    else decimal neg (c ∷ s)

unfoldable pub parse_number : Bool → Parser Number
parse_number signed_input s =
    if signed_input
    then unsigned_number true (next_is b'-' s) (adv 1 s)
    else unsigned_number false false s
