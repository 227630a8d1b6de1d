-- ===== src/Parse/Floats.antt =====
-- src/teptris/parse/scalars.c: teptris_parse_number where a float follows. The arithmetic of `double`,
-- ryu (third-party) and `strtod` are parameters.
pub mod Progress
pub mod Overrun
use teptris.Base.{
  ℕ, zero, suc, ◌+◌, ◌-◌, ◌*◌, ◌%◌, Bool, true, false, not, ◌&&◌, ◌||◌, List, [], ◌∷◌, ◌++◌, Option,
  none, some, Bytes, length, take, ltb, leb, ◌==◌, if◌then◌else◌, ℤ,
}
use teptris.Common.Chartype.{is_dec}
use teptris.Parse.Cursor.{adv, next_is}
use teptris.Parse.Numbers.{
  Number, integer, infinity, not_a_number, plain_float, slow_float, scan_run, dec_run,
  behind_dec_run, wrapping, slow_decimal, parse_number, magnitude_max,
}
use teptris.Parse.Result.{
  Result, ok, fail, stuck, overrun, Parser, ◌>>=◌, syntax, expected_digits, invalid_number,
}

-- What the code uses of `double`.
pub record Doubles (D : Type 0) : Type 0 where
  -- `(double)n` and `pow10[n]`
  pub of_nat : ℕ → D
  pub pow10 : ℕ → D
  pub times : D → D → D
  pub over : D → D → D
  pub negate : D → D
  pub infinite : D
  pub nan : D
  -- teptris_ryu_s2d_n, where it succeeds, and `strtod`
  pub s2d : Bytes → Option D
  pub strtod : Bytes → D

-- What a number is: TEPTRIS_INTEGER or TEPTRIS_FLOAT.
pub data Numeric (D : Type 0) : Type 0 where
  whole : ℤ → Numeric D
  float : D → Numeric D

-- What the zero-copy path sees: the mantissa, which the digits of the fraction continue, how many of
-- them it took, the exponent and its sign, and the end of the number.
pub record Peek : Type 0 where
  pub fmag : ℕ
  pub fdig : ℕ
  pub exponent : ℕ
  pub eneg : Bool
  pub q : Bytes

-- The digits of the fraction, 18 at most.
abbrev pub mantissa : ℕ → ℕ → Bytes → ℕ × ℕ
mantissa fmag fdig [] = (fmag, fdig)
mantissa fmag fdig (c ∷ s) =
    if ltb fdig 18
    then mantissa ((fmag * 10 + (c - b'0')) % (magnitude_max + 1)) (suc fdig) s
    else mantissa fmag fdig s

-- `ok` is false where the digits are missing or an underscore follows them.
abbrev pub digits_there : Bytes → Bool
digits_there s = ltb 0 (length (dec_run s)) && not (next_is b'_' (behind_dec_run s))

unfoldable pub peek_fraction : ℕ → Bytes → Option Peek
unfolding dec_run behind_dec_run
peek_fraction mag s =
    if next_is b'.' s
    then (if digits_there (adv 1 s)
        then (let (fmag, fdig) = mantissa mag 0 (dec_run (adv 1 s)) in
            some (record {
              fmag = fmag;
              fdig = fdig;
              exponent = 0;
              eneg = false;
              q = behind_dec_run (adv 1 s);
            }))
        else none)
    else some (record { fmag = mag; fdig = 0; exponent = 0; eneg = false; q = s })

-- The exponent stops growing from 100000 on.
abbrev pub e10_of : ℕ → Bytes → ℕ
e10_of e [] = e
e10_of e (c ∷ s) = e10_of (if ltb e 100000 then e * 10 + (c - b'0') else e) s

abbrev pub is_sign : Bytes → Bool
is_sign s = next_is b'+' s || next_is b'-' s

abbrev pub behind_sign : Bytes → Bytes
behind_sign s = if is_sign s then adv 1 s else s

abbrev pub has_exponent : Bytes → Bool
has_exponent s = next_is b'e' s || next_is b'E' s

unfoldable pub peek_exponent : Peek → Option Peek
unfolding dec_run behind_dec_run
peek_exponent k =
    if has_exponent k.q
    then (let s = behind_sign (adv 1 k.q) in
        if digits_there s
        then some (record k {
          exponent = e10_of 0 (dec_run s);
          eneg = next_is b'-' (adv 1 k.q);
          q = behind_dec_run s;
        })
        else none)
    else some k

-- `dexp = e10 - fdig`, as its sign and magnitude.
abbrev pub dexp_neg : Peek → Bool
dexp_neg k = if k.eneg then ltb 0 (k.exponent + k.fdig) else ltb k.exponent k.fdig

abbrev pub dexp_abs : Peek → ℕ
dexp_abs k =
    if k.eneg
    then k.exponent + k.fdig
    else if ltb k.exponent k.fdig
    then k.fdig - k.exponent
    else k.exponent - k.fdig

-- The conditions of the Clinger fast path.
abbrev pub is_exact : ℕ → Peek → Bool
is_exact dlen k = leb k.exponent 400 && leb (dlen + k.fdig) 15 && leb (dexp_abs k) 22

-- The text up to `q`.
abbrev pub text_of : Bytes → Bytes → Bytes
text_of s q = take (length s - length q) s

-- TEP_NUM_MAX * 2 + 8
abbrev pub fbuf_size : ℕ
fbuf_size = 1032

-- What is copied into `fbuf` of the digits at the cursor, up to `room` bytes from its end.
unfoldable pub copy_digits : ℕ → Bytes → Parser Bytes
unfolding dec_run behind_dec_run
copy_digits room fbuf s =
    if length (dec_run s) == 0
    then syntax expected_digits s
    else ok (fbuf ++ take (fbuf_size - room - length fbuf) (dec_run s)) (behind_dec_run s)

-- The sign of the exponent, where there is one.
abbrev pub sign_of : Bytes → Bytes
sign_of [] = []
sign_of (c ∷ s) = if c == b'+' || c == b'-' then c ∷ [] else []

-- The fraction and the exponent, copied into `fbuf`; `none` is `goto slow_decimal`.
unfoldable pub copy_fraction : Bytes → Parser (Option Bytes)
unfolding copy_digits
copy_fraction fbuf s =
    if next_is b'.' s
    then (copy_digits 24 (fbuf ++ b'.' ∷ []) >>= λ b s'.
          ok (if next_is b'_' s' then none else some b) s')
        (adv 1 s)
    else ok (some fbuf) s

unfoldable pub copy_exponent : Bytes → Parser (Option Bytes)
unfolding copy_digits
copy_exponent fbuf s =
    if has_exponent s
    then (copy_digits 8 (fbuf ++ b'e' ∷ sign_of (adv 1 s)) >>= λ b s'.
          ok (if next_is b'_' s' then none else some b) s')
        (behind_sign (adv 1 s))
    else ok (some fbuf) s

-- The same behind `slow_decimal`, where underscores may stand between the digits.
unfoldable pub scan_fraction : Bytes → Parser Bytes
unfolding scan_run
scan_fraction fbuf s =
    if next_is b'.' s
    then (scan_run 10 >>= λ frac. ok (fbuf ++ b'.' ∷ frac)) (adv 1 s)
    else ok fbuf s

unfoldable pub scan_exponent : Bytes → Parser Bytes
unfolding scan_run
scan_exponent fbuf s =
    if has_exponent s
    then (scan_run 10 >>= λ ex. ok (fbuf ++ b'e' ∷ (sign_of (adv 1 s) ++ ex)))
        (behind_sign (adv 1 s))
    else ok fbuf s

abbrev pub peek : Bytes → Bytes → Option Peek
peek digits s = elim (peek_fraction (wrapping 0 digits) s) [
  | none ↦ none
  | some k ↦ peek_exponent k
]

abbrev pub minus_sign : Bool → Bytes
minus_sign neg = if neg then b'-' ∷ [] else []

module _ {D : Type 0} (c : Doubles D) where
  abbrev pub with_sign : Bool → D → D
  with_sign neg d = if neg then c.negate d else d

  -- One exact power of ten, `base * pow10[dexp]` or `base / pow10[-dexp]`.
  unfoldable pub clinger : Peek → D
  clinger k =
      if dexp_neg k
      then c.over (c.of_nat k.fmag) (c.pow10 (dexp_abs k))
      else c.times (c.of_nat k.fmag) (c.pow10 (dexp_abs k))

  -- What `fbuf` stands for.
  abbrev pub read_buffer : Bytes → D
  read_buffer fbuf = elim (c.s2d fbuf) [ none ↦ c.strtod fbuf | some d ↦ d ]

  -- The text is in `fbuf`, with a NUL behind it.
  abbrev pub filled : Bytes → Parser (Numeric D)
  filled fbuf s = if ltb (length fbuf) fbuf_size then ok (float (read_buffer fbuf)) s else overrun

  -- The end of the path from `slow_decimal`. No copy into `fbuf` is bounded. The sign, the
  -- integer part and the fraction are 1024 bytes at most, so the test stands behind the exponent.
  unfoldable pub slow_tail : Bool → Bytes → Parser (Numeric D)
  unfolding scan_fraction scan_exponent
  slow_tail neg buf =
      scan_fraction (minus_sign neg ++ buf) >>= λ fbuf. scan_exponent fbuf >>= filled

  abbrev pub slow_number : Bool → Number → Parser (Numeric D)
  slow_number neg (integer i) = ok (whole i)
  slow_number neg (slow_float buf) = slow_tail neg buf
  slow_number neg (plain_float digits) = λ s. stuck
  slow_number neg (infinity n) = λ s. stuck
  slow_number neg not_a_number = λ s. stuck

  -- `slow_decimal`, from the first digit.
  unfoldable pub restart : Bool → Bytes → Bytes → Result (Numeric D)
  unfolding slow_decimal slow_tail
  restart neg digits s = (slow_decimal neg >>= slow_number neg) (digits ++ s)

  abbrev pub exponent_done : Bool → Bytes → Bytes → Option Bytes → Parser (Numeric D)
  exponent_done neg digits s none s' = restart neg digits s
  exponent_done neg digits s (some fbuf) s' = ok (float (read_buffer fbuf)) s'

  abbrev pub fraction_done : Bool → Bytes → Bytes → Option Bytes → Parser (Numeric D)
  fraction_done neg digits s none s' = restart neg digits s
  fraction_done neg digits s (some fbuf) s' = (copy_exponent fbuf >>= exponent_done neg digits s) s'

  -- The copying path, from the digits of the integer part and what is behind them.
  unfoldable pub copied : Bool → Bytes → Parser (Numeric D)
  unfolding copy_fraction copy_exponent restart
  copied neg digits s = (copy_fraction (minus_sign neg ++ digits) >>= fraction_done neg digits s) s

  -- The zero-copy path.
  abbrev pub peeked : Bool → Bytes → Bytes → Option Peek → Result (Numeric D)
  peeked neg digits s none = copied neg digits s
  peeked neg digits s (some k) =
      if is_exact (length digits) k
      then ok (float (with_sign neg (clinger k))) k.q
      else elim (c.s2d (text_of (minus_sign neg ++ (digits ++ s)) k.q)) [
        | none ↦ copied neg digits s
        | some d ↦ ok (float d) k.q
      ]

  -- Behind at most 18 digits, at the `.`, `e` or `E`.
  unfoldable pub plain_tail : Bool → Bool → Bytes → Parser (Numeric D)
  unfolding peek_fraction peek_exponent wrapping clinger copied
  plain_tail signed_input neg digits s =
      if signed_input && not neg then copied neg digits s else peeked neg digits s (peek digits s)

  abbrev pub number_value : Bool → Bool → Number → Parser (Numeric D)
  number_value signed_input neg (integer i) = ok (whole i)
  number_value signed_input neg (infinity n) =
      ok (float (if n then c.negate c.infinite else c.infinite))
  number_value signed_input neg not_a_number = ok (float c.nan)
  number_value signed_input neg (plain_float digits) = plain_tail signed_input neg digits
  number_value signed_input neg (slow_float buf) = slow_tail neg buf

  -- The whole of `teptris_parse_number`.
  unfoldable pub number : Bool → Parser (Numeric D)
  unfolding plain_tail slow_tail parse_number
  number signed_input s =
      (parse_number signed_input >>= number_value signed_input (signed_input && next_is b'-' s)) s
