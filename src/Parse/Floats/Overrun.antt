-- ===== src/Parse/Floats/Overrun.antt =====
-- The buffer of the general path for floats, `fbuf`, and the texts that do not fit in it.
use teptris.Base.{
  ◌≤◌, ◌<◌, false, [], ◌∷◌, ◌++◌, append-nil, append_assoc, Bytes, length, ltb, leb, ◌==◌,
  if◌then◌else◌, ◌≡◌, refl, ap, ◌∙◌, arith, All, inl, inr, Bool-cases,
}
use teptris.Common.Chartype.{is_dec, is_dec-eq}
use teptris.Parse.Floats.{
  Doubles, Numeric, filled, float, is_sign, sign_of, fbuf_size, read_buffer, scan_fraction,
  scan_exponent, slow_tail, number_value, number,
}
use teptris.Parse.Numbers.{
  slow_float, digits_max, has_leading_zero, has_radix, scan_run, decimal_end, slow_decimal, decimal,
  unsigned_number, parse_number,
}
use teptris.Parse.Numbers.Decimal.{dec_run-digits, scan_run-digits, bind-ok}
use teptris.Parse.Result.{Result, overrun, ok, Parser, ◌>>=◌}

-- A run of digits that `scan_run` has room for.
abbrev pub IsRun : Bytes → Type 0
IsRun ds = All is_dec ds × (1 ≤ length ds) × (length ds ≤ digits_max)

-- `a.bee`
abbrev pub fraction_text : Bytes → Bytes → Bytes
fraction_text b e = b'.' ∷ (b ++ b'e' ∷ e)

point : is_dec b'.' ≡ false
point = is_dec-eq b'.'

letter_e : is_dec b'e' ≡ false
letter_e = is_dec-eq b'e'

module _ (b e : Bytes) (run_b : IsRun b) (run_e : IsRun e) where
  scan_fraction-run :
      (fbuf : Bytes) → scan_fraction fbuf (fraction_text b e) ≡ ok (fbuf ++ b'.' ∷ b) (b'e' ∷ e)
  unfolding scan_fraction
  scan_fraction-run fbuf =
      let (digits, one, le) = run_b in
      bind-ok (scan_run 10) (λ frac. ok (fbuf ++ b'.' ∷ frac)) (b ++ b'e' ∷ e) b (b'e' ∷ e)
        (scan_run-digits b (b'e' ∷ e) digits one le (ground (arith, letter_e)))

digit-is_sign : (e : Bytes) → All is_dec e → is_sign e ≡ false
digit-is_sign [] h = refl
digit-is_sign (c ∷ e) (d, h) = ground (arith, is_dec-eq c)

digit-sign_of : (e : Bytes) → All is_dec e → sign_of e ≡ []
digit-sign_of [] h = refl
digit-sign_of (c ∷ e) (d, h) =
    let plus : c == b'+' ≡ false = ground (arith, is_dec-eq c) in
    let minus : c == b'-' ≡ false = ground (arith, is_dec-eq c) in rw (plus, minus) refl

scan_exponent-run :
    (fbuf e : Bytes) → IsRun e → scan_exponent fbuf (b'e' ∷ e) ≡ ok (fbuf ++ b'e' ∷ e) []
unfolding scan_exponent
scan_exponent-run fbuf e (digits, one, le) =
    let all : scan_run 10 e ≡ ok e [] =
      rw append-nil at (scan_run-digits e [] digits one le refl) in
    rw (digit-is_sign e digits, digit-sign_of e digits)
      (bind-ok (scan_run 10) (λ ex. ok (fbuf ++ b'e' ∷ ex)) e e [] all)

digit-has_radix : (a rest : Bytes) → All is_dec a → 2 ≤ length a → has_radix (a ++ rest) ≡ false
digit-has_radix [] rest h two = ground arith
digit-has_radix (c ∷ []) rest h two = ground arith
digit-has_radix (c ∷ r ∷ a) rest (d, (hr, h)) two = ground (arith, is_dec-eq r)

-- What is read of `text`, the whole of which `fbuf` has to hold with the NUL behind it.
abbrev pub fitted : {D : Type 0} → Doubles D → Bytes → Result (Numeric D)
fitted c text = if ltb (length text) fbuf_size then ok (float (read_buffer c text)) [] else overrun

module _ {D : Type 0} (c : Doubles D) (a b e : Bytes) (run_a : IsRun a) (run_b : IsRun b)
    (run_e : IsRun e) where
  slow_tail-run : slow_tail c false a (fraction_text b e) ≡ fitted c (a ++ fraction_text b e)
  unfolding slow_tail
  slow_tail-run =
      let ended : Bytes → Parser (Numeric D) = filled c in
      let whole_text : (a ++ b'.' ∷ b) ++ b'e' ∷ e ≡ a ++ fraction_text b e =
        append_assoc a (b'.' ∷ b) (b'e' ∷ e) in
      bind-ok (scan_fraction a) (λ fbuf. scan_exponent fbuf >>= ended) (fraction_text b e)
        (a ++ b'.' ∷ b) (b'e' ∷ e) (scan_fraction-run b e run_b run_e a)
      ∙ bind-ok (scan_exponent (a ++ b'.' ∷ b)) ended (b'e' ∷ e) ((a ++ b'.' ∷ b) ++ b'e' ∷ e) []
          (scan_exponent-run (a ++ b'.' ∷ b) e run_e)
      ∙ ap (fitted c) whole_text

  slow_decimal-run :
      has_leading_zero a ≡ false
      → slow_decimal false (a ++ fraction_text b e) ≡ ok (slow_float a) (fraction_text b e)
  unfolding slow_decimal decimal_end
  slow_decimal-run lead =
      let (digits, one, le) = run_a in
      bind-ok (scan_run 10) (decimal_end false) (a ++ fraction_text b e) a (fraction_text b e)
        (scan_run-digits a (fraction_text b e) digits one le (ground (arith, point)))
      ∙ (rw lead refl)

  decimal-run :
      has_leading_zero a ≡ false
      → 18 < length a
      → decimal false (a ++ fraction_text b e) ≡ ok (slow_float a) (fraction_text b e)
  unfolding decimal
  decimal-run lead long =
      let (digits, one, le) = run_a in
      let run = dec_run-digits a (fraction_text b e) digits (ground (arith, point)) in
      let many : leb (length a) 18 ≡ false = ground arith in
      rw run (elim (Bool-cases (ltb 0 (length a))) [
        | inl some_digits ↦ rw (some_digits, many) (slow_decimal-run lead)
        | inr no_digits ↦ rw no_digits (slow_decimal-run lead)
      ])

unsigned_number-decimal :
    (a rest : Bytes)
    → All is_dec a
    → 2 ≤ length a
    → unsigned_number false false (a ++ rest) ≡ decimal false (a ++ rest)
unfolding unsigned_number
unsigned_number-decimal [] rest h two = ground arith
unsigned_number-decimal (c ∷ a) rest (d, h) two =
    let no_i : c == b'i' ≡ false = ground (arith, is_dec-eq c) in
    let no_n : c == b'n' ≡ false = ground (arith, is_dec-eq c) in
    rw (no_i, no_n, d, digit-has_radix (c ∷ a) rest (d, h) two) refl

-- A float `a.bee` of three runs of 1 to 511 digits, the first of at least 19 and without a leading
-- zero, is read with the whole of its text in `fbuf` where the text has less than 1032 bytes; every
-- longer one is written past the end of `fbuf`.
pub number-overrun :
    {D : Type 0} (c : Doubles D) (a b e : Bytes)
    → IsRun a
    → IsRun b
    → IsRun e
    → has_leading_zero a ≡ false
    → 18 < length a
    → number c false (a ++ fraction_text b e) ≡ fitted c (a ++ fraction_text b e)
unfolding number parse_number
number-overrun c a b e run_a run_b run_e lead long =
    let (digits, one, le) = run_a in
    let text = a ++ fraction_text b e in
    bind-ok (parse_number false) (number_value c false false) text (slow_float a)
      (fraction_text b e)
      (unsigned_number-decimal a (fraction_text b e) digits (omega arith)
        ∙ decimal-run c a b e run_a run_b run_e lead long)
    ∙ slow_tail-run c a b e run_a run_b run_e
