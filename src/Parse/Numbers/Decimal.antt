-- ===== src/Parse/Numbers/Decimal.antt =====
-- What the parser makes of a plain decimal integer.
use teptris.Base.{
  ℕ, ◌+◌, ◌≤◌, Bool, true, false, not, ◌&&◌, ◌||◌, [], ◌∷◌, ◌++◌, append-nil, append_assoc, some,
  Bytes, length, length-append, ltb, leb, ◌==◌, ◌≡◌, refl, ◌∙◌, ap, All, arith, Bool-cases, inl,
  inr,
}
use teptris.Common.Chartype.{is_dec, is_dec-eq}
use teptris.Parse.Cursor.{next_is}
use teptris.Parse.Numbers.Magnitude.{
  horner, digit_below, mag_from-horner, digit_value-dec, wrapping-horner,
}
use teptris.Parse.Numbers.{
  integer, mag_from, magnitude_max, magnitude_limit, signed, in_range, has_leading_zero,
  begins_float, decimal_end, run_end, run_loop, scan_run, digit_for, slow_decimal, dec_run,
  behind_dec_run, plain_end, decimal, has_radix, unsigned_number, digits_max,
}
use teptris.Parse.Result.{ok, fail, stuck, overrun, Parser, ◌>>=◌}

-- A byte that neither goes on with a decimal integer nor makes it a float or a radix prefix.
abbrev pub ends_integer : ℕ → Bool
ends_integer c = not (
    is_dec c
    || c == b'_'
    || c == b'.'
    || c == b'e'
    || c == b'E'
    || c == b'x'
    || c == b'o'
    || c == b'b')

abbrev pub stops_integer : Bytes → Bool
stops_integer [] = true
stops_integer (c ∷ s) = ends_integer c

-- A byte that neither goes on with a run of digits nor is an underscore.
abbrev pub stops_run : Bytes → Bool
stops_run [] = true
stops_run (c ∷ s) = not (is_dec c || c == b'_')

stops_integer-run : (s : Bytes) → stops_integer s ≡ true → stops_run s ≡ true
stops_integer-run [] e = refl
stops_integer-run (c ∷ s) e = ground arith

pub dec_run-digits :
    (ds rest : Bytes) → All is_dec ds → stops_run rest ≡ true → dec_run (ds ++ rest) ≡ ds
unfolding dec_run
dec_run-digits [] [] h e = refl
dec_run-digits [] (c ∷ s) h e = ground arith
dec_run-digits (c ∷ ds) rest (d, h) e = rw d (ap (◌∷◌ c) (dec_run-digits ds rest h e))

behind_dec_run-digits :
    (ds rest : Bytes) → All is_dec ds → stops_run rest ≡ true → behind_dec_run (ds ++ rest) ≡ rest
unfolding behind_dec_run
behind_dec_run-digits [] [] h e = refl
behind_dec_run-digits [] (c ∷ s) h e = ground arith
behind_dec_run-digits (c ∷ ds) rest (d, h) e = rw d (behind_dec_run-digits ds rest h e)

run_end-ok : (buf rest : Bytes) → 1 ≤ length buf → run_end buf true rest ≡ ok buf rest
unfolding run_end
run_end-ok buf rest h = ground arith

run_loop-digits :
    (buf ds rest : Bytes)
    → All is_dec ds
    → 1 ≤ length buf
    → length buf + length ds ≤ digits_max
    → stops_run rest ≡ true
    → run_loop 10 buf true (ds ++ rest) ≡ ok (buf ++ ds) rest
unfolding run_loop digit_for
run_loop-digits buf [] [] h one le e = rw append-nil (run_end-ok buf [] one)
run_loop-digits buf [] (c ∷ s) h one le e =
    let no_digit : is_dec c ≡ false = ground arith in
    let no_underscore : c == b'_' ≡ false = ground arith in
    rw (no_digit, no_underscore, append-nil) (run_end-ok buf (c ∷ s) one)
run_loop-digits buf (c ∷ ds) rest (d, h) one le e =
    let longer : length (buf ++ c ∷ []) ≡ length buf + 1 = length-append buf (c ∷ []) in
    let next = run_loop-digits (buf ++ c ∷ []) ds rest h (omega arith) (omega arith) e in
    let room : length buf == digits_max ≡ false = ground arith in
    rw (d, room) (next ∙ ap (λ x. ok x rest) (append_assoc buf (c ∷ []) ds))

pub scan_run-digits :
    (ds rest : Bytes)
    → All is_dec ds
    → 1 ≤ length ds
    → length ds ≤ digits_max
    → stops_run rest ≡ true
    → scan_run 10 (ds ++ rest) ≡ ok ds rest
unfolding scan_run run_loop digit_for
scan_run-digits [] rest h one le e = ground arith
scan_run-digits (c ∷ ds) rest (d, h) one le e =
    rw d (run_loop-digits (c ∷ []) ds rest h (ground arith) (ground arith) e)

digits_below_ten : (ds : Bytes) → All is_dec ds → All (digit_below 10) ds
digits_below_ten [] h = tt
digits_below_ten (c ∷ ds) (d, h) =
    let (same, small, hex) = digit_value-dec c d in (ground arith, digits_below_ten ds h)

magnitude_lem :
    (neg : Bool) (ds : Bytes)
    → All is_dec ds
    → horner 10 0 ds ≤ magnitude_limit neg
    → mag_from 10 0 ds ≡ some (horner 10 0 ds)
magnitude_lem neg ds h small =
    let fits : horner 10 0 ds ≤ magnitude_max = ground arith in
    let exact =
      mag_from-horner 10 0 ds (ground arith) (ground arith) (ground arith)
        (digits_below_ten ds h) in
    let no_more : ltb magnitude_max (horner 10 0 ds) ≡ false = ground arith in rw no_more at exact

stops-begins_float : (rest : Bytes) → stops_integer rest ≡ true → begins_float rest ≡ false
stops-begins_float [] e = refl
stops-begins_float (c ∷ s) e = ground arith

plain_end-horner :
    (neg : Bool) (ds rest : Bytes)
    → All is_dec ds
    → has_leading_zero ds ≡ false
    → horner 10 0 ds ≤ magnitude_limit neg
    → stops_integer rest ≡ true
    → plain_end neg ds rest ≡ ok (integer (signed neg (horner 10 0 ds))) rest
unfolding plain_end
plain_end-horner neg ds rest h lead small e =
    let fits : horner 10 0 ds ≤ magnitude_max = ground arith in
    rw (lead, stops-begins_float rest e)
      (ap (λ v. ok (integer (signed neg v)) rest) (wrapping-horner 0 ds h fits))

decimal_end-horner :
    (neg : Bool) (ds rest : Bytes)
    → All is_dec ds
    → has_leading_zero ds ≡ false
    → horner 10 0 ds ≤ magnitude_limit neg
    → stops_integer rest ≡ true
    → decimal_end neg ds rest ≡ ok (integer (signed neg (horner 10 0 ds))) rest
unfolding decimal_end
decimal_end-horner neg ds rest h lead small e =
    let fits : ltb (magnitude_limit neg) (horner 10 0 ds) ≡ false = ground arith in
    rw (lead, stops-begins_float rest e)
      (ap (λ m. in_range neg m rest) (magnitude_lem neg ds h small) ∙ rw fits refl)

pub bind-ok :
    {A B : Type 0} (m : Parser A) (k : A → Parser B) (s : Bytes) (a : A) (rest : Bytes)
    → m s ≡ ok a rest
    → (m >>= k) s ≡ k a rest
bind-ok m k s a rest e =
    ap
      (λ r. elim r [
        | ok x left ↦ k x left
        | fail st why left ↦ fail st why left
        | stuck ↦ stuck
        | overrun ↦ overrun
      ])
      e

slow_decimal-horner :
    (neg : Bool) (ds rest : Bytes)
    → All is_dec ds
    → 1 ≤ length ds
    → length ds ≤ digits_max
    → has_leading_zero ds ≡ false
    → horner 10 0 ds ≤ magnitude_limit neg
    → stops_integer rest ≡ true
    → slow_decimal neg (ds ++ rest) ≡ ok (integer (signed neg (horner 10 0 ds))) rest
unfolding slow_decimal
slow_decimal-horner neg ds rest h one le lead small e =
    bind-ok (scan_run 10) (decimal_end neg) (ds ++ rest) ds rest
      (scan_run-digits ds rest h one le (stops_integer-run rest e))
    ∙ (decimal_end-horner neg ds rest h lead small e)

-- A run of decimal digits without a leading zero, of at most 511 digits, whose number is in the range
-- of its sign, and which no digit, underscore, float or radix prefix follows, is read as that number,
-- on the fast path and on the general one; what follows is left.
pub decimal-horner :
    (neg : Bool) (ds rest : Bytes)
    → All is_dec ds
    → 1 ≤ length ds
    → length ds ≤ digits_max
    → has_leading_zero ds ≡ false
    → horner 10 0 ds ≤ magnitude_limit neg
    → stops_integer rest ≡ true
    → decimal neg (ds ++ rest) ≡ ok (integer (signed neg (horner 10 0 ds))) rest
unfolding decimal
decimal-horner neg ds rest h one le lead small e =
    let e' = stops_integer-run rest e in
    rw (dec_run-digits ds rest h e', behind_dec_run-digits ds rest h e')
      (elim (Bool-cases (ltb 0 (length ds) && leb (length ds) 18 && not (next_is b'_' rest))) [
        | inl plain ↦ rw plain (plain_end-horner neg ds rest h lead small e)
        | inr long ↦ rw long (slow_decimal-horner neg ds rest h one le lead small e)
      ])

digit-has_radix :
    (ds rest : Bytes)
    → All is_dec ds
    → 1 ≤ length ds
    → stops_integer rest ≡ true
    → has_radix (ds ++ rest) ≡ false
digit-has_radix [] rest h one e = ground arith
digit-has_radix (c ∷ []) [] h one e = refl
digit-has_radix (c ∷ []) (r ∷ s) h one e = ground arith
digit-has_radix (c ∷ d ∷ ds) rest (h, (hd, hs)) one e = ground (arith, is_dec-eq d)

-- The dispatch on the first byte.
pub unsigned_number-horner :
    (signed_input neg : Bool) (ds rest : Bytes)
    → All is_dec ds
    → 1 ≤ length ds
    → length ds ≤ digits_max
    → has_leading_zero ds ≡ false
    → horner 10 0 ds ≤ magnitude_limit neg
    → stops_integer rest ≡ true
    → unsigned_number signed_input neg (ds ++ rest)
      ≡ ok (integer (signed neg (horner 10 0 ds))) rest
unfolding unsigned_number
unsigned_number-horner signed_input neg [] rest h one le lead small e = ground arith
unsigned_number-horner signed_input neg (c ∷ ds) rest (d, h) one le lead small e =
    let no_i : c == b'i' ≡ false = ground (arith, is_dec-eq c) in
    let no_n : c == b'n' ≡ false = ground (arith, is_dec-eq c) in
    let no_radix = digit-has_radix (c ∷ ds) rest (d, h) one e in
    rw (no_i, no_n, d, no_radix) (decimal-horner neg (c ∷ ds) rest (d, h) one le lead small e)
