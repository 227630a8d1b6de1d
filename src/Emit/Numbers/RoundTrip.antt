-- ===== src/Emit/Numbers/RoundTrip.antt =====
-- The parser reads back every integer that the emitter writes.
use teptris.Base.{
  ℕ, zero, suc, ◌+◌, ◌*◌, ◌/◌, ◌%◌, ◌^◌, ◌≤◌, ◌<◌, Bool, true, false, [], ◌∷◌, ◌++◌, Bytes, length,
  ◌==◌, ◌≡◌, refl, ◌∙◌, ap, All, arith, Bool-cases, inl, inr, ℤ, pos, negsuc, minus, is_negative,
}
use teptris.Common.Chartype.{is_dec, is_dec-eq}
use teptris.Emit.Numbers.{digits, emit_i64}
use teptris.Parse.Numbers.Magnitude.{horner, digit_value, digit_value-dec}
use teptris.Parse.Numbers.Decimal.{stops_integer, unsigned_number-horner}
use teptris.Parse.Numbers.{
  integer, magnitude_limit, signed, has_leading_zero, unsigned_number, parse_number,
}
use teptris.Parse.Result.{ok}

digit-is_dec : (d : ℕ) → d < 10 → is_dec (48 + d) ≡ true
digit-is_dec d h = ground (arith, is_dec-eq (48 + d))

digit-step :
    (front mag : ℕ) → front * 10 + mag % 10 ≡ mag → front * 10 + digit_value (48 + mag % 10) ≡ mag
digit-step front mag h =
    let (digit, _, _) = digit_value-dec (48 + mag % 10) (digit-is_dec (mag % 10) (omega arith)) in
    omega arith

-- Writing the digits of `mag` in front of a tail, and reading them, is to have read `mag`.
horner-digits :
    (fuel mag : ℕ) (tail : Bytes)
    → mag < 10 ^ fuel
    → horner 10 0 (digits (suc fuel) mag tail) ≡ horner 10 mag tail
unfolding digits horner
horner-digits zero mag tail h =
    let none_left : mag / 10 == 0 ≡ true = grind arith in
    let digit = digit-step 0 mag (grind arith) in rw none_left (ap (λ v. horner 10 v tail) digit)
horner-digits (suc fuel) mag tail h =
    let smaller : mag / 10 < 10 ^ fuel = omega arith in
    let deeper = horner-digits fuel (mag / 10) ((48 + mag % 10) ∷ tail) smaller in
    elim (Bool-cases (mag / 10 == 0)) [
      | inl e ↦ rw e (ap (λ v. horner 10 v tail) (digit-step 0 mag (ground arith)))
      | inr e ↦ rw e (deeper ∙ ap (λ v. horner 10 v tail) (digit-step (mag / 10) mag (omega arith)))
    ]

digits-dec : (fuel mag : ℕ) (tail : Bytes) → All is_dec tail → All is_dec (digits fuel mag tail)
unfolding digits
digits-dec zero mag tail h = h
digits-dec (suc fuel) mag tail h =
    let here : is_dec (48 + mag % 10) ≡ true = digit-is_dec (mag % 10) (omega arith) in
    let deeper = digits-dec fuel (mag / 10) ((48 + mag % 10) ∷ tail) (here, h) in
    elim (Bool-cases (mag / 10 == 0)) [ inl e ↦ rw e (here, h) | inr e ↦ rw e deeper ]

length-digits : (fuel mag : ℕ) (tail : Bytes) → length (digits fuel mag tail) ≤ fuel + length tail
unfolding digits
length-digits zero mag tail = ground arith
length-digits (suc fuel) mag tail =
    let deeper = length-digits fuel (mag / 10) ((48 + mag % 10) ∷ tail) in ground arith

digits-nonempty :
    (fuel mag : ℕ) (tail : Bytes) → 1 ≤ length tail → 1 ≤ length (digits fuel mag tail)
unfolding digits
digits-nonempty zero mag tail h = h
digits-nonempty (suc fuel) mag tail h =
    let deeper = digits-nonempty fuel (mag / 10) ((48 + mag % 10) ∷ tail) (ground arith) in
    ground arith

digits-long : (fuel mag : ℕ) (tail : Bytes) → 1 ≤ length (digits (suc fuel) mag tail)
unfolding digits
digits-long fuel mag tail =
    let deeper = digits-nonempty fuel (mag / 10) ((48 + mag % 10) ∷ tail) (ground arith) in
    ground arith

low : (mag : ℕ) → 1 ≤ mag → mag / 10 ≡ 0 → 1 ≤ mag % 10
low mag one h = omega arith

no_zero : (d : ℕ) (tail : Bytes) → 1 ≤ d → has_leading_zero ((48 + d) ∷ tail) ≡ false
no_zero d [] h = refl
no_zero d (c ∷ tail) h = ground arith

has_leading_zero-digits :
    (fuel mag : ℕ) (tail : Bytes)
    → 1 ≤ mag
    → mag < 10 ^ fuel
    → has_leading_zero (digits (suc fuel) mag tail) ≡ false
unfolding digits
has_leading_zero-digits zero mag tail one h = grind arith
has_leading_zero-digits (suc fuel) mag tail one h = elim (Bool-cases (mag / 10 == 0)) [
  | inl e ↦ rw e (no_zero (mag % 10) tail (low mag one (ground arith)))
  | inr e ↦
      let smaller : mag / 10 < 10 ^ fuel = omega arith in
      rw e (has_leading_zero-digits fuel (mag / 10) ((48 + mag % 10) ∷ tail) (ground arith) smaller)
]

written_leading_zero : (n : ℕ) → n < 10 ^ 19 → has_leading_zero (digits 20 n []) ≡ false
written_leading_zero zero h = unfold digits in refl
written_leading_zero (suc n) h = has_leading_zero-digits 19 (suc n) [] (ground arith) h

-- Behind the sign, which the caller has seen.
unsigned_number-digits :
    (signed_input neg : Bool) (n : ℕ) (rest : Bytes)
    → n ≤ magnitude_limit neg
    → stops_integer rest ≡ true
    → unsigned_number signed_input neg (digits 20 n [] ++ rest) ≡ ok (integer (signed neg n)) rest
unsigned_number-digits signed_input neg n rest small e =
    let bound : n < 10 ^ 19 = ground arith in
    let same : horner 10 0 (digits 20 n []) ≡ n =
      horner-digits 19 n [] bound ∙ unfold horner in refl in
    let short = length-digits 20 n [] in
    let fits : horner 10 0 (digits 20 n []) ≤ magnitude_limit neg = rw same small in
    unsigned_number-horner signed_input neg (digits 20 n []) rest (digits-dec 20 n [] tt)
      (digits-long 19 n []) (omega arith) (written_leading_zero n bound) fits e
    ∙ ap (λ v. ok (integer (signed neg v)) rest) same

minus_suc : (n : ℕ) → minus (n + 1) ≡ negsuc n
minus_suc n = let next : n + 1 ≡ suc n = ground arith in ap minus next

-- The range of int64_t.
abbrev pub IsInt64 : ℤ → Type 0
IsInt64 (pos n) = n < 9223372036854775808
IsInt64 (negsuc n) = n < 9223372036854775808

-- Every int64_t that `emit_i64` writes is read back, the smallest included, when the parser is told
-- of the sign as its caller does, and what follows is left, as long as that does not go on with the
-- number: no digit, underscore, point, `e`, `E`, `x`, `o` or `b` comes first.
pub parse_number-emit_i64 :
    (v : ℤ) (rest : Bytes)
    → IsInt64 v
    → stops_integer rest ≡ true
    → parse_number (is_negative v) (emit_i64 v ++ rest) ≡ ok (integer v) rest
unfolding parse_number emit_i64
parse_number-emit_i64 (pos n) rest h e = unsigned_number-digits false false n rest (ground arith) e
parse_number-emit_i64 (negsuc n) rest h e =
    unsigned_number-digits true true (n + 1) rest (ground arith) e
    ∙ ap (λ v. ok (integer v) rest) (minus_suc n)
