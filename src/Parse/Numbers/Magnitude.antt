-- ===== src/Parse/Numbers/Magnitude.antt =====
-- Digits and the number that they stand for.
use teptris.Base.{
  ℕ, ◌+◌, ◌-◌, ◌*◌, ◌/◌, ◌%◌, ◌≤◌, ◌<◌, Bool, true, false, [], ◌∷◌, none, some, Bytes, ltb, leb,
  ◌==◌, ◌||◌, ◌&&◌, not, passes, passes-at, if◌then◌else◌, ◌≡◌, refl, All, arith, Bool-cases, inl,
  inr,
}
use native.Mathlib.Nat.{le-div_iff_mul-le, div-lt_iff_lt-mul}
use teptris.Common.Chartype.{is_dec, is_dec-eq, in_hex}
use teptris.Parse.Numbers.{mag_from, magnitude_max, wrapping}
use teptris.Parse.Strings.{hexval}

-- What a digit of any radix up to 16 stands for.
unfoldable pub digit_value : ℕ → ℕ
digit_value c = if leb b'a' c then c - b'a' + 10 else if leb b'A' c then c - b'A' + 10 else c - b'0'

-- A byte from `0` to `9`, `a` to `f` or `A` to `F` that stands for less than the radix.
abbrev pub digit_below : ℕ → ℕ → Bool
digit_below radix c = in_hex c && ltb (digit_value c) radix

-- The number that the digits stand for, behind the digits of `v`; unbounded.
unfoldable pub horner : ℕ → ℕ → Bytes → ℕ
horner radix v [] = v
horner radix v (c ∷ s) = horner radix (v * radix + digit_value c) s

hexval_table : passes (λ c. not (in_hex c) || hexval c == digit_value c) 103 ≡ true
unfolding passes hexval digit_value
hexval_table = refl

hexval-digit_value : (c : ℕ) → in_hex c ≡ true → hexval c ≡ digit_value c
hexval-digit_value c h =
    let same =
      passes-at (λ c. not (in_hex c) || hexval c == digit_value c) 103 c hexval_table
        (ground arith) in
    ground arith

pub horner-le : (radix v : ℕ) (s : Bytes) → 1 ≤ radix → v ≤ horner radix v s
unfolding horner
horner-le radix v [] h = ground arith
horner-le radix v (c ∷ s) h =
    let next = horner-le radix (v * radix + digit_value c) s h in
    let up : v ≤ v * radix = grind arith in omega arith

step-le :
    (radix v d : ℕ)
    → 1 ≤ radix
    → d ≤ magnitude_max
    → ltb ((magnitude_max - d) / radix) v ≡ false
    → v * radix + d ≤ magnitude_max
step-le radix v d h small e =
    let fits : v * radix ≤ magnitude_max - d =
      (le-div_iff_mul-le {k = radix} {x = v} {y = magnitude_max - d} h).0 (ground arith) in
    omega arith

step-gt :
    (radix v d : ℕ)
    → 1 ≤ radix
    → ltb ((magnitude_max - d) / radix) v ≡ true
    → magnitude_max < v * radix + d
step-gt radix v d h e =
    let past : magnitude_max - d < v * radix =
      (div-lt_iff_lt-mul {k = radix} {x = magnitude_max - d} {y = v} h).0 (ground arith) in
    omega arith

-- On digits of a radix from 1 to 16, behind a start of at most 64 bits, `mag_from` is the number that
-- they stand for, and refuses exactly the numbers of more than 64 bits.
pub mag_from-horner :
    (radix v : ℕ) (s : Bytes)
    → 1 ≤ radix
    → radix ≤ 16
    → v ≤ magnitude_max
    → All (digit_below radix) s
    → mag_from radix v s
      ≡ (if ltb magnitude_max (horner radix v s) then none else some (horner radix v s))
unfolding mag_from horner
mag_from-horner radix v [] lo hi small h = ground arith
mag_from-horner radix v (c ∷ s) lo hi small (d, h) =
    let digit : hexval c ≡ digit_value c = hexval-digit_value c (ground arith) in
    let below : digit_value c < radix = ground arith in
    rw digit (elim (Bool-cases (ltb ((magnitude_max - digit_value c) / radix) v)) [
      | inl e ↦
          let past = step-gt radix v (digit_value c) lo e in
          let up = horner-le radix (v * radix + digit_value c) s lo in
          let over : ltb magnitude_max (horner radix (v * radix + digit_value c) s) ≡ true =
            ground arith in
          rw (e, over) refl
      | inr e ↦ rw e (
          mag_from-horner radix (v * radix + digit_value c) s lo hi
            (step-le radix v (digit_value c) lo (omega (arith, below)) e) h)
    ])

-- A decimal digit.
pub digit_value-dec :
    (c : ℕ) → is_dec c ≡ true → (digit_value c ≡ c - 48) × (c - 48 < 10) × (in_hex c ≡ true)
unfolding digit_value
digit_value-dec c h =
    (ground (arith, is_dec-eq c), ground (arith, is_dec-eq c), ground (arith, is_dec-eq c))

-- The loop without a test does not wrap where the number fits.
pub wrapping-horner :
    (v : ℕ) (s : Bytes)
    → All is_dec s
    → horner 10 v s ≤ magnitude_max
    → wrapping v s ≡ horner 10 v s
unfolding wrapping horner
wrapping-horner v [] h small = refl
wrapping-horner v (c ∷ s) (d, h) small =
    let (digit, _, _) = digit_value-dec c d in
    let up = horner-le 10 (v * 10 + digit_value c) s (ground arith) in
    let same : (v * 10 + (c - 48)) % (magnitude_max + 1) ≡ v * 10 + digit_value c =
      rw digit (omega arith) in
    rw same (wrapping-horner (v * 10 + digit_value c) s h small)
