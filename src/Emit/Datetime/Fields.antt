-- ===== src/Emit/Datetime/Fields.antt =====
-- The written fields, and what the parser reads of them.
use teptris.Base.{
  ℕ, ◌+◌, ◌-◌, ◌*◌, ◌/◌, ◌%◌, ◌<◌, Bool, true, false, not, [], ◌∷◌, ◌++◌, Bytes, ◌≡◌, refl, sym, ap,
  ◌∙◌, arith, All,
}
use native.Mathlib.Nat.{div-div-eq-div-mul}
use teptris.Common.Chartype.{is_dec, is_dec-eq}
use teptris.Emit.Datetime.{digit_char, nine_digits, trim_cons, trim_zeros}
use teptris.Parse.Datetime.{fraction_digits}
use teptris.Parse.Result.{ok}

pub digit_char-dec : (d : ℕ) → d < 10 → (is_dec (digit_char d) ≡ true) × (digit_char d ≡ 48 + d)
digit_char-dec d h = (ground (arith, is_dec-eq (digit_char d)), omega arith)

-- The nanoseconds that a run of digits stands for.
unfoldable pub fraction_value : ℕ → Bytes → ℕ
fraction_value scale [] = 0
fraction_value scale (c ∷ s) = (c - 48) * scale + fraction_value (scale / 10) s

abbrev pub stops_digits : Bytes → Bool
stops_digits [] = true
stops_digits (c ∷ s) = not (is_dec c)

pub fraction_digits-value :
    (scale ns : ℕ) (ds rest : Bytes)
    → All is_dec ds
    → stops_digits rest ≡ true
    → fraction_digits scale ns (ds ++ rest) ≡ ok (ns + fraction_value scale ds) rest
unfolding fraction_digits fraction_value
fraction_digits-value scale ns [] [] h e = ap (λ n. ok n []) (ground arith)
fraction_digits-value scale ns [] (c ∷ s) h e =
    let no_digit : is_dec c ≡ false = ground arith in
    rw no_digit (ap (λ n. ok n (c ∷ s)) (ground arith))
fraction_digits-value scale ns (c ∷ ds) rest (d, h) e = rw d (
    fraction_digits-value (scale / 10) (ns + (c - 48) * scale) ds rest h e
    ∙ ap (λ n. ok n rest) (grind arith))

trim_cons-value :
    (scale c : ℕ) (s : Bytes) → fraction_value scale (trim_cons c s) ≡ fraction_value scale (c ∷ s)
unfolding fraction_value
trim_cons-value scale c [] = grind arith
trim_cons-value scale c (d ∷ s) = refl

pub trim_zeros-value :
    (scale : ℕ) (s : Bytes) → fraction_value scale (trim_zeros s) ≡ fraction_value scale s
unfolding trim_zeros fraction_value
trim_zeros-value scale [] = refl
trim_zeros-value scale (c ∷ s) =
    trim_cons-value scale c (trim_zeros s)
    ∙ ap (λ v. (c - 48) * scale + v) (trim_zeros-value (scale / 10) s)

digit_lem : (x : ℕ) → digit_char (x % 10) - 48 ≡ x % 10
digit_lem x = let (_, same) = digit_char-dec (x % 10) (omega arith) in omega arith

tenth : (v scale : ℕ) → v / (scale * 10) ≡ v / scale / 10
tenth v scale = sym (div-div-eq-div-mul v scale 10)

-- Digit by digit, each quotient a tenth of the one before.
digits-sum :
    (v q1 q2 q3 q4 q5 q6 q7 q8 : ℕ)
    → q1 ≡ v / 10
    → q2 ≡ q1 / 10
    → q3 ≡ q2 / 10
    → q4 ≡ q3 / 10
    → q5 ≡ q4 / 10
    → q6 ≡ q5 / 10
    → q7 ≡ q6 / 10
    → q8 ≡ q7 / 10
    → q8 < 10
    → q8 % 10 * 100000000
        + (q7 % 10 * 10000000
            + (q6 % 10 * 1000000
                + (q5 % 10 * 100000
                    + (q4 % 10 * 10000
                        + (q3 % 10 * 1000 + (q2 % 10 * 100 + (q1 % 10 * 10 + (v % 10 * 1 + 0))))))))
      ≡ v
digits-sum v q1 q2 q3 q4 q5 q6 q7 q8 e1 e2 e3 e4 e5 e6 e7 e8 h = omega arith

pub nine_digits-value : (v : ℕ) → v < 1000000000 → fraction_value 100000000 (nine_digits v) ≡ v
unfolding nine_digits fraction_value
nine_digits-value v h =
    rw
      (
        digit_lem (v / 100000000),
        digit_lem (v / 10000000),
        digit_lem (v / 1000000),
        digit_lem (v / 100000),
        digit_lem (v / 10000),
        digit_lem (v / 1000),
        digit_lem (v / 100),
        digit_lem (v / 10),
        digit_lem v,
      )
      (digits-sum v (v / 10) (v / 100) (v / 1000) (v / 10000) (v / 100000) (v / 1000000)
        (v / 10000000) (v / 100000000) refl (tenth v 10) (tenth v 100) (tenth v 1000)
        (tenth v 10000) (tenth v 100000) (tenth v 1000000) (tenth v 10000000) (omega arith))
