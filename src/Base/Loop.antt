-- ===== src/Base/Loop.antt =====
-- The loops of the C code. A `for (;;)` body is a function from the loop's variables to a `Turn`:
-- go round again with new variables, or leave with a result.
use Prim.Native.Nat.{ℕ, zero, suc, ◌<◌}
use mathlib.Core.Path.{◌≡◌, refl, sym, ◌∙◌}
use mathlib.Core.Logic.{◌⊎◌, inl, inr}
use native.Mathlib.Omega.{arith}

pub data Turn {ℓ κ} (S : Type ℓ) (R : Type κ) : Type (ℓ ⊔ κ) where
  again : S → Turn S R
  leave : R → Turn S R

module _ {ℓ κ} {S : Type ℓ} {R : Type κ} (out_of_fuel : R) (body : S → Turn S R) where
  -- The cases of an `elim` wait, so a round is run only when it is reached.
  unfoldable pub loop : ℕ → S → R
  loop zero s = out_of_fuel
  loop (suc fuel) s = elim (body s) [ again t ↦ loop fuel t | leave r ↦ r ]

  -- The rounds go down by a measure.
  abbrev pub Falls : (S → ℕ) → Type (ℓ ⊔ κ)
  Falls measure = (s t : S) → body s ≡ again t → measure t < measure s

Turn-cases {ℓ κ} :
    {S : Type ℓ} {R : Type κ} (t : Turn S R) → ((s : S) × (t ≡ again s)) ⊎ ((r : R) × (t ≡ leave r))
Turn-cases (again s) = inl (s, refl)
Turn-cases (leave r) = inr (r, refl)

module _ {ℓ κ} {S : Type ℓ} {R : Type κ} (out_of_fuel : R) (body : S → Turn S R)
    (measure : S → ℕ) where
  -- The loop with one round more than its measure, which is always enough when the measure falls.
  unfoldable pub run : S → R
  run s = loop out_of_fuel body (suc (measure s)) s

  loop-again :
      (f : ℕ) {s t : S}
      → body s ≡ again t
      → loop out_of_fuel body (suc f) s ≡ loop out_of_fuel body f t
  unfolding loop
  loop-again f e = rw (e, loop)

  loop-leave : (f : ℕ) {s : S} {r : R} → body s ≡ leave r → loop out_of_fuel body (suc f) s ≡ r
  unfolding loop
  loop-leave f e = rw (e, loop)

  module _ (falls : Falls out_of_fuel body measure) where
    loop_enough :
        (f g : ℕ) (s : S)
        → measure s < f
        → measure s < g
        → loop out_of_fuel body f s ≡ loop out_of_fuel body g s
    loop_enough zero g s h k = absurd (omega arith)
    loop_enough (suc f) zero s h k = absurd (omega arith)
    loop_enough (suc f) (suc g) s h k = elim (Turn-cases (body s)) [
      | inl (t, e) ↦
          loop-again f e
          ∙ loop_enough f g t (omega (arith, falls s t e)) (omega (arith, falls s t e))
          ∙ sym (loop-again g e)
      | inr (r, e) ↦ loop-leave f e ∙ sym (loop-leave g e)
    ]

    pub run-again : {s t : S} → body s ≡ again t → run s ≡ run t
    unfolding run
    run-again {s} {t} e =
        loop-again (measure s) e
        ∙ loop_enough (measure s) (suc (measure t)) t (falls s t e) (omega arith)

  pub run-leave : {s : S} {r : R} → body s ≡ leave r → run s ≡ r
  unfolding run
  run-leave {s} e = loop-leave (measure s) e

  -- What holds where the loop leaves, and is kept back along a round, holds of every run: the
  -- fuel never runs out.
  module _ {μ} (P : S → R → Type μ) (falls : Falls out_of_fuel body measure)
      (last : (s : S) (r : R) → body s ≡ leave r → P s r)
      (round : (s t : S) (r : R) → body s ≡ again t → P t r → P s r) where
    run_from : (n : ℕ) (s : S) → measure s < n → P s (run s)
    run_from zero s h = absurd (omega arith)
    run_from (suc n) s h = elim (Turn-cases (body s)) [
      | inl (t, e) ↦
          rw (run-again falls e) (round s t (run t) e (run_from n t (omega (arith, falls s t e))))
      | inr (r, e) ↦ rw (run-leave e) (last s r e)
    ]

    pub run_inv : (s : S) → P s (run s)
    run_inv s = run_from (suc (measure s)) s (omega arith)
