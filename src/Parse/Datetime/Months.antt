-- ===== src/Parse/Datetime/Months.antt =====
-- The days of a month, by the calendar.
use teptris.Base.{
  ◌≢◌, ℕ, zero, suc, ◌%◌, ◌≤◌, true, not, ◌&&◌, ◌||◌, ◌≡◌, refl, arith, ◌==◌, Bool-cases, inl, inr,
  ◌⊎◌,
}
use teptris.Parse.Datetime.{days_in_month}

-- The Gregorian rule.
abbrev pub IsLeap : ℕ → Type 0
IsLeap y = (y % 4 ≡ 0) × ((y % 100 ≢ 0) ⊎ (y % 400 ≡ 0))

abbrev pub IsLong : ℕ → Type 0
IsLong m = (m ≡ 1) ⊎ (m ≡ 3) ⊎ (m ≡ 5) ⊎ (m ≡ 7) ⊎ (m ≡ 8) ⊎ (m ≡ 10) ⊎ (m ≡ 12)

-- The month `m` of the year `y` has a day `d`.
pub data HasDay (y m d : ℕ) : Type 0 where
  common_day : d ≤ 28 → HasDay y m d
  leap_day : m ≡ 2 → d ≤ 29 → IsLeap y → HasDay y m d
  thirtieth : m ≢ 2 → d ≤ 30 → HasDay y m d
  last_day : IsLong m → d ≤ 31 → HasDay y m d

leap_years_lem : (y : ℕ) → ((y % 4 == 0 && not (y % 100 == 0)) || y % 400 == 0) ≡ true → IsLeap y
leap_years_lem y e = elim (Bool-cases (y % 400 == 0)) [
  | inl h ↦ (ground arith, inr (ground arith))
  | inr h ↦ (ground arith, inl (ground arith))
]

february-HasDay : (y d : ℕ) → d ≤ days_in_month y 2 → HasDay y 2 d
unfolding days_in_month
february-HasDay y d h = elim (Bool-cases ((y % 4 == 0 && not (y % 100 == 0)) || y % 400 == 0)) [
  | inl e ↦ leap_day refl (ground arith) (leap_years_lem y e)
  | inr e ↦ common_day (ground arith)
]

-- February is left to the leap year test, the other months to the table.
pub days_in_month-HasDay : (y m d : ℕ) → 1 ≤ m → m ≤ 12 → d ≤ days_in_month y m → HasDay y m d
unfolding days_in_month
days_in_month-HasDay y (suc zero) d lo hi h = last_day (inl refl) h
days_in_month-HasDay y (suc (suc zero)) d lo hi h = february-HasDay y d h
days_in_month-HasDay y (suc (suc (suc zero))) d lo hi h = last_day (inr (inl refl)) h
days_in_month-HasDay y (suc (suc (suc (suc zero)))) d lo hi h = thirtieth (ground arith) h
days_in_month-HasDay y (suc (suc (suc (suc (suc zero))))) d lo hi h =
    last_day (inr (inr (inl refl))) h
days_in_month-HasDay y (suc (suc (suc (suc (suc (suc zero)))))) d lo hi h =
    thirtieth (ground arith) h
days_in_month-HasDay y (suc (suc (suc (suc (suc (suc (suc zero))))))) d lo hi h =
    last_day (inr (inr (inr (inl refl)))) h
days_in_month-HasDay y (suc (suc (suc (suc (suc (suc (suc (suc zero)))))))) d lo hi h =
    last_day (inr (inr (inr (inr (inl refl))))) h
days_in_month-HasDay y (suc (suc (suc (suc (suc (suc (suc (suc (suc zero))))))))) d lo hi h =
    thirtieth (ground arith) h
days_in_month-HasDay y (suc (suc (suc (suc (suc (suc (suc (suc (suc (suc zero)))))))))) d lo hi h =
    last_day (inr (inr (inr (inr (inr (inl refl)))))) h
days_in_month-HasDay y (suc (suc (suc (suc (suc (suc (suc (suc (suc (suc (suc zero))))))))))) d lo
      hi h =
    thirtieth (ground arith) h
days_in_month-HasDay y (suc (suc (suc (suc (suc (suc (suc (suc (suc (suc (suc (suc zero))))))))))))
      d lo hi h =
    last_day (inr (inr (inr (inr (inr (inr refl)))))) h
days_in_month-HasDay y zero d lo hi h = ground arith
days_in_month-HasDay y
      (suc (suc (suc (suc (suc (suc (suc (suc (suc (suc (suc (suc (suc m))))))))))))) d lo hi h =
    ground arith
