-- ===== src/Emit/Datetime/Dates.antt =====
-- The parser reads back the local dates that the emitter writes.
use teptris.Base.{ℕ, ◌/◌, ◌%◌, ◌≤◌, ◌<◌, false, ◌∷◌, ◌++◌, Bytes, ltb, ◌||◌, ◌≡◌, refl, arith}
use teptris.Emit.Datetime.RoundTrip.{two_digits}
use teptris.Emit.Datetime.{
  digit_char, put_digits2, put_digits4, clock_part, date_part, with_fraction, offset_part, emit_dt,
}
use teptris.Parse.Datetime.{
  Datetime, date_local, zeroed, d2, num4, days_in_month, has_time, parse_date, parse_datetime,
}
use teptris.Parse.Datetime.Months.{
  HasDay, common_day, leap_day, thirtieth, last_day, days_in_month-HasDay,
}
use teptris.Parse.Result.{ok}

abbrev pub date_of : ℕ → ℕ → ℕ → Datetime
date_of y m d = record zeroed { year = y; month = m; day = d }

abbrev date_text : ℕ → ℕ → ℕ → Bytes → Bytes
date_text y m d tail =
    digit_char (y / 100 / 10)
    ∷ digit_char (y / 100 % 10)
    ∷ digit_char (y % 100 / 10)
    ∷ digit_char (y % 100 % 10)
    ∷ b'-'
    ∷ digit_char (m / 10)
    ∷ digit_char (m % 10)
    ∷ b'-'
    ∷ digit_char (d / 10)
    ∷ digit_char (d % 10)
    ∷ tail

date-text :
    (y m d : ℕ) (rest : Bytes) → emit_dt (date_of y m d) date_local ++ rest ≡ date_text y m d rest
unfolding emit_dt date_part clock_part offset_part with_fraction put_digits4 put_digits2
date-text y m d rest = refl

num4-text : (y m d : ℕ) (rest : Bytes) → y < 10000 → num4 (date_text y m d rest) 0 ≡ y
unfolding num4 d2
num4-text y m d rest h =
    let high = two_digits (y / 100) (omega arith) in
    let low = two_digits (y % 100) (omega arith) in omega arith

month-text : (y m d : ℕ) (rest : Bytes) → m < 100 → d2 (date_text y m d rest) 5 ≡ m
unfolding d2
month-text y m d rest h = two_digits m h

day-text : (y m d : ℕ) (rest : Bytes) → d < 100 → d2 (date_text y m d rest) 8 ≡ d
unfolding d2
day-text y m d rest h = two_digits d h

HasDay-le : (y m d : ℕ) → HasDay y m d → d ≤ 31
HasDay-le y m d (common_day h) = omega arith
HasDay-le y m d (leap_day e h l) = omega arith
HasDay-le y m d (thirtieth e h) = omega arith
HasDay-le y m d (last_day l h) = h

-- The parser reads back every local date that the emitter writes, for the years up to 9999, and
-- leaves what follows, as long as that is not the beginning of a time.
pub parse_date-emit_dt :
    (y m d : ℕ) (rest : Bytes)
    → y < 10000
    → 1 ≤ m
    → m ≤ 12
    → 1 ≤ d
    → d ≤ days_in_month y m
    → has_time rest ≡ false
    → parse_datetime (emit_dt (date_of y m d) date_local ++ rest)
      ≡ ok (date_local, date_of y m d) rest
unfolding parse_datetime parse_date
parse_date-emit_dt y m d rest hy lm hm ld hd e =
    let short = HasDay-le y m d (days_in_month-HasDay y m d lm hm hd) in
    let month_fits : (ltb m 1 || ltb 12 m) ≡ false = ground arith in
    let day_fits : (ltb d 1 || ltb (days_in_month y m) d) ≡ false = ground arith in
    rw
      (
        date-text y m d rest,
        num4-text y m d rest hy,
        month-text y m d rest (omega arith),
        day-text y m d rest (omega arith),
        month_fits,
        day_fits,
        e,
      )
      refl
