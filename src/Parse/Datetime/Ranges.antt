-- ===== src/Parse/Datetime/Ranges.antt =====
-- What the datetime parser accepts is in range.
use teptris.Base.{
  ℕ, ◌-◌, ◌≤◌, ◌<◌, true, false, not, ◌&&◌, ◌||◌, ◌≡◌, refl, arith, Bytes, length, drop, ltb, leb,
  ◌==◌, Bool-cases, inl, inr, subst, sym,
}
use teptris.Common.Chartype.{is_dec, is_dec-eq}
use teptris.Parse.Datetime.{
  Kind, datetime_offset, datetime_local, date_local, time_local, Datetime, zeroed, at, is_dig, d2,
  num4, days_in_month, date_shape, datetime_lookahead, time_of_date, offset, has_time,
  clock_of_time, parse_date, parse_time, parse_datetime,
}
use teptris.Parse.Datetime.Months.{days_in_month-HasDay}
use teptris.Parse.Result.{ok, invalid_second, invalid_month, invalid_day}
use teptris.Parse.Datetime.Stages.{
  IsDate, IsClock, IsOffset, NoDate, NoClock, NoOffset, guard-ok, then_read-ok, ok-injective,
  KeepsDate, clock-IsClock, time_of_date-IsClock, Offsets, offset-Offsets,
}

-- The fields of each kind, and zeros in the others.
abbrev pub IsValid : Kind → Datetime → Type 0
IsValid datetime_offset dt = IsDate dt × IsClock dt × IsOffset dt
IsValid datetime_local dt = IsDate dt × IsClock dt × NoOffset dt
IsValid date_local dt = IsDate dt × NoClock dt × NoOffset dt
IsValid time_local dt = NoDate dt × IsClock dt × NoOffset dt

abbrev Valid : Kind × Datetime → Type 0
Valid (k, dt) = IsValid k dt

Offsets-Valid :
    (dt' : Datetime) (k : Kind) (dt : Datetime)
    → Offsets dt' (k, dt)
    → IsDate dt'
    → IsClock dt'
    → NoOffset dt'
    → IsValid k dt
Offsets-Valid dt' k dt (inl (ek, o, os, e)) date c zero_offset =
    subst (λ k. IsValid k dt) (sym ek) (subst (IsValid datetime_offset) (sym e) (date, c, os))
Offsets-Valid dt' k dt (inr (ek, e)) date c zero_offset =
    subst (λ k. IsValid k dt) (sym ek)
      (subst (IsValid datetime_local) (sym e) (date, c, zero_offset))

IsDate-keeps : (dt dt' : Datetime) → KeepsDate dt dt' → IsDate dt → IsDate dt'
IsDate-keeps dt dt' (y, m, d, _) (ly, lm, hm, ld, hd) =
    (grind arith, grind arith, grind arith, grind arith, rw (y, m, d) hd)

clock_of_time-IsClock :
    (s rest : Bytes) (dt : Datetime)
    → clock_of_time s ≡ ok dt rest
    → IsClock dt × KeepsDate zeroed dt
unfolding clock_of_time
clock_of_time-IsClock s rest dt e = elim (Bool-cases (leb 8 (length s) && at s 5 == b':')) [
  | inl h ↦
      let (_, e1) =
        guard-ok (not (is_dig s 6) || not (is_dig s 7)) s invalid_second _ dt rest (grind arith) in
      clock-IsClock s (drop 8 s) rest zeroed dt (d2 s 0) (d2 s 3) (d2 s 6) e1
  | inr h ↦ clock-IsClock s (drop 5 s) rest zeroed dt (d2 s 0) (d2 s 3) 0 (grind arith)
]

parse_time-IsValid :
    (s rest : Bytes) (k : Kind) (dt : Datetime) → parse_time s ≡ ok (k, dt) rest → IsValid k dt
unfolding parse_time
parse_time-IsValid s rest k dt e =
    let (dt', left, e1, e2) = then_read-ok (clock_of_time s) _ (k, dt) rest e in
    let (c, (y, m, d, o)) = clock_of_time-IsClock s left dt' e1 in
    subst Valid (ok-injective e2) ((y, m, d), c, o)

parse_date-IsValid :
    (s rest : Bytes) (k : Kind) (dt : Datetime)
    → num4 s 0 < 10000
    → parse_date s ≡ ok (k, dt) rest
    → IsValid k dt
unfolding parse_date
parse_date-IsValid s rest k dt y e =
    let (hm, e1) = guard-ok (ltb (d2 s 5) 1 || ltb 12 (d2 s 5)) s invalid_month _ (k, dt) rest e in
    let (hd, e2) =
      guard-ok (ltb (d2 s 8) 1 || ltb (days_in_month (num4 s 0) (d2 s 5)) (d2 s 8)) s invalid_day _
        (k, dt) rest e1 in
    let read = record zeroed { year = num4 s 0; month = d2 s 5; day = d2 s 8 } in
    let date : IsDate read = (
      y,
      ground arith,
      ground arith,
      ground arith,
      days_in_month-HasDay (num4 s 0) (d2 s 5) (d2 s 8) (ground arith) (ground arith)
          (ground arith),
    ) in
    elim (Bool-cases (has_time (drop 10 s))) [
      | inl h ↦
          let (dt', left, e3, e4) =
            then_read-ok (time_of_date s read (drop 11 s)) (offset s) (k, dt) rest (grind arith) in
          let (c, (y', m, d, o)) = time_of_date-IsClock s (drop 11 s) left read dt' e3 in
          Offsets-Valid dt' k dt (offset-Offsets s left rest dt' (k, dt) e4)
            (IsDate-keeps read dt' (y', m, d, o) date) c o
      | inr h ↦
          subst Valid
            (ok-injective {a = (date_local, read)} {b = (k, dt)} {r = drop 10 s} {r' = rest}
              (grind arith))
            (date, (refl, refl, refl, refl), refl)
    ]

digit-le : (c : ℕ) → is_dec c ≡ true → c - 48 ≤ 9
digit-le c h = ground (arith, is_dec-eq c)

-- The dash of a date is no minute.
dash-date_shape :
    (s : Bytes) → datetime_lookahead s ≡ true → at s 4 == b'-' ≡ true → date_shape s ≡ true
unfolding datetime_lookahead
dash-date_shape s look h =
    let no_digit : is_dig s 4 ≡ false = ground (arith, is_dec-eq (at s 4)) in ground arith

lookahead-year :
    (s : Bytes) → datetime_lookahead s ≡ true → at s 4 == b'-' ≡ true → num4 s 0 < 10000
unfolding num4 d2
lookahead-year s look h =
    let shape = dash-date_shape s look h in
    let d0 = digit-le (at s 0) (ground arith) in
    let d1 = digit-le (at s 1) (ground arith) in
    let d2 = digit-le (at s 2) (ground arith) in
    let d3 = digit-le (at s 3) (ground arith) in omega arith

-- A value that starts like a date or a time, as the parser of values tests first, and that the
-- datetime parser accepts, has its fields in range: a day of its month, leap years included, an hour
-- below 24, a second of at most 60, a nanosecond below 10^9 and an offset of whole minutes below a
-- day. The fields that its kind does not have are 0.
pub parse_datetime-IsValid :
    (s rest : Bytes) (k : Kind) (dt : Datetime)
    → datetime_lookahead s ≡ true
    → parse_datetime s ≡ ok (k, dt) rest
    → IsValid k dt
unfolding parse_datetime
parse_datetime-IsValid s rest k dt look e = elim (Bool-cases (at s 4 == b'-')) [
  | inl h ↦ parse_date-IsValid s rest k dt (lookahead-year s look h) (grind arith)
  | inr h ↦ parse_time-IsValid s rest k dt (grind arith)
]
