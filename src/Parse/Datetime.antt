-- ===== src/Parse/Datetime.antt =====
-- src/teptris/parse/datetime.c. A byte read past the end is 0 in the model, which no test accepts;
-- the code reads only where the lookahead or a length test allows it. A failure leaves the cursor at
-- the start of the value.
pub mod Months
pub mod Stages
pub mod Ranges
pub mod Progress
use teptris.Base.{
  ℕ, zero, suc, ◌+◌, ◌-◌, ◌*◌, ◌/◌, ◌%◌, Bool, true, false, not, ◌&&◌, ◌||◌, List, [], ◌∷◌, Bytes,
  length, drop, get_or, ltb, leb, ◌==◌, if◌then◌else◌, ℤ, pos, minus,
}
use teptris.Common.Chartype.{is_dec}
use teptris.Parse.Result.{
  Reason, Result, ok, fail, stuck, overrun, Parser, err_syntax, invalid_month, invalid_day,
  invalid_hour, invalid_minute, invalid_second, invalid_offset, expected_fraction,
}

-- The datetime kinds of `teptris_kind`.
pub data Kind : Type 0 where
  datetime_offset datetime_local date_local time_local : Kind

-- `teptris_datetime`; `year` is read as unsigned, as the parser never makes it negative.
pub record Datetime : Type 0 where
  pub year : ℕ
  pub month : ℕ
  pub day : ℕ
  pub hour : ℕ
  pub minute : ℕ
  pub second : ℕ
  pub nanosecond : ℕ
  pub offset_seconds : ℤ

-- What `memset` leaves.
abbrev pub zeroed : Datetime
zeroed = record {
  year = 0;
  month = 0;
  day = 0;
  hour = 0;
  minute = 0;
  second = 0;
  nanosecond = 0;
  offset_seconds = pos 0;
}

-- `p[i]`
abbrev pub at : Bytes → ℕ → ℕ
at s i = get_or s i 0

abbrev pub is_dig : Bytes → ℕ → Bool
is_dig s i = is_dec (at s i)

unfoldable pub d2 : Bytes → ℕ → ℕ
d2 s i = (at s i - b'0') * 10 + (at s (i + 1) - b'0')

unfoldable pub num4 : Bytes → ℕ → ℕ
unfolding d2
num4 s i = d2 s i * 100 + d2 s (i + 2)

unfoldable pub days_in_month : ℕ → ℕ → ℕ
days_in_month y m =
    if m == 2
    then (if (y % 4 == 0 && not (y % 100 == 0)) || y % 400 == 0 then 29 else 28)
    else get_or (31 ∷ 28 ∷ 31 ∷ 30 ∷ 31 ∷ 30 ∷ 31 ∷ 31 ∷ 30 ∷ 31 ∷ 30 ∷ 31 ∷ []) (m - 1) 0

abbrev pub date_shape : Bytes → Bool
date_shape s =
    leb 10 (length s)
    && at s 4 == b'-'
    && at s 7 == b'-'
    && is_dig s 0
    && is_dig s 1
    && is_dig s 2
    && is_dig s 3
    && is_dig s 5
    && is_dig s 6
    && is_dig s 8
    && is_dig s 9

abbrev pub time_shape : Bytes → Bool
time_shape s =
    leb 5 (length s) && at s 2 == b':' && is_dig s 0 && is_dig s 1 && is_dig s 3 && is_dig s 4

unfoldable pub datetime_lookahead : Bytes → Bool
datetime_lookahead s = date_shape s || time_shape s

-- A routine inside the value, which began at `start`.
abbrev pub syntax_at {ℓ} : {A : Type ℓ} → Bytes → Reason → Result A
syntax_at start why = fail err_syntax why start

infixl 5 ◌then_read◌
abbrev pub ◌then_read◌ {ℓ κ} :
    {A : Type ℓ} {B : Type κ} → Result A → (A → Bytes → Result B) → Result B
ok a rest then_read k = k a rest
fail st why rest then_read k = fail st why rest
stuck then_read k = stuck
overrun then_read k = overrun

-- The digits of a fraction: `ns` and what is left. Digits beyond the ninth count nothing.
unfoldable pub fraction_digits : ℕ → ℕ → Parser ℕ
fraction_digits scale ns [] = ok ns []
fraction_digits scale ns (c ∷ s) =
    if is_dec c then fraction_digits (scale / 10) (ns + (c - b'0') * scale) s else ok ns (c ∷ s)

unfoldable pub fraction : Bytes → Parser ℕ
fraction start s =
    if not (leb 1 (length s) && at s 0 == b'.')
    then ok 0 s
    else if not (is_dig s 1)
    then syntax_at start expected_fraction
    else fraction_digits 100000000 0 (drop 1 s)

-- The range checks of a time of day, and the fraction behind it.
unfoldable pub clock : Bytes → Datetime → ℕ → ℕ → ℕ → Parser Datetime
unfolding fraction
clock start dt h mi sec s =
    if ltb 23 h
    then syntax_at start invalid_hour
    else if ltb 59 mi
    then syntax_at start invalid_minute
    else if ltb 60 sec
    then syntax_at start invalid_second
    else fraction start s then_read λ ns rest.
        ok (record dt { hour = h; minute = mi; second = sec; nanosecond = ns }) rest

-- Behind the date and its separator.
unfoldable pub time_of_date : Bytes → Datetime → Parser Datetime
unfolding clock
time_of_date start dt s =
    if leb 6 (length s) && at s 5 == b':'
    then (if ltb (length s) 8 || not (is_dig s 6) || not (is_dig s 7)
        then syntax_at start invalid_second
        else clock start dt (d2 s 0) (d2 s 3) (d2 s 6) (drop 8 s))
    else clock start dt (d2 s 0) (d2 s 3) 0 (drop 5 s)

abbrev pub is_utc : Bytes → Bool
is_utc s = leb 1 (length s) && (at s 0 == b'Z' || at s 0 == b'z')

abbrev pub has_offset : Bytes → Bool
has_offset s =
    (at s 0 == b'+' || at s 0 == b'-')
    && leb 6 (length s)
    && is_dig s 1
    && is_dig s 2
    && at s 3 == b':'
    && is_dig s 4
    && is_dig s 5

unfoldable pub numeric_offset : Bytes → Datetime → Parser (Kind × Datetime)
numeric_offset start dt s =
    let oh = d2 s 1 in
    let om = d2 s 4 in
    let seconds = oh * 3600 + om * 60 in
    if ltb 23 oh || ltb 59 om
    then syntax_at start invalid_offset
    else ok
        (
          datetime_offset,
          record dt { offset_seconds = if at s 0 == b'-' then minus seconds else pos seconds },
        )
        (drop 6 s)

-- Behind the time: the offset, if there is one.
unfoldable pub offset : Bytes → Datetime → Parser (Kind × Datetime)
unfolding numeric_offset
offset start dt s =
    if is_utc s
    then ok (datetime_offset, record dt { offset_seconds = pos 0 }) (drop 1 s)
    else if has_offset s
    then numeric_offset start dt s
    else ok (datetime_local, dt) s

abbrev pub has_time : Bytes → Bool
has_time s =
    (at s 0 == b'T' || at s 0 == b't' || at s 0 == b' ')
    && leb 6 (length s)
    && is_dig s 1
    && is_dig s 2
    && at s 3 == b':'
    && is_dig s 4
    && is_dig s 5

unfoldable pub parse_date : Parser (Kind × Datetime)
unfolding time_of_date offset
parse_date s =
    let y = num4 s 0 in
    let mo = d2 s 5 in
    let da = d2 s 8 in
    let dt = record zeroed { year = y; month = mo; day = da } in
    if ltb mo 1 || ltb 12 mo
    then syntax_at s invalid_month
    else if ltb da 1 || ltb (days_in_month y mo) da
    then syntax_at s invalid_day
    else if not (has_time (drop 10 s))
    then ok (date_local, dt) (drop 10 s)
    else time_of_date s dt (drop 11 s) then_read offset s

unfoldable pub clock_of_time : Parser Datetime
unfolding clock
clock_of_time s =
    if leb 8 (length s) && at s 5 == b':'
    then (if not (is_dig s 6) || not (is_dig s 7)
        then syntax_at s invalid_second
        else clock s zeroed (d2 s 0) (d2 s 3) (d2 s 6) (drop 8 s))
    else clock s zeroed (d2 s 0) (d2 s 3) 0 (drop 5 s)

unfoldable pub parse_time : Parser (Kind × Datetime)
unfolding clock_of_time
parse_time s = clock_of_time s then_read λ dt rest. ok (time_local, dt) rest

unfoldable pub parse_datetime : Parser (Kind × Datetime)
unfolding parse_date parse_time
parse_datetime s = if at s 4 == b'-' then parse_date s else parse_time s
