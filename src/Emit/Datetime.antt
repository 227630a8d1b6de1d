-- ===== src/Emit/Datetime.antt =====
-- src/teptris/emit/emit_shared.h: emit_dt, as the bytes that it appends. The fields are in the ranges
-- of their C types; a `char` is taken modulo 256.
pub mod Fields
pub mod RoundTrip
pub mod Dates
use teptris.Base.{
  ℕ, ◌+◌, ◌-◌, ◌*◌, ◌/◌, ◌%◌, Bool, true, false, not, ◌&&◌, [], ◌∷◌, ◌++◌, Bytes, ◌==◌,
  if◌then◌else◌, ℤ, abs, is_negative,
}
use teptris.Parse.Datetime.{Kind, datetime_offset, datetime_local, date_local, time_local, Datetime}

-- `(char)('0' + d)`
abbrev pub digit_char : ℕ → ℕ
digit_char d = (b'0' + d) % 256

unfoldable pub put_digits2 : ℕ → Bytes
put_digits2 v = digit_char (v / 10) ∷ digit_char (v % 10) ∷ []

unfoldable pub put_digits4 : ℕ → Bytes
unfolding put_digits2
put_digits4 v = put_digits2 (v / 100) ++ put_digits2 (v % 100)

-- The loop that fills nine bytes from the back.
unfoldable pub nine_digits : ℕ → Bytes
nine_digits v =
    digit_char (v / 100000000 % 10)
    ∷ digit_char (v / 10000000 % 10)
    ∷ digit_char (v / 1000000 % 10)
    ∷ digit_char (v / 100000 % 10)
    ∷ digit_char (v / 10000 % 10)
    ∷ digit_char (v / 1000 % 10)
    ∷ digit_char (v / 100 % 10)
    ∷ digit_char (v / 10 % 10)
    ∷ digit_char (v % 10)
    ∷ []

-- `while (n > 0 && tmp[n - 1] == '0') n--;`
abbrev pub trim_cons : ℕ → Bytes → Bytes
trim_cons c [] = if c == b'0' then [] else c ∷ []
trim_cons c (d ∷ t) = c ∷ d ∷ t

unfoldable pub trim_zeros : Bytes → Bytes
trim_zeros [] = []
trim_zeros (c ∷ s) = trim_cons c (trim_zeros s)

abbrev pub is_date : Kind → Bool
is_date date_local = true
is_date _ = false

abbrev pub is_time : Kind → Bool
is_time time_local = true
is_time _ = false

abbrev pub is_offset : Kind → Bool
is_offset datetime_offset = true
is_offset _ = false

unfoldable pub date_part : Kind → Datetime → Bytes
unfolding put_digits4 put_digits2
date_part k dt =
    if is_time k
    then []
    else put_digits4 dt.year
      ++ b'-' ∷ put_digits2 dt.month
      ++ b'-' ∷ put_digits2 dt.day
      ++ (if is_date k then [] else b'T' ∷ [])

unfoldable pub clock_part : Kind → Datetime → Bytes
unfolding put_digits2
clock_part k dt =
    if is_date k
    then []
    else put_digits2 dt.hour ++ b':' ∷ put_digits2 dt.minute ++ b':' ∷ put_digits2 dt.second

-- The zeros are trimmed off all that stands in the buffer.
unfoldable pub with_fraction : Kind → Datetime → Bytes → Bytes
with_fraction k dt tmp =
    if not (dt.nanosecond == 0) && not (is_date k)
    then trim_zeros (tmp ++ b'.' ∷ nine_digits dt.nanosecond)
    else tmp

unfoldable pub offset_part : Kind → Datetime → Bytes
unfolding put_digits2
offset_part k dt =
    let a = abs dt.offset_seconds in
    if not (is_offset k)
    then []
    else if a == 0
    then b'Z' ∷ []
    else (if is_negative dt.offset_seconds then b'-' else b'+')
      ∷ (put_digits2 (a / 3600) ++ b':' ∷ put_digits2 (a % 3600 / 60))

unfoldable pub emit_dt : Datetime → Kind → Bytes
unfolding date_part clock_part with_fraction offset_part
emit_dt dt k = with_fraction k dt (date_part k dt ++ clock_part k dt) ++ offset_part k dt
