-- ===== src/Examples/Datetimes.antt =====
-- Runs of the datetime parser.
use teptris.Base.{arith, ◌++◌, ◌≡◌, refl, Bytes, codes, minus}
use teptris.Common.Chartype.{is_dec}
use teptris.Emit.Datetime.Dates.{date_of, parse_date-emit_dt}
use teptris.Emit.Datetime.RoundTrip.{time_of, parse_datetime-emit_dt}
use teptris.Emit.Datetime.{
  emit_dt, date_part, clock_part, with_fraction, offset_part, nine_digits, trim_zeros, put_digits2,
  put_digits4,
}
use teptris.Parse.Datetime.Ranges.{IsValid, parse_datetime-IsValid}
use teptris.Parse.Datetime.{
  Datetime, datetime_offset, time_local, date_local, datetime_lookahead, parse_datetime, d2, num4,
  days_in_month, fraction_digits,
}
use teptris.Parse.Result.{ok, fail, err_syntax, invalid_day}

abbrev leap_second : Bytes
leap_second = codes "2016-02-29T23:59:60.5-01:30 # x"

abbrev leap_fields : Datetime
leap_fields = record {
  year = 2016;
  month = 2;
  day = 29;
  hour = 23;
  minute = 59;
  second = 60;
  nanosecond = 500000000;
  offset_seconds = minus 5400;
}

leap_run : parse_datetime leap_second ≡ ok (datetime_offset, leap_fields) (codes " # x")
unfolding parse_datetime d2 days_in_month num4 is_dec fraction_digits
leap_run = refl

no_leap_day_run :
    parse_datetime (codes "1900-02-29") ≡ fail err_syntax invalid_day (codes "1900-02-29")
unfolding parse_datetime d2 days_in_month num4
no_leap_day_run = refl

parse_datetime-IsValid_example : IsValid datetime_offset leap_fields
unfolding is_dec
parse_datetime-IsValid_example =
    parse_datetime-IsValid leap_second (codes " # x") datetime_offset leap_fields
      (unfold datetime_lookahead in refl) leap_run

emit_run : emit_dt leap_fields datetime_offset ≡ codes "2016-02-29T23:59:60.5-01:30"
unfolding emit_dt date_part clock_part with_fraction offset_part nine_digits trim_zeros put_digits2
    put_digits4
emit_run = refl

parse_datetime-emit_dt_example :
    parse_datetime (emit_dt (time_of 7 5 60 120000) time_local ++ codes ", ")
    ≡ ok (time_local, time_of 7 5 60 120000) (codes ", ")
unfolding is_dec
parse_datetime-emit_dt_example =
    parse_datetime-emit_dt 7 5 60 120000 (codes ", ") (ground arith) (ground arith) (ground arith)
      (ground arith) refl

parse_date-emit_dt_example :
    parse_datetime (emit_dt (date_of 2000 2 29) date_local ++ codes " # Tuesday")
    ≡ ok (date_local, date_of 2000 2 29) (codes " # Tuesday")
unfolding days_in_month is_dec
parse_date-emit_dt_example =
    parse_date-emit_dt 2000 2 29 (codes " # Tuesday") (ground arith) (ground arith) (ground arith)
      (ground arith) (ground arith) refl
