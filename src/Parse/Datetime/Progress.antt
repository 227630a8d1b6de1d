-- ===== src/Parse/Datetime/Progress.antt =====
-- The datetime parser ends, with the cursor inside the buffer.
use teptris.Base.{
  ℕ, ◌+◌, ◌*◌, ◌/◌, ◌-◌, not, ◌&&◌, ◌||◌, [], ◌∷◌, Bytes, length, drop, ltb, leb, ◌==◌,
}
use teptris.Common.Chartype.{is_dec}
use teptris.Parse.Datetime.{
  Datetime, time_local, ◌then_read◌, at, is_dig, d2, num4, days_in_month, zeroed, fraction_digits,
  fraction, clock, time_of_date, is_utc, has_offset, numeric_offset, offset, has_time, parse_date,
  clock_of_time, parse_time, parse_datetime,
}
use teptris.Parse.Result.{
  Result, ok, IsRest, IsRest-refl, IsRest-cons, IsRest-trans, IsRest-drop, Read, reads, gives_up,
  overruns, Any, Read-if, Read-trans,
}

then_Read :
    {A B : Type 0} {s : Bytes} {r : Result A} (k : A → Bytes → Result B)
    → Read s Any r
    → ((a : A) (rest : Bytes) → IsRest rest s → Read s Any (k a rest))
    → Read s Any (r then_read k)
then_Read k (reads {a} {rest} e q) later = later a rest e
then_Read k (gives_up e) later = gives_up e
then_Read k (overruns long) later = overruns long

fraction_digits-Read : (scale ns : ℕ) (s : Bytes) → Read s Any (fraction_digits scale ns s)
unfolding fraction_digits
fraction_digits-Read scale ns [] = reads (IsRest-refl []) tt
fraction_digits-Read scale ns (c ∷ s) =
    Read-if (is_dec c)
      (Read-trans (IsRest-cons c (IsRest-refl s))
        (fraction_digits-Read (scale / 10) (ns + (c - b'0') * scale) s))
      (reads (IsRest-refl (c ∷ s)) tt)

module _ (start s : Bytes) (within : IsRest s start) where
  fraction-Read : Read start Any (fraction start s)
  unfolding fraction
  fraction-Read = Read-if (not (leb 1 (length s) && at s 0 == b'.')) (reads within tt) (
      Read-if (not (is_dig s 1)) (gives_up (IsRest-refl start)) (
        Read-trans (IsRest-trans (IsRest-drop 1 s) within)
          (fraction_digits-Read 100000000 0 (drop 1 s))))

  clock-Read : (dt : Datetime) (h mi sec : ℕ) → Read start Any (clock start dt h mi sec s)
  unfolding clock
  clock-Read dt h mi sec = Read-if (ltb 23 h) (gives_up (IsRest-refl start)) (
      Read-if (ltb 59 mi) (gives_up (IsRest-refl start)) (
        Read-if (ltb 60 sec) (gives_up (IsRest-refl start)) (
          then_Read
            (λ ns rest.
              ok (record dt { hour = h; minute = mi; second = sec; nanosecond = ns }) rest)
            fraction-Read (λ ns rest inside. reads inside tt))))

  offset-Read : (dt : Datetime) → Read start Any (offset start dt s)
  unfolding offset numeric_offset
  offset-Read dt = Read-if (is_utc s) (reads (IsRest-trans (IsRest-drop 1 s) within) tt) (
      Read-if (has_offset s)
        (Read-if (ltb 23 (d2 s 1) || ltb 59 (d2 s 4)) (gives_up (IsRest-refl start))
          (reads (IsRest-trans (IsRest-drop 6 s) within) tt))
        (reads within tt))

behind : (n : ℕ) (start s : Bytes) → IsRest s start → IsRest (drop n s) start
behind n start s within = IsRest-trans (IsRest-drop n s) within

time_of_date-Read :
    (start s : Bytes) (dt : Datetime) → IsRest s start → Read start Any (time_of_date start dt s)
unfolding time_of_date
time_of_date-Read start s dt within =
    Read-if (leb 6 (length s) && at s 5 == b':')
      (Read-if (ltb (length s) 8 || not (is_dig s 6) || not (is_dig s 7))
        (gives_up (IsRest-refl start))
        (clock-Read start (drop 8 s) (behind 8 start s within) dt (d2 s 0) (d2 s 3) (d2 s 6)))
      (clock-Read start (drop 5 s) (behind 5 start s within) dt (d2 s 0) (d2 s 3) 0)

parse_date-Read : (s : Bytes) → Read s Any (parse_date s)
unfolding parse_date
parse_date-Read s =
    let dt = record zeroed { year = num4 s 0; month = d2 s 5; day = d2 s 8 } in
    Read-if (ltb (d2 s 5) 1 || ltb 12 (d2 s 5)) (gives_up (IsRest-refl s)) (
      Read-if (ltb (d2 s 8) 1 || ltb (days_in_month (num4 s 0) (d2 s 5)) (d2 s 8))
        (gives_up (IsRest-refl s))
        (Read-if (not (has_time (drop 10 s))) (reads (IsRest-drop 10 s) tt) (
          then_Read (offset s) (time_of_date-Read s (drop 11 s) dt (IsRest-drop 11 s))
            (λ d rest inside. offset-Read s rest inside d))))

clock_of_time-Read : (s : Bytes) → Read s Any (clock_of_time s)
unfolding clock_of_time
clock_of_time-Read s =
    Read-if (leb 8 (length s) && at s 5 == b':')
      (Read-if (not (is_dig s 6) || not (is_dig s 7)) (gives_up (IsRest-refl s))
        (clock-Read s (drop 8 s) (IsRest-drop 8 s) zeroed (d2 s 0) (d2 s 3) (d2 s 6)))
      (clock-Read s (drop 5 s) (IsRest-drop 5 s) zeroed (d2 s 0) (d2 s 3) 0)

-- Whether a date or a time comes.
pub parse_datetime-Read : (s : Bytes) → Read s Any (parse_datetime s)
unfolding parse_datetime parse_time
parse_datetime-Read s = Read-if (at s 4 == b'-') (parse_date-Read s) (
    then_Read (λ dt rest. ok (time_local, dt) rest) (clock_of_time-Read s)
      (λ dt rest inside. reads inside tt))
