-- ===== src/Emit/Datetime/RoundTrip.antt =====
-- The parser reads back the local times that the emitter writes.
use teptris.Base.{
  ℕ, ◌+◌, ◌-◌, ◌*◌, ◌/◌, ◌%◌, ◌≤◌, ◌<◌, Bool, true, false, not, ◌||◌, [], ◌∷◌, ◌++◌, append-nil,
  Bytes, length, ltb, leb, ◌==◌, if◌then◌else◌, ◌≡◌, ◌≢◌, refl, ap, ◌∙◌, arith, Bool-cases, inl,
  inr, All,
}
use teptris.Common.Chartype.{is_dec}
use teptris.Emit.Datetime.Fields.{
  digit_char-dec, fraction_value, stops_digits, fraction_digits-value, trim_zeros-value,
  nine_digits-value,
}
use teptris.Emit.Datetime.{
  digit_char, put_digits2, nine_digits, trim_cons, trim_zeros, clock_part, date_part, with_fraction,
  offset_part, emit_dt,
}
use teptris.Parse.Datetime.{
  Datetime, time_local, zeroed, d2, fraction_digits, fraction, clock, clock_of_time, parse_time,
  parse_datetime, ◌then_read◌,
}
use teptris.Parse.Result.{ok}

trim_cons-dec : (c : ℕ) (s : Bytes) → is_dec c ≡ true → All is_dec s → All is_dec (trim_cons c s)
trim_cons-dec c [] d h = elim (Bool-cases (c == b'0')) [ inl e ↦ rw e tt | inr e ↦ rw e (d, tt) ]
trim_cons-dec c (x ∷ s) d h = (d, h)

trim_zeros-dec : (s : Bytes) → All is_dec s → All is_dec (trim_zeros s)
unfolding trim_zeros
trim_zeros-dec [] h = tt
trim_zeros-dec (c ∷ s) (d, h) = trim_cons-dec c (trim_zeros s) d (trim_zeros-dec s h)

-- Behind something that is no zero, all is kept.
trim_zeros-append :
    (a b : Bytes) (c : ℕ) (t : Bytes) → trim_zeros b ≡ c ∷ t → trim_zeros (a ++ b) ≡ a ++ c ∷ t
unfolding trim_zeros
trim_zeros-append [] b c t e = e
trim_zeros-append (x ∷ []) b c t e = rw e refl
trim_zeros-append (x ∷ y ∷ a) b c t e = rw (trim_zeros-append (y ∷ a) b c t e) refl

here : (x : ℕ) → is_dec (digit_char (x % 10)) ≡ true
here x = (digit_char-dec (x % 10) (omega arith)).0

nine_digits-dec : (v : ℕ) → All is_dec (nine_digits v)
unfolding nine_digits
nine_digits-dec v = (
  here (v / 100000000),
  (
    here (v / 10000000),
    (
      here (v / 1000000),
      (
        here (v / 100000),
        (here (v / 10000), (here (v / 1000), (here (v / 100), (here (v / 10), (here v, tt))))),
      ),
    ),
  ),
)

-- What stands for the nanoseconds.
fraction_text : ℕ → Bytes
fraction_text ns = if ns == 0 then [] else b'.' ∷ trim_zeros (nine_digits ns)

-- What may follow a time.
abbrev pub stops_time : Bytes → Bool
stops_time [] = true
stops_time (c ∷ s) = not (is_dec c || c == b'.')

point_trim :
    (s : Bytes) (c : ℕ) (t : Bytes) → trim_zeros s ≡ c ∷ t → trim_zeros (b'.' ∷ s) ≡ b'.' ∷ c ∷ t
unfolding trim_zeros
point_trim s c t e = rw e refl

cons_of : (s : Bytes) → fraction_value 100000000 s ≢ 0 → (c : ℕ) × (t : Bytes) × (s ≡ c ∷ t)
unfolding fraction_value
cons_of [] h = absurd (h refl)
cons_of (c ∷ t) h = (c, t, refl)

written_value :
    (ns : ℕ) → ns < 1000000000 → fraction_value 100000000 (trim_zeros (nine_digits ns)) ≡ ns
written_value ns h = trim_zeros-value 100000000 (nine_digits ns) ∙ nine_digits-value ns h

written_cons :
    (ns : ℕ)
    → ns < 1000000000
    → ns == 0 ≡ false
    → (c : ℕ) × (t : Bytes) × (trim_zeros (nine_digits ns) ≡ c ∷ t)
written_cons ns h e =
    let value = written_value ns h in
    cons_of (trim_zeros (nine_digits ns)) (λ none_left. absurd (ground (arith, value, none_left)))

fraction-digits :
    (start : Bytes) (c : ℕ) (t rest : Bytes)
    → is_dec c ≡ true
    → fraction start (b'.' ∷ c ∷ (t ++ rest)) ≡ fraction_digits 100000000 0 (c ∷ (t ++ rest))
unfolding fraction
fraction-digits start c t rest d = ground arith

fraction-none : (start rest : Bytes) → stops_time rest ≡ true → fraction start rest ≡ ok 0 rest
unfolding fraction
fraction-none start [] e = ground arith
fraction-none start (c ∷ s) e = ground arith

stops_time-digits : (rest : Bytes) → stops_time rest ≡ true → stops_digits rest ≡ true
stops_time-digits [] e = refl
stops_time-digits (c ∷ s) e = ground arith

-- What is written for the nanoseconds is read back.
fraction-text :
    (start : Bytes) (ns : ℕ) (rest : Bytes)
    → ns < 1000000000
    → stops_time rest ≡ true
    → fraction start (fraction_text ns ++ rest) ≡ ok ns rest
unfolding fraction_text
fraction-text start ns rest h e = elim (Bool-cases (ns == 0)) [
  | inl z ↦ rw z (fraction-none start rest e ∙ ap (λ n. ok n rest) (ground arith))
  | inr nz ↦
      let (c, t, same) = written_cons ns h nz in
      let decs : All is_dec (c ∷ t) =
        rw same at (trim_zeros-dec (nine_digits ns) (nine_digits-dec ns)) in
      let value : fraction_value 100000000 (c ∷ t) ≡ ns = rw same at (written_value ns h) in
      rw (nz, same)
        (fraction-digits start c t rest decs.0
          ∙ fraction_digits-value 100000000 0 (c ∷ t) rest decs (stops_time-digits rest e)
          ∙ ap (λ n. ok n rest) (ground (arith, value)))
]

with_fraction-text :
    (dt : Datetime) (tmp : Bytes)
    → dt.nanosecond < 1000000000
    → with_fraction time_local dt tmp ≡ tmp ++ fraction_text dt.nanosecond
unfolding with_fraction fraction_text
with_fraction-text dt tmp h = elim (Bool-cases (dt.nanosecond == 0)) [
  | inl z ↦ rw (z, append-nil) refl
  | inr nz ↦
      let (c, t, same) = written_cons dt.nanosecond h nz in
      rw (nz, same)
        (trim_zeros-append tmp (b'.' ∷ nine_digits dt.nanosecond) b'.' (c ∷ t)
          (point_trim (nine_digits dt.nanosecond) c t same))
]

abbrev pub time_of : ℕ → ℕ → ℕ → ℕ → Datetime
time_of h mi sec ns = record zeroed { hour = h; minute = mi; second = sec; nanosecond = ns }

abbrev clock_text : ℕ → ℕ → ℕ → Bytes → Bytes
clock_text h mi sec tail =
    digit_char (h / 10)
    ∷ digit_char (h % 10)
    ∷ b':'
    ∷ digit_char (mi / 10)
    ∷ digit_char (mi % 10)
    ∷ b':'
    ∷ digit_char (sec / 10)
    ∷ digit_char (sec % 10)
    ∷ tail

emit_dt-text :
    (h mi sec ns : ℕ) (rest : Bytes)
    → ns < 1000000000
    → emit_dt (time_of h mi sec ns) time_local ++ rest
      ≡ clock_text h mi sec (fraction_text ns ++ rest)
unfolding emit_dt date_part clock_part offset_part put_digits2
emit_dt-text h mi sec ns rest lt =
    rw (with_fraction-text (time_of h mi sec ns) (clock_text h mi sec []) lt, append-nil) refl

pub two_digits :
    (v : ℕ) → v < 100 → (digit_char (v / 10) - 48) * 10 + (digit_char (v % 10) - 48) ≡ v
two_digits v h =
    let (_, tens) = digit_char-dec (v / 10) (omega arith) in
    let (_, units) = digit_char-dec (v % 10) (omega arith) in omega arith

d2-text :
    (h mi sec : ℕ) (tail : Bytes)
    → h < 100
    → mi < 100
    → sec < 100
    → (d2 (clock_text h mi sec tail) 0 ≡ h)
      × (d2 (clock_text h mi sec tail) 3 ≡ mi)
      × (d2 (clock_text h mi sec tail) 6 ≡ sec)
unfolding d2
d2-text h mi sec tail a b c = (two_digits h a, two_digits mi b, two_digits sec c)

clock_of_time-text :
    (h mi sec : ℕ) (tail : Bytes)
    → h < 100
    → mi < 100
    → sec < 100
    → clock_of_time (clock_text h mi sec tail)
      ≡ clock (clock_text h mi sec tail) zeroed h mi sec tail
unfolding clock_of_time
clock_of_time-text h mi sec tail a b c =
    let (eh, em, es) = d2-text h mi sec tail a b c in
    let (ten, _) = digit_char-dec (sec / 10) (omega arith) in
    let (unit, _) = digit_char-dec (sec % 10) (omega arith) in
    let long : leb 8 (length (clock_text h mi sec tail)) ≡ true = ground arith in
    rw (long, ten, unit, eh, em, es) refl

clock-text :
    (start : Bytes) (h mi sec ns : ℕ) (rest : Bytes)
    → h ≤ 23
    → mi ≤ 59
    → sec ≤ 60
    → ns < 1000000000
    → stops_time rest ≡ true
    → clock start zeroed h mi sec (fraction_text ns ++ rest) ≡ ok (time_of h mi sec ns) rest
unfolding clock
clock-text start h mi sec ns rest a b c lt e =
    let hour_fits : ltb 23 h ≡ false = ground arith in
    let minute_fits : ltb 59 mi ≡ false = ground arith in
    let second_fits : ltb 60 sec ≡ false = ground arith in
    rw (hour_fits, minute_fits, second_fits, fraction-text start ns rest lt e) refl

-- The parser reads back every local time that the emitter writes, fractions of a second and leap
-- seconds included, and leaves what follows, as long as that does not begin with a digit or a point.
pub parse_datetime-emit_dt :
    (h mi sec ns : ℕ) (rest : Bytes)
    → h ≤ 23
    → mi ≤ 59
    → sec ≤ 60
    → ns < 1000000000
    → stops_time rest ≡ true
    → parse_datetime (emit_dt (time_of h mi sec ns) time_local ++ rest)
      ≡ ok (time_local, time_of h mi sec ns) rest
unfolding parse_datetime parse_time
parse_datetime-emit_dt h mi sec ns rest a b c lt e =
    let s = clock_text h mi sec (fraction_text ns ++ rest) in
    let (_, unit) = digit_char-dec (mi % 10) (omega arith) in
    let no_dash : digit_char (mi % 10) == b'-' ≡ false = ground arith in
    rw (emit_dt-text h mi sec ns rest lt, no_dash)
      (ap (λ r. r then_read λ dt left. ok (time_local, dt) left)
        (clock_of_time-text h mi sec (fraction_text ns ++ rest) (omega arith) (omega arith)
            (omega arith)
          ∙ clock-text s h mi sec ns rest a b c lt e))
