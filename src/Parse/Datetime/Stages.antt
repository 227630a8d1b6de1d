-- ===== src/Parse/Datetime/Stages.antt =====
-- What each stage of the datetime parser makes of the fields.
use teptris.Base.{
  ℕ, zero, suc, ◌+◌, ◌-◌, ◌*◌, ◌/◌, ◌%◌, ◌≤◌, ◌<◌, Bool, true, false, not, ◌&&◌, ◌||◌, [], ◌∷◌, ◌≡◌,
  refl, arith, Bytes, length, drop, ltb, leb, ◌==◌, if◌then◌else◌, Bool-cases, inl, inr, subst, ap,
  ◌⊎◌, ℤ, pos, abs, minus,
}
use teptris.Common.Chartype.{is_dec, is_dec-eq}
use teptris.Parse.Datetime.{
  Kind, datetime_offset, datetime_local, Datetime, at, is_dig, d2, fraction_digits, fraction, clock,
  time_of_date, offset, is_utc, has_offset, numeric_offset, syntax_at, ◌then_read◌,
}
use teptris.Parse.Datetime.Months.{HasDay}
use teptris.Parse.Result.{
  Reason, Result, ok, fail, stuck, overrun, invalid_hour, invalid_minute, invalid_second,
  invalid_offset,
}

abbrev pub IsDate : Datetime → Type 0
IsDate dt =
    (dt.year < 10000)
    × (1 ≤ dt.month)
    × (dt.month ≤ 12)
    × (1 ≤ dt.day)
    × HasDay dt.year dt.month dt.day

-- A second may be 60.
abbrev pub IsClock : Datetime → Type 0
IsClock dt = (dt.hour ≤ 23) × (dt.minute ≤ 59) × (dt.second ≤ 60) × (dt.nanosecond < 1000000000)

-- Whole minutes, less than a day.
abbrev pub IsOffset : Datetime → Type 0
IsOffset dt = (abs dt.offset_seconds < 86400) × (abs dt.offset_seconds % 60 ≡ 0)

abbrev pub NoDate : Datetime → Type 0
NoDate dt = (dt.year ≡ 0) × (dt.month ≡ 0) × (dt.day ≡ 0)

abbrev pub NoClock : Datetime → Type 0
NoClock dt = (dt.hour ≡ 0) × (dt.minute ≡ 0) × (dt.second ≡ 0) × (dt.nanosecond ≡ 0)

abbrev pub NoOffset : Datetime → Type 0
NoOffset dt = dt.offset_seconds ≡ pos 0

-- A success behind a guard, and behind an earlier stage.
pub guard-ok {ℓ} :
    {A : Type ℓ} (test : Bool) (start : Bytes) (why : Reason) (x : Result A) (a : A) (rest : Bytes)
    → (if test then syntax_at start why else x) ≡ ok a rest
    → (test ≡ false) × (x ≡ ok a rest)
guard-ok true start why x a rest e = ground arith
guard-ok false start why x a rest e = (refl, e)

pub then_read-ok {ℓ κ} :
    {A : Type ℓ} {B : Type κ} (m : Result A) (k : A → Bytes → Result B) (b : B) (rest : Bytes)
    → m then_read k ≡ ok b rest
    → (a : A) × (left : Bytes) × (m ≡ ok a left) × (k a left ≡ ok b rest)
then_read-ok (ok a left) k b rest e = (a, left, refl, e)
then_read-ok (fail st why left) k b rest e = ground arith
then_read-ok stuck k b rest e = ground arith
then_read-ok overrun k b rest e = ground arith

value : {A : Type 0} → A → Result A → A
value a (ok x rest) = x
value a (fail st why rest) = a
value a stuck = a
value a overrun = a

pub ok-injective : {A : Type 0} {a b : A} {r r' : Bytes} → ok a r ≡ ok b r' → a ≡ b
unfolding value
ok-injective {a = a} e = ap (value a) e

-- A digit more keeps the fraction below a second.
digit-lt :
    (ns d scale : ℕ)
    → d ≤ 9
    → ns < 1000000000
    → ns + 10 * scale ≤ 1000000000
    → ns + d * scale < 1000000000
digit-lt ns d zero lt lo hi = grind arith
digit-lt ns d (suc scale) lt lo hi =
    let m : d * suc scale ≤ 9 * suc scale = grind arith in omega arith

fraction_digits-lt :
    (s rest : Bytes) (scale ns n : ℕ)
    → ns < 1000000000
    → ns + 10 * scale ≤ 1000000000
    → fraction_digits scale ns s ≡ ok n rest
    → n < 1000000000
unfolding fraction_digits
fraction_digits-lt [] rest scale ns n lo hi e = ground arith
fraction_digits-lt (c ∷ s) rest scale ns n lo hi e = elim (Bool-cases (is_dec c)) [
  | inl h ↦
      let d : c - 48 ≤ 9 = ground (arith, is_dec-eq c) in
      let m : (c - 48) * scale ≤ 9 * scale = grind arith in
      fraction_digits-lt s rest (scale / 10) (ns + (c - 48) * scale) n
        (digit-lt ns (c - 48) scale d lo hi) (omega arith) (ground arith)
  | inr h ↦ ground arith
]

fraction-lt : (start s rest : Bytes) (n : ℕ) → fraction start s ≡ ok n rest → n < 1000000000
unfolding fraction
fraction-lt start s rest n e = elim (Bool-cases (not (leb 1 (length s) && at s 0 == b'.'))) [
  | inl h ↦ ground arith
  | inr h ↦ elim (Bool-cases (is_dig s 1)) [
    | inl hd ↦
        fraction_digits-lt (drop 1 s) rest 100000000 0 n (ground arith) (ground arith) (grind arith)
    | inr hd ↦ grind arith
  ]
]

-- What `clock` leaves of the datetime that it is given.
abbrev pub KeepsDate : Datetime → Datetime → Type 0
KeepsDate dt dt' =
    (dt'.year ≡ dt.year)
    × (dt'.month ≡ dt.month)
    × (dt'.day ≡ dt.day)
    × (dt'.offset_seconds ≡ dt.offset_seconds)

pub clock-IsClock :
    (start s rest : Bytes) (dt dt' : Datetime) (h mi sec : ℕ)
    → clock start dt h mi sec s ≡ ok dt' rest
    → IsClock dt' × KeepsDate dt dt'
unfolding clock
clock-IsClock start s rest dt dt' h mi sec e =
    let (lh, e1) = guard-ok (ltb 23 h) start invalid_hour _ dt' rest e in
    let (lm, e2) = guard-ok (ltb 59 mi) start invalid_minute _ dt' rest e1 in
    let (ls, e3) = guard-ok (ltb 60 sec) start invalid_second _ dt' rest e2 in
    let (ns, left, f, e4) = then_read-ok (fraction start s) _ dt' rest e3 in
    let lt = fraction-lt start s left ns f in
    subst (λ d. IsClock d × KeepsDate dt d) (ok-injective e4)
      ((ground arith, ground arith, ground arith, lt), (refl, refl, refl, refl))

pub time_of_date-IsClock :
    (start s rest : Bytes) (dt dt' : Datetime)
    → time_of_date start dt s ≡ ok dt' rest
    → IsClock dt' × KeepsDate dt dt'
unfolding time_of_date
time_of_date-IsClock start s rest dt dt' e =
    elim (Bool-cases (leb 6 (length s) && at s 5 == b':')) [
      | inl h ↦
          let (_, e1) =
            guard-ok (ltb (length s) 8 || not (is_dig s 6) || not (is_dig s 7)) start invalid_second
              _ dt' rest (grind arith) in
          clock-IsClock start (drop 8 s) rest dt dt' (d2 s 0) (d2 s 3) (d2 s 6) e1
      | inr h ↦ clock-IsClock start (drop 5 s) rest dt dt' (d2 s 0) (d2 s 3) 0 (grind arith)
    ]

abs-minus : (n : ℕ) → abs (minus n) ≡ n
abs-minus zero = refl
abs-minus (suc n) = refl

abs-sign : (b : Bool) (n : ℕ) → abs (if b then minus n else pos n) ≡ n
abs-sign true n = abs-minus n
abs-sign false n = refl

offset-lt :
    (b : Bool) (oh om : ℕ)
    → (ltb 23 oh || ltb 59 om) ≡ false
    → (abs (if b then minus (oh * 3600 + om * 60) else pos (oh * 3600 + om * 60)) < 86400)
      × (abs (if b then minus (oh * 3600 + om * 60) else pos (oh * 3600 + om * 60)) % 60 ≡ 0)
offset-lt b oh om h = let size = abs-sign b (oh * 3600 + om * 60) in (grind arith, grind arith)

-- What `offset` makes of the datetime that it is given.
abbrev pub Offsets : Datetime → Kind × Datetime → Type 0
Offsets dt (k, dt') =
    ((k ≡ datetime_offset)
      × (o : ℤ) × ((abs o < 86400) × (abs o % 60 ≡ 0))
      × (dt' ≡ record dt { offset_seconds = o }))
    ⊎ ((k ≡ datetime_local) × (dt' ≡ dt))

numeric_offset-Offsets :
    (start s rest : Bytes) (dt : Datetime) (r : Kind × Datetime)
    → numeric_offset start dt s ≡ ok r rest
    → Offsets dt r
unfolding numeric_offset
numeric_offset-Offsets start s rest dt r e =
    let (lt, e1) = guard-ok (ltb 23 (d2 s 1) || ltb 59 (d2 s 4)) start invalid_offset _ r rest e in
    subst (Offsets dt) (ok-injective e1)
      (inl (refl, _, offset-lt (at s 0 == b'-') (d2 s 1) (d2 s 4) lt, refl))

pub offset-Offsets :
    (start s rest : Bytes) (dt : Datetime) (r : Kind × Datetime)
    → offset start dt s ≡ ok r rest
    → Offsets dt r
unfolding offset
offset-Offsets start s rest dt r e = elim (Bool-cases (is_utc s)) [
  | inl h ↦
      subst (Offsets dt) (ok-injective {r = drop 1 s} {r' = rest} (grind arith))
        (inl (refl, pos 0, (ground arith, refl), refl))
  | inr h ↦ elim (Bool-cases (has_offset s)) [
    | inl h2 ↦ numeric_offset-Offsets start s rest dt r (grind arith)
    | inr h2 ↦
        subst (Offsets dt) (ok-injective {r = s} {r' = rest} (grind arith)) (inr (refl, refl))
  ]
]
