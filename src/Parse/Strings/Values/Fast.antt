-- ===== src/Parse/Strings/Values/Fast.antt =====
-- The fast path for string bodies reads what the general scanners read.
use native.Mathlib.Numerals.{add-one}
use teptris.Base.{
  Option-cases, ℕ, suc, ◌+◌, ◌≤◌, Bool, true, false, not, ◌&&◌, [], ◌∷◌, ◌++◌, append-nil,
  append_assoc, Option, none, some, ◌≡◌, refl, sym, ap, ◌∙◌, arith, Bytes, length, take, drop, leb,
  ◌==◌, ==_iff, if◌then◌else◌, Bool-cases, inl, inr, again, run, run-again, run-leave, All,
}
use teptris.Parse.Cursor.{is_control}
use teptris.Parse.Result.{Result, ok, fail, stuck, overrun}
use teptris.Parse.Strings.{
  plain_byte, basic_at, literal_at, basic_turn, literal_turn, left, scan_basic, scan_literal,
}
use teptris.Parse.Strings.Progress.{basic-Falls, literal-Falls}
use teptris.Parse.Strings.Values.{
  memchr, str_stop, plain_loop, after_memchr, second_pass, try_plain_body, scan_body, quoted_body,
  close_of,
}

-- A byte that stands for itself inside a basic or a literal string on one line.
abbrev pub is_plain : Bool → ℕ → Bool
is_plain basic c = not (c == close_of basic) && not (basic && c == b'\\') && not (is_control c)

basic_plain :
    (c : ℕ) (s out : Bytes)
    → is_plain true c ≡ true
    → basic_turn false (record { rest = c ∷ s; out = out })
      ≡ again (record { rest = s; out = out ++ c ∷ [] })
unfolding basic_turn basic_at plain_byte
basic_plain c s out h = ground arith

literal_plain :
    (c : ℕ) (s out : Bytes)
    → is_plain false c ≡ true
    → literal_turn false (record { rest = c ∷ s; out = out })
      ≡ again (record { rest = s; out = out ++ c ∷ [] })
unfolding literal_turn literal_at plain_byte
literal_plain c s out h = ground arith

-- From any point of a scan, a run of plain bytes is put out as it stands.
pub run_basic-append :
    (body s out : Bytes)
    → All (is_plain true) body
    → run stuck (basic_turn false) left (record { rest = body ++ s; out = out })
      ≡ run stuck (basic_turn false) left (record { rest = s; out = out ++ body })
run_basic-append [] s out h = rw append-nil
run_basic-append (c ∷ body) s out h =
    run-again stuck (basic_turn false) left (basic-Falls false) (basic_plain c (body ++ s) out h.0)
    ∙ run_basic-append body s (out ++ c ∷ []) h.1
    ∙ rw append_assoc

pub run_literal-append :
    (body s out : Bytes)
    → All (is_plain false) body
    → run stuck (literal_turn false) left (record { rest = body ++ s; out = out })
      ≡ run stuck (literal_turn false) left (record { rest = s; out = out ++ body })
run_literal-append [] s out h = rw append-nil
run_literal-append (c ∷ body) s out h =
    run-again stuck (literal_turn false) left (literal-Falls false)
      (literal_plain c (body ++ s) out h.0)
    ∙ run_literal-append body s (out ++ c ∷ []) h.1
    ∙ rw append_assoc

pub run_basic_close :
    (s out : Bytes)
    → run stuck (basic_turn false) left (record { rest = b'"' ∷ s; out = out }) ≡ ok out s
run_basic_close s out = run-leave stuck (basic_turn false) left (unfold basic_turn basic_at in refl)

pub run_literal_close :
    (s out : Bytes)
    → run stuck (literal_turn false) left (record { rest = b'\'' ∷ s; out = out }) ≡ ok out s
run_literal_close s out =
    run-leave stuck (literal_turn false) left (unfold literal_turn literal_at in refl)

scan_basic_plain :
    (body s : Bytes) → All (is_plain true) body → scan_basic false (body ++ b'"' ∷ s) ≡ ok body s
scan_basic_plain body s h =
    unfold scan_basic in run_basic-append body (b'"' ∷ s) [] h ∙ run_basic_close s body

scan_literal_plain :
    (body s : Bytes)
    → All (is_plain false) body
    → scan_literal false (body ++ b'\'' ∷ s) ≡ ok body s
scan_literal_plain body s h =
    unfold scan_literal in run_literal-append body (b'\'' ∷ s) [] h ∙ run_literal_close s body

same_pass : (r : Result Bytes) → second_pass r r ≡ r
same_pass (ok _ _) = refl
same_pass (fail _ _ _) = refl
same_pass stuck = refl
same_pass overrun = refl

-- The pass that writes repeats the pass that counts.
pub scan_body-basic : (ml : Bool) (s : Bytes) → scan_body true ml s ≡ scan_basic ml s
unfolding scan_body
scan_body-basic ml s = same_pass (scan_basic ml s)

pub scan_body-literal : (ml : Bool) (s : Bytes) → scan_body false ml s ≡ scan_literal ml s
unfolding scan_body
scan_body-literal ml s = same_pass (scan_literal ml s)

-- The general scanners return such a body, and stop behind the closing quote.
pub scan_body_plain :
    (basic : Bool) (body s : Bytes)
    → All (is_plain basic) body
    → scan_body basic false (body ++ close_of basic ∷ s) ≡ ok body s
scan_body_plain true body s h = scan_body-basic false _ ∙ scan_basic_plain body s h
scan_body_plain false body s h = scan_body-literal false _ ∙ scan_literal_plain body s h

-- `n` plain bytes, and then the closing quote.
record Closes (basic : Bool) (s : Bytes) (n : ℕ) : Type 0 where
  plain : All (is_plain basic) (take n s)
  splits : take n s ++ close_of basic ∷ drop (suc n) s ≡ s

Closes-zero :
    (basic : Bool) (c : ℕ) (s : Bytes) → (c == close_of basic) ≡ true → Closes basic (c ∷ s) 0
Closes-zero basic c s h = record { plain = tt; splits = ap (λ x. x ∷ s) (sym ((==_iff c _).0 h)) }

Closes-suc :
    (basic : Bool) (c : ℕ) (s : Bytes) (n : ℕ)
    → is_plain basic c ≡ true
    → Closes basic s n
    → Closes basic (c ∷ s) (suc n)
Closes-suc basic c s n h k = record { plain = (h, k.plain); splits = ap (◌∷◌ c) k.splits }

-- The result of a loop that counts one more.
counted :
    (o : Option ℕ) (n : ℕ)
    → elim o [ none ↦ none | some m ↦ some (suc m) ] ≡ some n
    → (m : ℕ) × (o ≡ some m) × (n ≡ suc m)
counted none n e = cc
counted (some m) n e = (m, refl, ground arith)

plain_loop-step :
    (basic : Bool) (c : ℕ) (s : Bytes) (n : ℕ)
    → (c == close_of basic) ≡ false
    → plain_loop (close_of basic) (c ∷ s) ≡ some n
    → (is_plain basic c ≡ true)
      × (elim (plain_loop (close_of basic) s) [ none ↦ none | some m ↦ some (suc m) ] ≡ some n)
unfolding plain_loop
plain_loop-step basic c s n h e = (ground arith, ground arith)

plain_loop_here :
    (basic : Bool) (c : ℕ) (s : Bytes) (n : ℕ)
    → (c == close_of basic) ≡ true
    → plain_loop (close_of basic) (c ∷ s) ≡ some n
    → n ≡ 0
unfolding plain_loop
plain_loop_here basic c s n h e = ground arith

plain_loop-Closes :
    (basic : Bool) (s : Bytes) (n : ℕ) → plain_loop (close_of basic) s ≡ some n → Closes basic s n
plain_loop-Closes basic [] n e = unfold plain_loop in cc
plain_loop-Closes basic (c ∷ s) n e = elim (Bool-cases (c == close_of basic)) [
  | inl h ↦ rw (plain_loop_here basic c s n h e) (Closes-zero basic c s h)
  | inr h ↦
      let (plain, more) = plain_loop-step basic c s n h e in
      let (m, found, n_is) = counted (plain_loop (close_of basic) s) n more in
      rw n_is (Closes-suc basic c s m plain (plain_loop-Closes basic s m found))
]

abbrev escape_of : Bool → ℕ
escape_of basic = if close_of basic == b'"' then b'\\' else 0

memchr-step :
    (close c : ℕ) (s : Bytes) (n : ℕ)
    → (c == close) ≡ false
    → memchr close (c ∷ s) ≡ some n
    → elim (memchr close s) [ none ↦ none | some m ↦ some (suc m) ] ≡ some n
unfolding memchr
memchr-step close c s n h e = ground arith

memchr_here :
    (close c : ℕ) (s : Bytes) (n : ℕ) → (c == close) ≡ true → memchr close (c ∷ s) ≡ some n → n ≡ 0
unfolding memchr
memchr_here close c s n h e = ground arith

str_stop-step :
    (basic : Bool) (c m : ℕ) (s : Bytes)
    → (c == close_of basic) ≡ false
    → suc m ≤ str_stop (escape_of basic) 0 (c ∷ s)
    → (is_plain basic c ≡ true) × (m ≤ str_stop (escape_of basic) 0 s)
unfolding str_stop
str_stop-step basic c m s h k = (ground arith, ground arith)

-- Behind `memchr` and the check of the bytes before its hit.
plain_long-Closes :
    (basic : Bool) (s : Bytes) (n : ℕ)
    → memchr (close_of basic) s ≡ some n
    → n ≤ str_stop (escape_of basic) 0 (take n s)
    → Closes basic s n
plain_long-Closes basic [] n e k = unfold memchr in cc
plain_long-Closes basic (c ∷ s) n e k = elim (Bool-cases (c == close_of basic)) [
  | inl h ↦ rw (memchr_here (close_of basic) c s n h e) (Closes-zero basic c s h)
  | inr h ↦
      let (m, found, n_is) =
        counted (memchr (close_of basic) s) n (memchr-step (close_of basic) c s n h e) in
      let k' : suc m ≤ str_stop (escape_of basic) 0 (take (suc m) (c ∷ s)) = rw n_is at k in
      let (plain, fits) = str_stop-step basic c m (take m s) h k' in
      rw n_is (Closes-suc basic c s m plain (plain_long-Closes basic s m found fits))
]

after_memchr-some :
    (basic : Bool) (s : Bytes) (o : Option ℕ) (n : ℕ)
    → after_memchr (close_of basic) s o ≡ some n
    → (o ≡ some n) × (n ≤ str_stop (escape_of basic) 0 (take n s))
unfolding after_memchr
after_memchr-some basic s none n e = cc
after_memchr-some basic s (some off) n e =
    let same : off ≡ n = ground arith in (ap some same, rw (← same) (ground arith))

try_plain_body-Closes :
    (basic : Bool) (s : Bytes) (n : ℕ)
    → try_plain_body (close_of basic) s ≡ some n
    → Closes basic s n
try_plain_body-Closes basic s n e = elim (Bool-cases (leb 32 (length s))) [
  | inl h ↦
      let (hit, clean) =
        after_memchr-some basic s (memchr (close_of basic) s) n
          (unfold try_plain_body in ground arith) in
      plain_long-Closes basic s n hit clean
  | inr h ↦ plain_loop-Closes basic s n (unfold try_plain_body in ground arith)
]

quoted_body_fast :
    (basic : Bool) (s : Bytes) (n : ℕ)
    → try_plain_body (close_of basic) s ≡ some n
    → quoted_body basic s ≡ ok (take n s) (drop (n + 1) s)
unfolding quoted_body
quoted_body_fast basic s n e = rw (e, quoted_body)

quoted_body_slow :
    (basic : Bool) (s : Bytes)
    → try_plain_body (close_of basic) s ≡ none
    → quoted_body basic s ≡ scan_body basic false s
unfolding quoted_body
quoted_body_slow basic s e = rw (e, quoted_body)

-- The fast path changes nothing: a single-line string and a quoted key are read as the general
-- scanners read them, escapes, errors and cursor included.
pub quoted_body-scan_body :
    (basic : Bool) (s : Bytes) → quoted_body basic s ≡ scan_body basic false s
quoted_body-scan_body basic s = elim (Option-cases (try_plain_body (close_of basic) s)) [
  | inl e ↦ quoted_body_slow basic s e
  | inr (n, e) ↦
      let h = try_plain_body-Closes basic s n e in
      let general = rw h.splits at (scan_body_plain basic (take n s) (drop (suc n) s) h.plain) in
      quoted_body_fast basic s n e ∙ rw add-one (sym general)
]
