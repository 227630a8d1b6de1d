-- ===== src/Parse/Cursor/Gaps.antt =====
-- What `tep_skip_ws_nl` and `skip_array_gap` skip.
use teptris.Base.{
  ℕ, ◌<◌, leb, not, Bool, true, false, ◌&&◌, ◌||◌, [], ◌∷◌, ◌≡◌, refl, sym, ◌∙◌, ◌⊎◌, inl, inr,
  Bytes, length, ◌==◌, if◌then◌else◌, ==_iff, loop, Bool-cases, Turn, again, leave, run, Falls,
  run-again, run-leave, run_inv, arith,
}
use teptris.Common.Chartype.{is_ws, is_ws-eq, in_ws}
use teptris.Parse.Cursor.{
  next_is, adv, is_control, comment_body, skip_comment, after_comment, skip_ws_nl_turn, skip_ws_nl,
  blank, skip_blank, array_gap_at, array_gap_turn, skip_array_gap,
}
use teptris.Parse.Result.{
  Status, err_syntax, Reason, lone_cr_in_comment, control_in_comment, Result, ok, fail, stuck,
  overrun, IsRest, IsRest-refl, IsRest-cons, IsRest-trans, IsRest-length,
}

-- A byte sequence on which the two loops would go on: a blank, a line end or a comment.
abbrev pub starts_gap : Bytes → Bool
starts_gap [] = false
starts_gap (c ∷ s) = is_ws c || c == b'\n' || (c == b'\r' && next_is b'\n' s) || c == b'#'

-- A byte of a comment: a tab, or none of the control characters.
abbrev pub in_comment : ℕ → Bool
in_comment c = c == 0x09 || (leb 0x20 c && not (c == 0x7F))

-- `\n`, `\r\n` or the end.
abbrev pub ends_line : Bytes → Bool
ends_line [] = true
ends_line (c ∷ s) = c == 0x0A || (c == 0x0D && next_is 0x0A s)

-- The bytes of a comment, from behind its `#` to a place inside it or at its end.
pub data Body : Bytes → Bytes → Type 0 where
  stop : {s : Bytes} → Body s s
  byte : {c : ℕ} {s t : Bytes} → in_comment c ≡ true → Body s t → Body (c ∷ s) t

-- At this place a comment is wrong: a `\r` without `\n`, or another control character.
abbrev pub IsCommentError : Bytes → Status → Reason → Type 0
IsCommentError [] st why = ⊥
IsCommentError (c ∷ s) st why =
    (st ≡ err_syntax)
    × (in_comment c ≡ false)
    × (ends_line (c ∷ s) ≡ false)
    × (why ≡ (if c == 0x0D then lone_cr_in_comment else control_in_comment))

pub Body-IsRest : {s t : Bytes} → Body s t → IsRest t s
Body-IsRest {s} stop = IsRest-refl s
Body-IsRest (byte {c} h k) = IsRest-cons c (Body-IsRest k)

abbrev pub SkipsComment : Bytes → Result (Unit {0}) → Type 0
SkipsComment s (ok _ rest) = Body s rest × (ends_line rest ≡ true)
SkipsComment s (fail st why rest) = Body s rest × IsCommentError rest st why
SkipsComment s stuck = ⊥
SkipsComment s overrun = ⊥

SkipsComment-cons :
    (c : ℕ) (s : Bytes) (r : Result (Unit {0}))
    → SkipsComment s r
    → in_comment c ≡ true
    → SkipsComment (c ∷ s) r
SkipsComment-cons c s (ok _ rest) h k = (byte k h.0, h.1)
SkipsComment-cons c s (fail _ _ rest) h k = (byte k h.0, h.1)
SkipsComment-cons c s stuck h k = h
SkipsComment-cons c s overrun h k = h

pub comment_body-SkipsComment : (s : Bytes) → SkipsComment s (comment_body s)
unfolding comment_body
comment_body-SkipsComment [] = (stop, refl)
comment_body-SkipsComment (c ∷ s) = elim (Bool-cases (c == b'\n')) [
  | inl e ↦ rw e (stop, ground arith)
  | inr no_lf ↦ elim (Bool-cases (c == b'\r')) [
    | inl e ↦ elim (Bool-cases (next_is b'\n' s)) [
      | inl e2 ↦ rw (no_lf, e, e2) (stop, ground arith)
      | inr e2 ↦ rw (no_lf, e, e2) (stop, (refl, ground arith, ground arith, ground arith))
    ]
    | inr no_cr ↦ elim (Bool-cases (is_control c)) [
      | inl e ↦ rw (no_lf, no_cr, e) (stop, (refl, ground arith, ground arith, ground arith))
      | inr e ↦
          rw (no_lf, no_cr, e)
            (SkipsComment-cons c s (comment_body s) (comment_body-SkipsComment s) (ground arith))
    ]
  ]
]

-- Blanks, line ends and whole comments, from one place to another.
pub data Gap : Bytes → Bytes → Type 0 where
  none_left : {s : Bytes} → Gap s s
  white : {c : ℕ} {s t : Bytes} → in_ws c ≡ true → Gap s t → Gap (c ∷ s) t
  newline : {c : ℕ} {s t : Bytes} → c == 0x0A ≡ true → Gap s t → Gap (c ∷ s) t
  cr_newline :
      {c d : ℕ} {s t : Bytes} → c == 0x0D ≡ true → d == 0x0A ≡ true → Gap s t → Gap (c ∷ d ∷ s) t
  comment :
      {c : ℕ} {s u t : Bytes}
      → c == b'#' ≡ true
      → Body s u
      → ends_line u ≡ true
      → Gap u t
      → Gap (c ∷ s) t

Gap-trans : {s t u : Bytes} → Gap s t → Gap t u → Gap s u
Gap-trans none_left k = k
Gap-trans (white e h) k = white e (Gap-trans h k)
Gap-trans (newline e h) k = newline e (Gap-trans h k)
Gap-trans (cr_newline e d h) k = cr_newline e d (Gap-trans h k)
Gap-trans (comment e b l h) k = comment e b l (Gap-trans h k)

pub Gap-IsRest : {s t : Bytes} → Gap s t → IsRest t s
Gap-IsRest {s} none_left = IsRest-refl s
Gap-IsRest (white {c} e h) = IsRest-cons c (Gap-IsRest h)
Gap-IsRest (newline {c} e h) = IsRest-cons c (Gap-IsRest h)
Gap-IsRest (cr_newline {c} {d} e e2 h) = IsRest-cons c (IsRest-cons d (Gap-IsRest h))
Gap-IsRest (comment {c} e b l h) = IsRest-cons c (IsRest-trans (Gap-IsRest h) (Body-IsRest b))

-- In a comment behind a gap, what is wrong with it.
pub record BadComment (s : Bytes) (st : Status) (why : Reason) (rest : Bytes) : Type 0 where
  pub mark : ℕ
  pub body : Bytes
  pub gap : Gap s (mark ∷ body)
  pub is_mark : mark == b'#' ≡ true
  pub inside : Body body rest
  pub is_wrong : IsCommentError rest st why

-- The whole gap is behind the cursor, or the cursor is where a comment in it is wrong.
abbrev pub Skips : Bytes → Result (Unit {0}) → Type 0
Skips s (ok _ rest) = Gap s rest × (starts_gap rest ≡ false)
Skips s (fail st why rest) = BadComment s st why rest
Skips s stuck = ⊥
Skips s overrun = ⊥

Skips-trans : {s t : Bytes} (r : Result (Unit {0})) → Gap t s → Skips s r → Skips t r
Skips-trans (ok _ rest) h k = (Gap-trans h k.0, k.1)
Skips-trans (fail st why rest) h k = record {
  mark = k.mark;
  body = k.body;
  gap = Gap-trans h k.gap;
  is_mark = k.is_mark;
  inside = k.inside;
  is_wrong = k.is_wrong;
}
Skips-trans stuck h k = k
Skips-trans overrun h k = k

-- A round moves the cursor forward, or leaves as `Skips` says.
abbrev Round : Bytes → Turn Bytes (Result (Unit {0})) → Type 0
Round s (again t) = Gap s t × (length t < length s)
Round s (leave r) = Skips s r

Round-after_comment :
    (c : ℕ) (s : Bytes) (r : Result (Unit {0}))
    → c == b'#' ≡ true
    → SkipsComment s r
    → Round (c ∷ s) (after_comment r)
unfolding after_comment
Round-after_comment c s (ok _ rest) e h =
    (comment e h.0 h.1 none_left, omega (arith, IsRest-length (Body-IsRest h.0)))
Round-after_comment c s (fail st why rest) e h = record {
  mark = c;
  body = s;
  gap = none_left;
  is_mark = e;
  inside = h.0;
  is_wrong = h.1;
}
Round-after_comment c s stuck e h = absurd h
Round-after_comment c s overrun e h = absurd h

next-cr_newline :
    (c : ℕ) (s : Bytes)
    → c == b'\r' ≡ true
    → next_is b'\n' s ≡ true
    → Round (c ∷ s) (again (adv 1 s))
next-cr_newline c [] e n = absurd (ground arith)
next-cr_newline c (d ∷ s) e n = (cr_newline e n none_left, omega arith)

skip_ws_nl_turn-Round : (s : Bytes) → Round s (skip_ws_nl_turn s)
unfolding skip_ws_nl_turn skip_comment
skip_ws_nl_turn-Round [] = (none_left, refl)
skip_ws_nl_turn-Round (c ∷ s) = elim (Bool-cases (is_ws c)) [
  | inl e ↦ rw e (white (ground (arith, is_ws-eq c)) none_left, omega arith)
  | inr no_ws ↦ elim (Bool-cases (c == b'\n')) [
    | inl e ↦ rw (no_ws, e) (newline e none_left, omega arith)
    | inr no_lf ↦ elim (Bool-cases (c == b'\r' && next_is b'\n' s)) [
      | inl e ↦ rw (no_ws, no_lf, e) (next-cr_newline c s (ground arith) (ground arith))
      | inr no_cr ↦ elim (Bool-cases (c == b'#')) [
        | inl e ↦
            rw (no_ws, no_lf, no_cr, e)
              (Round-after_comment c s (comment_body s) e (comment_body-SkipsComment s))
        | inr e ↦ rw (no_ws, no_lf, no_cr, e) (none_left, ground arith)
      ]
    ]
  ]
]

skip_ws_nl_turn-Falls : Falls stuck skip_ws_nl_turn length
skip_ws_nl_turn-Falls s t e = let h : Round s (again t) = rw e at (skip_ws_nl_turn-Round s) in h.1

-- `tep_skip_ws_nl` ends. On success it has skipped blanks, line ends and whole comments, and stops
-- in front of none of them. It fails only behind such a gap in a comment, with a syntax error at the
-- first byte that is neither of the comment nor of a line end: a CR without a LF as such, another
-- control character but a tab as such.
pub skip_ws_nl-Skips : (s : Bytes) → Skips s (skip_ws_nl s)
unfolding skip_ws_nl
skip_ws_nl-Skips =
    run_inv stuck skip_ws_nl_turn length Skips skip_ws_nl_turn-Falls
      (λ s r e. rw e at (skip_ws_nl_turn-Round s))
      (λ s t r e h.
        Skips-trans r (let k : Round s (again t) = rw e at (skip_ws_nl_turn-Round s) in k.0) h)

-- `skip_array_gap`.
skip_ws_nl-blank : (c : ℕ) (s : Bytes) → blank c ≡ true → skip_ws_nl (c ∷ s) ≡ skip_ws_nl s
unfolding skip_ws_nl
skip_ws_nl-blank c s h =
    run-again stuck skip_ws_nl_turn length skip_ws_nl_turn-Falls
      (unfold skip_ws_nl_turn blank in ground (arith, is_ws-eq c))

skip_ws_nl-skip_blank : (s : Bytes) → skip_ws_nl (skip_blank s) ≡ skip_ws_nl s
unfolding skip_blank
skip_ws_nl-skip_blank [] = refl
skip_ws_nl-skip_blank (c ∷ s) = ground (arith, skip_ws_nl-blank c s, skip_ws_nl-skip_blank s)

skip_ws_nl_newline : (s : Bytes) → skip_ws_nl (b'\n' ∷ s) ≡ skip_ws_nl s
unfolding skip_ws_nl
skip_ws_nl_newline s =
    run-again stuck skip_ws_nl_turn length skip_ws_nl_turn-Falls
      (unfold skip_ws_nl_turn in ground (arith, is_ws-eq b'\n'))

skip_ws_nl_end : skip_ws_nl [] ≡ ok tt []
unfolding skip_ws_nl run loop skip_ws_nl_turn
skip_ws_nl_end = refl

skip_ws_nl_stop :
    (c : ℕ) (s : Bytes) → starts_gap (c ∷ s) ≡ false → skip_ws_nl (c ∷ s) ≡ ok tt (c ∷ s)
unfolding skip_ws_nl
skip_ws_nl_stop c s h =
    run-leave stuck skip_ws_nl_turn length (unfold skip_ws_nl_turn in ground arith)

-- Behind the blanks: the end, or a byte that is no blank.
abbrev BehindBlanks : Bytes → Bytes → Type 0
BehindBlanks s [] = Unit
BehindBlanks s (c ∷ t) = (blank c ≡ false) × (length t < length s)

skip_blank-BehindBlanks : (s : Bytes) → BehindBlanks s (skip_blank s)
unfolding skip_blank
skip_blank-BehindBlanks [] = tt
skip_blank-BehindBlanks (c ∷ s) =
    widen (Bool-cases (blank c)) (skip_blank s) (skip_blank-BehindBlanks s)
  where
    widen :
        (blank c ≡ true) ⊎ (blank c ≡ false)
        → (t : Bytes) → BehindBlanks s t
        → BehindBlanks (c ∷ s) (if blank c then t else c ∷ s)
    widen (inl e) [] h = rw e tt
    widen (inl e) (d ∷ t) h = rw e (h.0, omega arith)
    widen (inr e) t h = rw e (e, omega arith)

-- One round agrees with the general skipper at the same place.
abbrev Agrees : Bytes → Bytes → Turn Bytes (Result (Unit {0})) → Type 0
Agrees s u (again t) = (length t < length s) × (skip_ws_nl u ≡ skip_ws_nl t)
Agrees s u (leave r) = skip_ws_nl u ≡ r

array_gap_at-Agrees : (s t : Bytes) → BehindBlanks s t → Agrees s t (array_gap_at t)
unfolding array_gap_at
array_gap_at-Agrees s [] h = skip_ws_nl_end
array_gap_at-Agrees s (c ∷ t) h = elim (Bool-cases (c == b'\n')) [
  | inl e ↦ rw e (omega arith, rw ((==_iff c b'\n').0 e) (skip_ws_nl_newline t))
  | inr e ↦ rw e (unfold blank in grind (arith, skip_ws_nl_stop c t, is_ws-eq c))
]

array_gap_turn-Agrees : (s : Bytes) → Agrees s s (array_gap_turn s)
unfolding array_gap_turn
array_gap_turn-Agrees s =
    shift (array_gap_at (skip_blank s))
      (array_gap_at-Agrees s (skip_blank s) (skip_blank-BehindBlanks s))
  where
    shift : (u : Turn Bytes (Result (Unit {0}))) → Agrees s (skip_blank s) u → Agrees s s u
    shift (again t) h = (h.0, sym (skip_ws_nl-skip_blank s) ∙ h.1)
    shift (leave r) h = sym (skip_ws_nl-skip_blank s) ∙ h

-- The fast loop for the gap between array elements skips exactly what the general skipper does,
-- with the same errors at the same places.
pub skip_array_gap-skip_ws_nl : (s : Bytes) → skip_array_gap s ≡ skip_ws_nl s
unfolding skip_array_gap
skip_array_gap-skip_ws_nl s = sym (
    run_inv stuck array_gap_turn length (λ s r. skip_ws_nl s ≡ r)
      (λ s t e. let h : Agrees s s (again t) = rw e at (array_gap_turn-Agrees s) in h.0)
      (λ s r e. rw e at (array_gap_turn-Agrees s))
      (λ s t r e h. (let k : Agrees s s (again t) = rw e at (array_gap_turn-Agrees s) in k.1) ∙ h)
      s)
