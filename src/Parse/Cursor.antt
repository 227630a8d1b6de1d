-- ===== src/Parse/Cursor.antt =====
-- src/teptris/parse/parser.c: whitespace, comments and line ends.
pub mod Gaps
pub mod Progress
use teptris.Base.{
  ℕ, suc, ◌+◌, ◌<◌, Bool, true, false, not, ◌&&◌, ◌||◌, List, [], ◌∷◌, ◌++◌, ◌≡◌, refl, Bytes,
  length, ltb, ◌==◌, if◌then◌else◌, drop, Turn, again, leave, run, arith,
}
use teptris.Common.Chartype.{is_ws}
use teptris.Parse.Result.{
  Status, err_syntax, Reason, lone_cr_in_comment, control_in_comment, newline_after_value, Result,
  ok, fail, stuck, overrun, Parser, ◌>>=◌, ◌>>◌, syntax,
}

-- `ps->p + 1 < ps->end && ps->p[1] == c`, on what is behind the cursor's byte.
abbrev pub next_is : ℕ → Bytes → Bool
next_is c [] = false
next_is c (x ∷ _) = x == c

-- `c < 0x20 && c != '\t' || c == 0x7F`
abbrev pub is_control : ℕ → Bool
is_control c = (ltb c 0x20 && not (c == b'\t')) || c == 0x7F

-- `tep_adv`, which is clamped to the end.
abbrev pub adv : ℕ → Bytes → Bytes
adv = drop

unfoldable pub skip_ws : Parser (Unit {0})
skip_ws [] = ok tt []
skip_ws (c ∷ s) = if is_ws c then skip_ws s else ok tt (c ∷ s)

-- The loop of `skip_comment`, behind the `#`.
unfoldable pub comment_body : Parser (Unit {0})
comment_body [] = ok tt []
comment_body (c ∷ s) =
    if c == b'\n'
    then ok tt (c ∷ s)
    else if c == b'\r'
    then (if next_is b'\n' s then ok tt (c ∷ s) else syntax lone_cr_in_comment (c ∷ s))
    else if is_control c
    then syntax control_in_comment (c ∷ s)
    else comment_body s

unfoldable pub skip_comment : Parser (Unit {0})
unfolding comment_body
skip_comment s = comment_body (adv 1 s)

after_comment : Result (Unit {0}) → Turn Bytes (Result (Unit {0}))
after_comment (ok _ rest) = again rest
after_comment (fail st why rest) = leave (fail st why rest)
after_comment stuck = leave stuck
after_comment overrun = leave overrun

-- One round of `tep_skip_ws_nl`.
skip_ws_nl_turn : Bytes → Turn Bytes (Result (Unit {0}))
unfolding after_comment
skip_ws_nl_turn [] = leave (ok tt [])
skip_ws_nl_turn (c ∷ s) =
    if is_ws c
    then again (adv 1 (c ∷ s))
    else if c == b'\n'
    then again (adv 1 (c ∷ s))
    else if c == b'\r' && next_is b'\n' s
    then again (adv 2 (c ∷ s))
    else if c == b'#'
    then after_comment (skip_comment (c ∷ s))
    else leave (ok tt (c ∷ s))

unfoldable pub skip_ws_nl : Parser (Unit {0})
unfolding skip_ws_nl_turn
skip_ws_nl = run stuck skip_ws_nl_turn length

unfoldable pub at_eol : Bytes → Bool
at_eol [] = true
at_eol (c ∷ s) = c == b'\n' || (c == b'\r' && next_is b'\n' s)

-- The test for a comment, and `skip_comment` there.
maybe_comment : Parser (Unit {0})
maybe_comment [] = ok tt []
maybe_comment (c ∷ s) = if c == b'#' then skip_comment (c ∷ s) else ok tt (c ∷ s)

line_end : Parser (Unit {0})
line_end [] = ok tt []
line_end (c ∷ s) =
    if c == b'\n'
    then ok tt (adv 1 (c ∷ s))
    else if c == b'\r' && next_is b'\n' s
    then ok tt (adv 2 (c ∷ s))
    else syntax newline_after_value (c ∷ s)

unfoldable pub finish_line : Parser (Unit {0})
unfolding maybe_comment line_end
finish_line = do skip_ws; maybe_comment; line_end

-- One round of `skip_array_gap`, at the byte behind the spaces and tabs. The inner `while` tests
-- the two bytes itself.
blank : ℕ → Bool
blank c = c == b' ' || c == b'\t'

skip_blank : Bytes → Bytes
unfolding blank
skip_blank [] = []
skip_blank (c ∷ s) = if blank c then skip_blank s else c ∷ s

array_gap_at : Bytes → Turn Bytes (Result (Unit {0}))
array_gap_at [] = leave (ok tt [])
array_gap_at (c ∷ s) =
    if c == b'\n'
    then again s
    else if c == b'#'
    then leave (skip_ws_nl (c ∷ s))
    else if c == b'\r'
    then leave (skip_ws_nl (c ∷ s))
    else leave (ok tt (c ∷ s))

array_gap_turn : Bytes → Turn Bytes (Result (Unit {0}))
unfolding skip_blank array_gap_at
array_gap_turn s = array_gap_at (skip_blank s)

unfoldable pub skip_array_gap : Parser (Unit {0})
unfolding array_gap_turn
skip_array_gap = run stuck array_gap_turn length
