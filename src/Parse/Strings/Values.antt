-- ===== src/Parse/Strings/Values.antt =====
-- String values and quoted keys: `teptris_try_plain_body` and `parse_string` of
-- src/teptris/parse/scalars.c, `quoted_key` of keys.c, and the scalar loop of `tep_simd_str_stop`
-- of src/teptris/common/simd.h. The arena is taken to have room.
pub mod Fast
use teptris.Base.{
  ℕ, zero, suc, ◌+◌, Bool, true, false, not, ◌&&◌, ◌||◌, List, [], ◌∷◌, Option, none, some, Bytes,
  length, take, drop, ltb, leb, ◌==◌, if◌then◌else◌,
}
use teptris.Parse.Cursor.{next_is, is_control, adv}
use teptris.Parse.Result.{Result, ok, fail, stuck, overrun, Parser}
use teptris.Parse.Strings.{scan_basic, scan_literal}

-- The C library's `memchr`: the offset of the first `q`.
pub memchr : ℕ → Bytes → Option ℕ
memchr q [] = none
memchr q (c ∷ s) =
    if c == q then some 0 else elim (memchr q s) [ none ↦ none | some n ↦ some (suc n) ]

pub str_stop : ℕ → ℕ → Bytes → ℕ
str_stop q e [] = 0
str_stop q e (c ∷ s) = if c == q || c == e || is_control c then 0 else suc (str_stop q e s)

-- The loop for short bodies.
pub plain_loop : ℕ → Bytes → Option ℕ
plain_loop close [] = none
plain_loop close (c ∷ s) =
    if c == close
    then some 0
    else if c == b'\\' || is_control c
    then none
    else elim (plain_loop close s) [ none ↦ none | some n ↦ some (suc n) ]

-- The two passes for long bodies: behind `memchr`, the check of the bytes before its hit.
pub after_memchr : ℕ → Bytes → Option ℕ → Option ℕ
unfolding str_stop
after_memchr close s none = none
after_memchr close s (some off) =
    if ltb (str_stop (if close == b'"' then b'\\' else 0) 0 (take off s)) off
    then none
    else some off

pub plain_long : ℕ → Bytes → Option ℕ
unfolding memchr after_memchr
plain_long close s = after_memchr close s (memchr close s)

-- The length of a body with no escape and no control byte.
unfoldable pub try_plain_body : ℕ → Bytes → Option ℕ
unfolding plain_long plain_loop
try_plain_body close s = if leb 32 (length s) then plain_long close s else plain_loop close s

-- The count-only pass, then the pass that writes, from the same cursor.
abbrev pub second_pass : Result Bytes → Result Bytes → Result Bytes
second_pass (ok _ _) writes = writes
second_pass (fail st why rest) writes = fail st why rest
second_pass stuck writes = stuck
second_pass overrun writes = overrun

abbrev pub two_passes : Parser Bytes → Parser Bytes
two_passes scan s = second_pass (scan s) (scan s)

unfoldable pub scan_body : Bool → Bool → Parser Bytes
scan_body basic ml = two_passes (if basic then scan_basic ml else scan_literal ml)

-- A newline directly behind the opening quotes is dropped.
abbrev pub skip_first_newline : Bytes → Bytes
skip_first_newline [] = []
skip_first_newline (c ∷ s) =
    if c == b'\r' && next_is b'\n' s
    then adv 2 (c ∷ s)
    else if c == b'\n'
    then adv 1 (c ∷ s)
    else c ∷ s

abbrev close_of : Bool → ℕ
close_of basic = if basic then b'"' else b'\''

-- A single-line string, or a quoted key, behind its opening quote.
unfoldable pub quoted_body : Bool → Parser Bytes
unfolding try_plain_body scan_body
quoted_body basic s = elim (try_plain_body (close_of basic) s) [
  | some n ↦ ok (take n s) (adv (n + 1) s)
  | none ↦ scan_body basic false s
]

abbrev pub opens_multiline : Bytes → Bool
opens_multiline (a ∷ b ∷ c ∷ s) = b == a && c == a
opens_multiline _ = false

-- `*ps->p == '"'`, at an opening quote.
abbrev pub opens_basic : Bytes → Bool
opens_basic [] = false
opens_basic (c ∷ s) = c == b'"'

unfoldable pub parse_string : Parser Bytes
unfolding quoted_body scan_body
parse_string s =
    let basic = opens_basic s in
    if opens_multiline s
    then scan_body basic true (skip_first_newline (adv 3 s))
    else quoted_body basic (adv 1 s)

unfoldable pub quoted_key : Parser Bytes
unfolding quoted_body
quoted_key s = quoted_body (opens_basic s) (adv 1 s)
