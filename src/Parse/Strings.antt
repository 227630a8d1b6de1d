-- ===== src/Parse/Strings.antt =====
-- src/teptris/parse/scalars.c: the bodies of basic and literal strings. A scan keeps the cursor and
-- what it has put out; the count-only pass of the C code is the length of that.
pub mod Progress
pub mod Values
use Prim.Native.Nat.{bit_or}
use teptris.Base.{
  ℕ, zero, suc, ◌+◌, ◌-◌, ◌*◌, ◌%◌, Bool, true, false, not, ◌&&◌, ◌||◌, List, [], ◌∷◌, ◌++◌, Bytes,
  length, drop, replicate, ltb, leb, ◌==◌, if◌then◌else◌, Turn, again, leave, run, loop,
}
use teptris.Common.Chartype.{is_hex}
use teptris.Parse.Cursor.{next_is, is_control, adv}
use teptris.Parse.Result.{
  Status, err_syntax, Reason, unterminated_string, unterminated_escape, too_many_quotes,
  invalid_escape, control_in_string, invalid_unicode_escape, invalid_unicode_scalar, Result, ok,
  fail, stuck, overrun, Parser, syntax,
}
use teptris.Parse.Utf8.{utf8_put}

-- The loop's variables.
pub record Scan : Type 0 where
  pub rest : Bytes
  pub out : Bytes

abbrev pub Next : Type 0
Next = Turn Scan (Result Bytes)

-- `PUTCH` and `tep_adv`, and go on.
abbrev pub put : Bytes → Bytes → Bytes → Next
put rest out bytes = again (record { rest = rest; out = out ++ bytes })

abbrev pub reject : Reason → Bytes → Next
reject why at = leave (fail err_syntax why at)

-- `(c <= '9') ? c - '0' : (c | 0x20) - 'a' + 10`, as an `unsigned` of 32 bits, of a `char` below 128.
unfoldable pub hexval : ℕ → ℕ
hexval c =
    if leb c b'9'
    then (4294967296 + c - b'0') % 4294967296
    else (4294967296 + bit_or c 0x20 - b'a' + 10) % 4294967296

-- Eight digits at most, so `v` stays below 2 ^ 32.
unfoldable pub read_hex : ℕ → ℕ → Parser ℕ
unfolding hexval
read_hex zero v s = ok v s
read_hex (suc digits) v [] = syntax invalid_unicode_escape []
read_hex (suc digits) v (c ∷ s) =
    if is_hex c
    then read_hex digits (v * 16 + hexval c) s
    else syntax invalid_unicode_escape (c ∷ s)

unfoldable pub quote_run : ℕ → Bytes → ℕ
quote_run q [] = 0
quote_run q (c ∷ s) = if c == q then suc (quote_run q s) else 0

-- A quote in a multi-line string.
unfoldable pub close_multiline : ℕ → Bytes → Bytes → Next
unfolding quote_run
close_multiline q s out =
    let n = quote_run q s in
    let out' = out ++ replicate (if leb 3 n then n - 3 else n) q in
    if leb 6 n
    then reject too_many_quotes s
    else if leb n 2
    then again (record { rest = adv n s; out = out' })
    else leave (ok out' (adv n s))

abbrev blank : ℕ → Bool
blank c = c == b' ' || c == b'\t'

skip_blanks : Bytes → Bytes
skip_blanks [] = []
skip_blanks (c ∷ s) = if blank c then skip_blanks s else c ∷ s

at_newline : Bytes → Bool
at_newline [] = false
at_newline (c ∷ s) = c == b'\n' || (c == b'\r' && next_is b'\n' s)

skip_lines : Bytes → Bytes
skip_lines [] = []
skip_lines (c ∷ []) = if blank c || c == b'\n' then [] else c ∷ []
skip_lines (c ∷ d ∷ s) =
    let one = skip_lines (d ∷ s) in
    let two = skip_lines s in
    if blank c || c == b'\n' then one else if c == b'\r' && d == b'\n' then two else c ∷ d ∷ s

-- A backslash before the end of the line.
line_ending : Bytes → Bytes → Next
unfolding skip_blanks at_newline skip_lines
line_ending s out =
    if at_newline (skip_blanks s)
    then again (record { rest = skip_lines s; out = out })
    else reject invalid_escape s

code_point : Bool → Bytes → Result ℕ → Next
code_point scalar out (ok cp s) =
    if scalar && ((leb 0xD800 cp && leb cp 0xDFFF) || ltb 0x10FFFF cp)
    then reject invalid_unicode_scalar s
    else put s out (utf8_put cp)
code_point scalar out (fail st why s) = leave (fail st why s)
code_point scalar out stuck = leave stuck
code_point scalar out overrun = leave overrun

-- The `switch` on the byte behind the backslash.
escape_byte : ℕ → Bytes → Bytes → Next
escape_byte e s out =
    if e == b'b'
    then put s out (0x08 ∷ [])
    else if e == b't'
    then put s out (b'\t' ∷ [])
    else if e == b'n'
    then put s out (b'\n' ∷ [])
    else if e == b'f'
    then put s out (0x0C ∷ [])
    else if e == b'r'
    then put s out (b'\r' ∷ [])
    else if e == b'"'
    then put s out (b'"' ∷ [])
    else if e == b'\\'
    then put s out (b'\\' ∷ [])
    else if e == b'e'
    then put s out (0x1B ∷ [])
    else if e == b'x'
    then code_point false out (read_hex 2 0 s)
    else if e == b'u'
    then code_point true out (read_hex 4 0 s)
    else if e == b'U'
    then code_point true out (read_hex 8 0 s)
    else reject invalid_escape (e ∷ s)

unfoldable pub escape : Bool → Bytes → Bytes → Next
unfolding line_ending escape_byte code_point
escape ml [] out = reject unterminated_escape []
escape ml (e ∷ s) out =
    if ml && (blank e || e == b'\n' || e == b'\r')
    then line_ending (e ∷ s) out
    else escape_byte e s out

-- The bytes that basic and literal strings treat alike.
unfoldable pub plain_byte : Bool → ℕ → Bytes → Bytes → Next
plain_byte ml c s out =
    if c == b'\n'
    then (if ml then put s out (b'\n' ∷ []) else reject unterminated_string (c ∷ s))
    else if c == b'\r'
    then (if ml && next_is b'\n' s
        then put (adv 1 s) out (b'\n' ∷ [])
        else reject control_in_string (c ∷ s))
    else if is_control c
    then reject control_in_string (c ∷ s)
    else put s out (c ∷ [])

basic_at : Bool → Bytes → Bytes → Next
unfolding close_multiline escape plain_byte
basic_at ml [] out = reject unterminated_string []
basic_at ml (c ∷ s) out =
    if c == b'"'
    then (if ml then close_multiline b'"' (c ∷ s) out else leave (ok out s))
    else if c == b'\\'
    then escape ml s out
    else plain_byte ml c s out

literal_at : Bool → Bytes → Bytes → Next
unfolding close_multiline plain_byte
literal_at ml [] out = reject unterminated_string []
literal_at ml (c ∷ s) out =
    if c == b'\''
    then (if ml then close_multiline b'\'' (c ∷ s) out else leave (ok out s))
    else plain_byte ml c s out

unfoldable pub basic_turn : Bool → Scan → Next
unfolding basic_at
basic_turn ml v = basic_at ml v.rest v.out

unfoldable pub literal_turn : Bool → Scan → Next
unfolding literal_at
literal_turn ml v = literal_at ml v.rest v.out

abbrev pub left : Scan → ℕ
left v = length v.rest

abbrev pub start : Bytes → Scan
start s = record { rest = s; out = [] }

unfoldable pub scan_basic : Bool → Parser Bytes
unfolding basic_turn run loop read_hex is_hex utf8_put
scan_basic ml s = run stuck (basic_turn ml) left (start s)

unfoldable pub scan_literal : Bool → Parser Bytes
unfolding literal_turn run loop
scan_literal ml s = run stuck (literal_turn ml) left (start s)
