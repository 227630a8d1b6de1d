-- ===== src/Parse/Document.antt =====
-- src/teptris/parse/parser.c: the headers (try_header_fast, parse_header) and the main loop,
-- teptris_parser_run.
pub mod Keeps
pub mod Lines
use teptris.Base.{
  ℕ, zero, suc, ◌+◌, ◌-◌, Bool, true, false, not, ◌&&◌, ◌||◌, List, [], ◌∷◌, Option, none, some,
  Bytes, length, ltb, ◌==◌, if◌then◌else◌,
}
use teptris.Dom.Table.{empty}
use teptris.Dom.Document.{tbl_explicit, Node, table}
use teptris.Parse.Containers.{equals_sign, keyval, value_within}
use teptris.Parse.Cursor.{adv, next_is, skip_ws, skip_comment, finish_line}
use teptris.Parse.Floats.{Doubles, text_of}
use teptris.Parse.Keys.{bare_key, behind_bare_key, parse_key_path}
use teptris.Parse.Paths.{new_table, resolve_header, resolve_fast, root}
use teptris.Parse.Result.{
  Result, ok, fail, stuck, overrun, Parser, err_syntax, err_encoding, expected_close,
  expected_double_close, lone_cr, invalid_utf8,
}
use teptris.Parse.Steps.{State, Action, ◌>>=◌, ◌>>◌, return, lift, rounds}
use teptris.Parse.Utf8.{validate_utf8}

-- The segments of `[a.b.c]` and what is behind them, `none` where the shape is another one. The
-- buffer has room for `n` of them.
unfoldable pub segments : ℕ → Bytes → Option (List Bytes × Bytes)
unfolding bare_key behind_bare_key
segments zero s = none
segments (suc n) s =
    let rest = behind_bare_key s in
    let more = segments n (adv 1 rest) in
    if length (bare_key s) == 0
    then none
    else if next_is b'.' rest
    then elim more [ none ↦ none | some (parts, end) ↦ some (bare_key s ∷ parts, end) ]
    else some (bare_key s ∷ [], rest)

-- The header's text, its parts and what is behind the bracket.
pub record Header : Type 0 where
  pub path : Bytes
  pub parts : List Bytes
  pub rest : Bytes

abbrev pub header_end : Bytes → Option (List Bytes × Bytes) → Option Header
header_end s none = none
header_end s (some (parts, end)) =
    if next_is b']' end
    then some (record { path = text_of s end; parts = parts; rest = adv 1 end })
    else none

unfoldable pub header_shape : Bytes → Option Header
unfolding segments
header_shape s =
    if next_is b'[' s && not (next_is b'[' (adv 1 s))
    then header_end (adv 1 s) (segments 8 (adv 1 s))
    else none

module _ {D : Type 0} where
  -- The fast path leaves the cursor at the header when it leaves the header to the general one.
  abbrev pub back_to : Bytes → Result (Option ℕ × State D) → Result (Option ℕ × State D)
  back_to s (ok (none, ps) rest) = ok (none, ps) s
  back_to s (ok (some id, ps) rest) = ok (some id, ps) rest
  back_to s (fail st why rest) = fail st why rest
  back_to s stuck = stuck
  back_to s overrun = overrun

  unfoldable pub try_header_fast : Action D (Option ℕ)
  unfolding header_shape resolve_fast
  try_header_fast ps s = elim (header_shape s) [
    | none ↦ ok (none, ps) s
    | some h ↦ back_to s (resolve_fast h.parts (record ps { cur_path = h.path }) h.rest)
  ]

  abbrev pub close_header : Bool → Action D (Unit {0})
  close_header aot ps s =
      if next_is b']' s && (not aot || next_is b']' (adv 1 s))
      then ok (tt, ps) (adv (if aot then 2 else 1) s)
      else fail err_syntax (if aot then expected_double_close else expected_close) s

  abbrev pub set_path : Bytes → Action D (Unit {0})
  set_path path ps s = ok (tt, record ps { cur_path = path }) s

  -- `ps->p`
  abbrev pub cursor : Action D Bytes
  cursor ps s = ok (s, ps) s

  -- Behind the brackets that open the header.
  unfoldable pub header_body : ℕ → Bool → Action D ℕ
  unfolding skip_ws parse_key_path resolve_header
  header_body max_depth aot = do
    hstart ← cursor
    lift skip_ws
    parts ← lift (parse_key_path max_depth)
    lift skip_ws
    hend ← cursor
    close_header aot
    target ← resolve_header aot parts
    set_path (text_of hstart hend)
    return target

  unfoldable pub parse_header : ℕ → Action D ℕ
  unfolding header_body
  parse_header max_depth ps s =
      let aot = next_is b'[' (adv 1 s) in
      header_body max_depth aot ps (adv (if aot then 2 else 1) s)

  abbrev pub header_done : ℕ → Option ℕ → Action D ℕ
  header_done max_depth none = parse_header max_depth
  header_done max_depth (some id) = return id

  -- A line that begins with a bracket: the table that comes to be `ps->cur`.
  unfoldable pub header : ℕ → Action D ℕ
  unfolding try_header_fast parse_header
  header max_depth = try_header_fast >>= header_done max_depth

abbrev pub start : {D : Type 0} → State D
start = record { nodes = new_table tbl_explicit ∷ []; cur_path = [] }

-- Behind a byte order mark, if there is one.
abbrev pub behind_mark : Bytes → Bytes
behind_mark (a ∷ b ∷ d ∷ s) = if a == 0xEF && b == 0xBB && d == 0xBF then s else a ∷ b ∷ d ∷ s
behind_mark s = s

module _ {D : Type 0} (c : Doubles D) (max_depth : ℕ) where
  -- `parse_keyval`, into the table `ps->cur`.
  unfoldable pub parse_keyval : ℕ → Action D (Unit {0})
  unfolding keyval value_within
  parse_keyval = keyval c max_depth (value_within c max_depth max_depth)

  -- A round of the main loop with `ps->cur`, at the byte behind the blanks; `none` at the end of the
  -- text.
  abbrev pub line_at : ℕ → Action D (Option ℕ)
  line_at cur ps [] = ok (none, ps) []
  line_at cur ps (b ∷ s) =
      if b == b'\n'
      then ok (some cur, ps) s
      else if b == b'\r'
      then (if next_is b'\n' s
          then ok (some cur, ps) (adv 1 s)
          else fail err_syntax lone_cr (b ∷ s))
      else if b == b'#'
      then (lift skip_comment >> return (some cur)) ps (b ∷ s)
      else if b == b'['
      then (header max_depth >>= λ target. lift finish_line >> return (some target)) ps (b ∷ s)
      else (parse_keyval cur >> (lift finish_line >> return (some cur))) ps (b ∷ s)

  unfoldable pub line_round : ℕ → Action D (Option ℕ)
  unfolding parse_keyval header skip_ws finish_line skip_comment
  line_round cur = lift skip_ws >> line_at cur

-- `ps.max_depth`
abbrev pub depth_of : ℕ → ℕ
depth_of max_depth = if max_depth == 0 then 512 else max_depth

-- The limit is that of the document; a failure of the encoding has a position of its own
-- (Parse/Utf8).
unfoldable pub parser_run : {D : Type 0} → Doubles D → ℕ → Bytes → Result (Unit {0} × State D)
unfolding validate_utf8 line_round rounds
parser_run c max_depth s = elim (validate_utf8 s) [
  | some at ↦ fail err_encoding invalid_utf8 s
  | none ↦ rounds (line_round c (depth_of max_depth)) root start (behind_mark s)
]
