-- ===== src/Parse/Keys.antt =====
-- src/teptris/parse/keys.c: dotted key paths. The parts are a list; how the array of views grows is
-- left out, and the arena is taken to have room.
pub mod Progress
use teptris.Base.{
  ℕ, Bool, true, false, ◌&&◌, ◌||◌, List, [], ◌∷◌, ◌++◌, Bytes, length, ltb, ◌==◌, if◌then◌else◌,
  Turn, again, leave, run, loop,
}
use teptris.Common.Chartype.{is_barekey}
use teptris.Parse.Cursor.{adv, skip_ws}
use teptris.Parse.Result.{
  Result, ok, fail, stuck, overrun, Parser, err_syntax, err_depth, expected_key,
  expected_bare_or_quoted, key_path_too_deep, syntax,
}
use teptris.Parse.Strings.Values.{quoted_key}

-- The loop over a bare key: what it reads, and what is left.
unfoldable pub bare_key : Bytes → Bytes
bare_key [] = []
bare_key (c ∷ s) = if is_barekey c then c ∷ bare_key s else []

unfoldable pub behind_bare_key : Bytes → Bytes
behind_bare_key [] = []
behind_bare_key (c ∷ s) = if is_barekey c then behind_bare_key s else c ∷ s

unfoldable pub key_component : Parser Bytes
unfolding bare_key behind_bare_key
key_component [] = syntax expected_key []
key_component (c ∷ s) =
    if c == b'"' || c == b'\''
    then quoted_key (c ∷ s)
    else if is_barekey c
    then ok (bare_key (c ∷ s)) (behind_bare_key (c ∷ s))
    else syntax expected_bare_or_quoted (c ∷ s)

-- The loop's variables: the cursor, and the parts read.
pub record PathScan : Type 0 where
  pub rest : Bytes
  pub parts : List Bytes

abbrev pub PathTurn : Type 0
PathTurn = Turn PathScan (Result (List Bytes))

-- At the byte behind a part and the blanks that follow it.
unfoldable pub part_end : List Bytes → Bytes → PathTurn
part_end parts [] = leave (ok parts [])
part_end parts (c ∷ s) =
    if c == b'.'
    then again (record { rest = adv 1 (c ∷ s); parts = parts })
    else leave (ok parts (c ∷ s))

-- The cursor that `tep_skip_ws` leaves; it never fails.
abbrev pub cursor_of : Result (Unit {0}) → Bytes
cursor_of (ok _ rest) = rest
cursor_of (fail _ _ rest) = rest
cursor_of stuck = []
cursor_of overrun = []

unfoldable pub behind_ws : Bytes → Bytes
unfolding skip_ws
behind_ws s = cursor_of (skip_ws s)

unfoldable pub part_read : ℕ → List Bytes → Result Bytes → PathTurn
unfolding part_end behind_ws
part_read max_depth parts (fail st why rest) = leave (fail st why rest)
part_read max_depth parts stuck = leave stuck
part_read max_depth parts overrun = leave overrun
part_read max_depth parts (ok key rest) =
    let parts' = parts ++ key ∷ [] in
    if ltb max_depth (length parts')
    then leave (fail err_depth key_path_too_deep rest)
    else part_end parts' (behind_ws rest)

unfoldable pub path_turn : ℕ → PathScan → PathTurn
unfolding part_read behind_ws key_component
path_turn max_depth v = part_read max_depth v.parts (key_component (behind_ws v.rest))

unfoldable pub parse_key_path : ℕ → Parser (List Bytes)
unfolding path_turn run loop
parse_key_path max_depth s =
    run stuck (path_turn max_depth) (λ v. length v.rest) (record { rest = s; parts = [] })
