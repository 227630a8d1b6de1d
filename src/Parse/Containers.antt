-- ===== src/Parse/Containers.antt =====
-- src/teptris/parse: values of every kind (scalars.c: teptris_parse_value, teptris_parse_value_fast)
-- and what holds them (parser.c: try_keyval_fast, teptris_parse_array, teptris_parse_inline). The
-- levels of nesting that are left stand for `ps->depth`.
pub mod Scalars
pub mod Keeps
pub mod Loops
pub mod Fast
use teptris.Base.{
  ℕ, zero, suc, ◌+◌, ◌-◌, ◌*◌, ◌%◌, Bool, true, false, not, ◌&&◌, ◌||◌, List, [], ◌∷◌, Option, none,
  some, Bytes, codes, length, ltb, leb, ◌==◌, if◌then◌else◌, pos,
}
use teptris.Common.Chartype.{is_barekey, is_dec}
use teptris.Dom.Table.{empty, Probe, found, absent, lost}
use teptris.Dom.Document.{
  TableKind, tbl_inline, Scalar, text, number, boolean, moment, Node, table, array, leaf,
}
use teptris.Parse.Cursor.{adv, next_is, skip_ws, skip_array_gap}
use teptris.Parse.Datetime.{Kind, Datetime, datetime_lookahead, parse_datetime}
use teptris.Parse.Floats.{Doubles, Numeric, whole}
use teptris.Parse.Floats
use teptris.Parse.Keys.{bare_key, behind_bare_key, parse_key_path}
use teptris.Parse.Numbers.{begins_float, dec_run, behind_dec_run, wrapping, expect_word}
use teptris.Parse.Paths.{insert_dotted, is_many}
use teptris.Parse.Result.{
  Result, ok, fail, stuck, Parser, err_syntax, err_semantic, err_depth, duplicate_key,
  duplicate_key_in_table, expected_equals, expected_value, nesting_too_deep, unterminated_array,
  expected_comma_or_bracket, unterminated_inline, expected_comma_or_brace,
}
use teptris.Parse.Steps.{
  State, Action, ◌>>=◌, ◌>>◌, return, fail_at, undefined, lift, make, probe, insert, push, rounds,
}
use teptris.Parse.Strings.Values.{parse_string}

-- What is behind the spaces and tabs that try_keyval_fast tests for.
abbrev pub behind_blanks : Bytes → Bytes
behind_blanks [] = []
behind_blanks (c ∷ s) =
    let rest = behind_blanks s in if c == b' ' || c == b'\t' then rest else c ∷ s

-- A bare key, `=` and what is behind it, where a line has the shape of try_keyval_fast.
unfoldable pub keyval_shape : Bytes → Option (Bytes × Bytes)
unfolding bare_key behind_bare_key
keyval_shape s =
    let s' = behind_blanks (behind_bare_key s) in
    if ltb 0 (length (bare_key s)) && next_is b'=' s'
    then some (bare_key s, behind_blanks (adv 1 s'))
    else none

-- A plain integer of at most 18 digits.
unfoldable pub is_plain_integer : Bytes → Bool
unfolding dec_run behind_dec_run
is_plain_integer s =
    leb (length (dec_run s)) 18
    && not (next_is b'0' s)
    && not (begins_float (behind_dec_run s) || next_is b'_' (behind_dec_run s))

abbrev pub starts_dec : Bytes → Bool
starts_dec [] = false
starts_dec (c ∷ s) = is_dec c

-- `ps->p < ps->end && *ps->p == c`, and the step past it.
module _ {D : Type 0} where
  -- The byte that has to come next.
  abbrev pub equals_sign : Action D (Unit {0})
  equals_sign ps s =
      if next_is b'=' s then ok (tt, ps) (adv 1 s) else fail err_syntax expected_equals s

  abbrev pub skip : ℕ → Action D (Unit {0})
  skip n ps s = ok (tt, ps) (adv n s)

module _ {D : Type 0} (c : Doubles D) (max_depth : ℕ) where
  number_leaf : Bool → Action D ℕ
  unfolding Floats.number
  number_leaf signed_input = lift (Floats.number c signed_input) >>= λ n. make (leaf (number n))

  datetime_leaf : Action D ℕ
  unfolding parse_datetime
  datetime_leaf = lift parse_datetime >>= λ kd. make (leaf (moment kd.0 kd.1))

  string_leaf : Action D ℕ
  unfolding parse_string
  string_leaf = lift parse_string >>= λ str. make (leaf (text str))

  boolean_leaf : Bool → Action D ℕ
  unfolding expect_word
  boolean_leaf b =
      lift (expect_word (if b then codes "true" else codes "false")) >> make (leaf (boolean b))

  plain_integer : Parser (Numeric D)
  unfolding wrapping dec_run behind_dec_run
  plain_integer s = ok (whole (pos (wrapping 0 (dec_run s)))) (behind_dec_run s)

  plain_leaf : Action D ℕ
  unfolding plain_integer
  plain_leaf = lift plain_integer >>= λ n. make (leaf (number n))

  -- The dispatch, with the routines for `[` and `{`.
  unfoldable pub value_at : Action D ℕ → Action D ℕ → Action D ℕ
  unfolding number_leaf datetime_leaf string_leaf boolean_leaf
  value_at parse_array parse_inline ps [] = fail err_syntax expected_value []
  value_at parse_array parse_inline ps (b ∷ s) =
      (if b == b'"' || b == b'\''
          then string_leaf
          else if b == b'['
          then parse_array
          else if b == b'{'
          then parse_inline
          else if b == b't' || b == b'f'
          then boolean_leaf (b == b't')
          else if b == b'i' || b == b'n'
          then number_leaf false
          else if b == b'+' || b == b'-'
          then number_leaf true
          else if datetime_lookahead (b ∷ s)
          then datetime_leaf
          else if is_dec b
          then number_leaf false
          else fail_at err_syntax expected_value)
        ps (b ∷ s)

  module _ (parse_value : Action D ℕ) where
    -- `teptris_parse_value_fast`
    unfoldable pub value_fast : Action D ℕ
    unfolding number_leaf datetime_leaf plain_leaf is_plain_integer
    value_fast ps s =
        (if not (starts_dec s)
            then parse_value
            else if datetime_lookahead s
            then datetime_leaf
            else if is_plain_integer s
            then plain_leaf
            else number_leaf false)
          ps s

    -- The duplicate is reported with the header, where there is one.
    abbrev pub fast_insert_at : ℕ → Bytes → ℕ → Probe ℕ → Action D (Unit {0})
    fast_insert_at tbl key value (found e) = λ ps s.
        fail err_semantic
          (if ltb 0 (length ps.cur_path) then duplicate_key_in_table else duplicate_key) s
    fast_insert_at tbl key value (absent slot) = insert tbl key value slot
    fast_insert_at tbl key value lost = undefined

    -- `try_keyval_fast`, where the shape is there.
    unfoldable pub keyval_fast : ℕ → Bytes → Action D (Unit {0})
    unfolding value_fast probe insert
    keyval_fast tbl key = do value ← value_fast; p ← probe tbl key; fast_insert_at tbl key value p

    -- The general path.
    unfoldable pub keyval_general : ℕ → Action D (Unit {0})
    unfolding insert_dotted parse_key_path
    keyval_general tbl = do
      parts ← lift (parse_key_path max_depth)
      lift skip_ws
      equals_sign
      lift skip_ws
      value ← parse_value
      insert_dotted tbl parts value

    unfoldable pub keyval : ℕ → Action D (Unit {0})
    unfolding keyval_shape keyval_fast keyval_general
    keyval tbl ps s = elim (keyval_shape s) [
      | none ↦ keyval_general tbl ps s
      | some (key, rest) ↦ keyval_fast tbl key ps rest
    ]

    -- Behind an element: a comma, or the end.
    abbrev pub array_next : Action D (Option (Unit {0}))
    array_next ps s =
        if next_is b',' s
        then ok (some tt, ps) (adv 1 s)
        else if next_is b']' s
        then ok (none, ps) (adv 1 s)
        else fail err_syntax expected_comma_or_bracket s

    abbrev pub array_element : ℕ → Action D (Option (Unit {0}))
    array_element arr ps [] = fail err_syntax unterminated_array []
    array_element arr ps (b ∷ s) =
        if b == b']'
        then ok (none, ps) s
        else (do v ← value_fast; push arr v; lift skip_array_gap; array_next) ps (b ∷ s)

    -- A round of the loop: `none` where the array ends.
    unfoldable pub array_round : ℕ → Action D (Option (Unit {0}))
    unfolding value_fast push skip_array_gap
    array_round arr = lift skip_array_gap >> array_element arr

    abbrev pub inline_next : Action D (Option (Unit {0}))
    inline_next ps s =
        if next_is b',' s
        then ok (some tt, ps) (adv 1 s)
        else if next_is b'}' s
        then ok (none, ps) (adv 1 s)
        else fail err_syntax expected_comma_or_brace s

    abbrev pub inline_member : ℕ → Action D (Option (Unit {0}))
    inline_member tbl ps [] = fail err_syntax unterminated_inline []
    inline_member tbl ps (b ∷ s) =
        if b == b'}'
        then ok (none, ps) s
        else (do keyval tbl; lift skip_array_gap; inline_next) ps (b ∷ s)

    unfoldable pub inline_round : ℕ → Action D (Option (Unit {0}))
    unfolding keyval skip_array_gap
    inline_round tbl = lift skip_array_gap >> inline_member tbl

    -- `teptris_parse_array` and `teptris_parse_inline`, where the depth allows for one more.
    unfoldable pub parse_array : Action D ℕ
    unfolding array_round rounds make
    parse_array = do
      arr ← make (array false [])
      skip 1
      rounds (λ _. array_round arr) tt
      return arr

    unfoldable pub parse_inline : Action D ℕ
    unfolding inline_round rounds make
    parse_inline = do
      tbl ← make (table tbl_inline empty)
      skip 1
      rounds (λ _. inline_round tbl) tt
      return tbl

  abbrev pub too_deep : Node D → Action D ℕ
  too_deep n = make n >>= λ id. skip 1 >> fail_at err_depth nesting_too_deep

  -- `teptris_parse_value`, with the number of containers that may still be opened.
  unfoldable pub value_within : ℕ → Action D ℕ
  unfolding value_at parse_array parse_inline
  value_within zero = value_at (too_deep (array false [])) (too_deep (table tbl_inline empty))
  value_within (suc levels) =
      value_at (parse_array (value_within levels)) (parse_inline (value_within levels))
