-- ===== src/Parse/Paths.antt =====
-- src/teptris/parse/parser.c: the tables that a dotted key and a header lead to.
pub mod Keeps
pub mod Headers
use teptris.Base.{
  ℕ, zero, suc, Bool, true, false, List, [], ◌∷◌, Option, none, some, Bytes, if◌then◌else◌,
}
use teptris.Dom.Table.{Table, empty, Probe, found, absent, lost}
use teptris.Dom.Document.{
  TableKind, tbl_explicit, tbl_implicit, tbl_dotted, tbl_inline, Node, table, array, leaf,
  last_item,
}
use teptris.Parse.Result.{
  err_semantic, err_state, not_a_table, inline_table_is_fixed, header_table_is_fixed, duplicate_key,
  duplicate_key_in_table, plain_array_is_fixed, corrupt_array_of_tables, not_an_array_of_tables,
  table_defined_twice, ok, fail, stuck,
}
use teptris.Parse.Steps.{
  State, Action, ◌>>=◌, ◌>>◌, return, fail_at, undefined, make, the_node, put, probe, insert, push,
}

-- `doc->root`
abbrev pub root : ℕ
root = 0

abbrev pub is_many : List Bytes → Bool
is_many [] = false
is_many (p ∷ ps) = true

module _ {D : Type 0} where
  abbrev pub new_table : TableKind → Node D
  new_table k = table k empty

  -- A new table under a key.
  unfoldable pub add_table : TableKind → ℕ → Bytes → Option ℕ → Action D ℕ
  unfolding make insert
  add_table k t key slot = do child ← make (new_table k); insert t key child slot; return child

  -- The loop over the parts in front of the last.
  unfoldable pub follow : (ℕ → Bytes → Action D ℕ) → ℕ → Bytes → List Bytes → Action D (ℕ × Bytes)
  follow step t part [] = return (t, part)
  follow step t part (next ∷ parts) = step t part >>= λ t'. follow step t' next parts

  -- An intermediate of a dotted key.
  abbrev pub dotted_child : ℕ → Node D → Action D ℕ
  dotted_child id (table tbl_inline t) = fail_at err_semantic inline_table_is_fixed
  dotted_child id (table tbl_implicit t) = fail_at err_semantic header_table_is_fixed
  dotted_child id (table tbl_explicit t) = fail_at err_semantic header_table_is_fixed
  dotted_child id (table tbl_dotted t) = return id
  dotted_child id (array aot items) = fail_at err_semantic not_a_table
  dotted_child id (leaf v) = fail_at err_semantic not_a_table

  abbrev pub dotted_at : ℕ → Bytes → Probe ℕ → Action D ℕ
  dotted_at t part (found e) = the_node e.value >>= dotted_child e.value
  dotted_at t part (absent slot) = add_table tbl_dotted t part slot
  dotted_at t part lost = undefined

  unfoldable pub dotted_step : ℕ → Bytes → Action D ℕ
  unfolding probe the_node add_table
  dotted_step t part = probe t part >>= dotted_at t part

  abbrev pub last_at : Bool → ℕ → Bytes → ℕ → Probe ℕ → Action D (Unit {0})
  last_at in_table t last value (found e) =
      fail_at err_semantic (if in_table then duplicate_key_in_table else duplicate_key)
  last_at in_table t last value (absent slot) = insert t last value slot
  last_at in_table t last value lost = undefined

  unfoldable pub dotted_last : Bool → ℕ → Bytes → ℕ → Action D (Unit {0})
  unfolding probe insert
  dotted_last in_table t last value = probe t last >>= last_at in_table t last value

  unfoldable pub insert_dotted : ℕ → List Bytes → ℕ → Action D (Unit {0})
  unfolding follow dotted_step dotted_last
  insert_dotted t [] value = undefined
  insert_dotted t (part ∷ parts) value =
      follow dotted_step t part parts >>= λ r. dotted_last (is_many parts) r.0 r.1 value

  -- The last element of an array of tables; the fast path does not look at its kind.
  abbrev pub last_table : Bool → ℕ → Node D → Action D ℕ
  last_table checked id (table k t) = return id
  last_table checked id (array aot items) =
      if checked then fail_at err_state corrupt_array_of_tables else return id
  last_table checked id (leaf v) =
      if checked then fail_at err_state corrupt_array_of_tables else return id

  abbrev pub last_element : Bool → Option ℕ → Action D ℕ
  last_element checked none = undefined
  last_element checked (some id) = the_node id >>= last_table checked id

  -- An intermediate of a header path.
  abbrev pub header_child : Bool → ℕ → Node D → Action D ℕ
  header_child checked id (array false items) = fail_at err_semantic plain_array_is_fixed
  header_child checked id (array true items) = last_element checked (last_item items)
  header_child checked id (table tbl_inline t) = fail_at err_semantic inline_table_is_fixed
  header_child checked id (table tbl_implicit t) = return id
  header_child checked id (table tbl_explicit t) = return id
  header_child checked id (table tbl_dotted t) = return id
  header_child checked id (leaf v) = fail_at err_semantic not_a_table

  abbrev pub header_at : Bool → ℕ → Bytes → Probe ℕ → Action D ℕ
  header_at checked t part (found e) = the_node e.value >>= header_child checked e.value
  header_at checked t part (absent slot) = add_table tbl_implicit t part slot
  header_at checked t part lost = undefined

  unfoldable pub header_step : Bool → ℕ → Bytes → Action D ℕ
  unfolding probe the_node add_table
  header_step checked t part = probe t part >>= header_at checked t part

  abbrev pub the_aot : ℕ → Node D → Action D ℕ
  the_aot id (array true items) = return id
  the_aot id (array false items) = fail_at err_semantic not_an_array_of_tables
  the_aot id (table k t) = fail_at err_semantic not_an_array_of_tables
  the_aot id (leaf v) = fail_at err_semantic not_an_array_of_tables

  abbrev pub aot_at : ℕ → Bytes → Probe ℕ → Action D ℕ
  aot_at t last (found e) = the_node e.value >>= the_aot e.value
  aot_at t last (absent slot) = do arr ← make (array true []); insert t last arr slot; return arr
  aot_at t last lost = undefined

  -- `[[...]]`
  unfoldable pub aot_end : ℕ → Bytes → Action D ℕ
  unfolding probe the_node make insert push
  aot_end t last = do
    p ← probe t last
    arr ← aot_at t last p
    elem ← make (new_table tbl_explicit)
    push arr elem
    return elem

  abbrev pub redefined : ℕ → Node D → Action D ℕ
  redefined id (table tbl_implicit t) = put id (table tbl_explicit t) >> return id
  redefined id (table tbl_explicit t) = fail_at err_semantic table_defined_twice
  redefined id (table tbl_dotted t) = fail_at err_semantic table_defined_twice
  redefined id (table tbl_inline t) = fail_at err_semantic table_defined_twice
  redefined id (array aot items) = fail_at err_semantic table_defined_twice
  redefined id (leaf v) = fail_at err_semantic table_defined_twice

  abbrev pub table_at : ℕ → Bytes → Probe ℕ → Action D ℕ
  table_at t last (found e) = the_node e.value >>= redefined e.value
  table_at t last (absent slot) = add_table tbl_explicit t last slot
  table_at t last lost = undefined

  -- `[...]`
  unfoldable pub table_end : ℕ → Bytes → Action D ℕ
  unfolding probe the_node put add_table
  table_end t last = probe t last >>= table_at t last

  unfoldable pub resolve_header : Bool → List Bytes → Action D ℕ
  unfolding follow header_step aot_end table_end
  resolve_header aot [] = undefined
  resolve_header aot (part ∷ parts) = follow (header_step true) root part parts >>= λ r.
      if aot then aot_end r.0 r.1 else table_end r.0 r.1

  -- The end of the fast path; `none` leaves the header to the general one.
  abbrev pub fast_at : ℕ → Bytes → Probe ℕ → Action D (Option ℕ)
  fast_at t last (found e) = return none
  fast_at t last (absent slot) = add_table tbl_explicit t last slot >>= λ id. return (some id)
  fast_at t last lost = undefined

  unfoldable pub fast_end : ℕ → Bytes → Action D (Option ℕ)
  unfolding probe add_table
  fast_end t last = probe t last >>= fast_at t last

  unfoldable pub resolve_fast : List Bytes → Action D (Option ℕ)
  unfolding follow header_step fast_end
  resolve_fast [] = undefined
  resolve_fast (part ∷ parts) = follow (header_step false) root part parts >>= λ r. fast_end r.0 r.1
