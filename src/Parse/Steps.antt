-- ===== src/Parse/Steps.antt =====
-- What the routines of src/teptris/parse/parser.c do to the parser and the document.
pub mod Keeps
use teptris.Base.{
  ℕ, zero, suc, ◌+◌, ◌-◌, Bool, true, false, List, [], ◌∷◌, ◌++◌, Option, none, some, Bytes, length,
  get_elem?, set, Turn, again, leave, run, loop,
}
use teptris.Dom.Table.{
  Table, empty, Probe, found, absent, lost, key_hash, probe_slot, table_insert_slot,
}
use teptris.Dom.Document.{TableKind, Scalar, Node, table, array, leaf, new_node, as_table, as_array}
use teptris.Parse.Result.{Status, Reason, Result, ok, fail, stuck, overrun, Parser}

-- The nodes of the document, and `ps->cur_path`, the text of the last header. The other fields of
-- `teptris_parser` are the cursor, `src` for the positions, the limits, and `cur`, which is a
-- variable of the main loop.
pub record State (D : Type 0) : Type 0 where
  pub nodes : List (Node D)
  pub cur_path : Bytes

-- A routine that has the parser and the document at hand. A failure ends the parse, and the document
-- is given up.
abbrev pub Action {ℓ} : Type 0 → Type ℓ → Type ℓ
Action D A = State D → Bytes → Result (A × State D)

infixl 5 ◌>>=◌ ◌>>◌
abbrev pub ◌>>=◌ {ℓ κ} :
    {D : Type 0} {A : Type ℓ} {B : Type κ} → Action D A → (A → Action D B) → Action D B
◌>>=◌ m k ps s = elim (m ps s) [
  | ok (a, ps') rest ↦ k a ps' rest
  | fail st why rest ↦ fail st why rest
  | stuck ↦ stuck
  | overrun ↦ overrun
]

abbrev pub ◌>>◌ {ℓ} : {D : Type 0} {B : Type ℓ} → Action D (Unit {0}) → Action D B → Action D B
m >> k = m >>= λ _. k

module _ {ℓ} {D : Type 0} {A : Type ℓ} where
  abbrev pub return : A → Action D A
  return a ps s = ok (a, ps) s

  -- `tep_fail_at(ps, NULL, ...)`
  abbrev pub fail_at : Status → Reason → Action D A
  fail_at st why ps s = fail st why s

  abbrev pub undefined : Action D A
  undefined ps s = stuck

  -- A routine that leaves the document alone.
  abbrev pub lift : Parser A → Action D A
  lift m ps s = elim (m s) [
    | ok a rest ↦ ok (a, ps) rest
    | fail st why rest ↦ fail st why rest
    | stuck ↦ stuck
    | overrun ↦ overrun
  ]

module _ {D : Type 0} where
  -- A new node.
  unfoldable pub make : Node D → Action D ℕ
  make n ps s = ok (length ps.nodes, record ps { nodes = new_node ps.nodes n }) s

  -- The table of a node; what the code reads from another node is undefined.
  unfoldable pub the_table : ℕ → Action D (TableKind × Table ℕ)
  the_table id ps s = elim (as_table (get_elem? ps.nodes id)) [
    | none ↦ stuck
    | some kt ↦ ok (kt, ps) s
  ]

  unfoldable pub the_node : ℕ → Action D (Node D)
  the_node id ps s = elim (get_elem? ps.nodes id) [ none ↦ stuck | some n ↦ ok (n, ps) s ]

  unfoldable pub put : ℕ → Node D → Action D (Unit {0})
  put id n ps s = ok (tt, record ps { nodes = set ps.nodes id n }) s

  -- `teptris_dom_table_probe_slot`
  unfoldable pub probe : ℕ → Bytes → Action D (Probe ℕ)
  unfolding the_table
  probe id key = the_table id >>= λ kt. return (probe_slot kt.1 (key_hash key) key)

  -- `teptris_dom_table_insert_slot`
  unfoldable pub insert : ℕ → Bytes → ℕ → Option ℕ → Action D (Unit {0})
  unfolding the_table put
  insert id key value slot = the_table id >>= λ kt.
      put id (table kt.0 (table_insert_slot kt.1 key (key_hash key) value slot))

  -- `teptris_dom_array_push`
  unfoldable pub push : ℕ → ℕ → Action D (Unit {0})
  push id value ps s = elim (as_array (get_elem? ps.nodes id)) [
    | none ↦ stuck
    | some ai ↦ ok (tt, record ps { nodes = set ps.nodes id (array ai.0 (ai.1 ++ value ∷ [])) }) s
  ]

  -- A loop with a variable, whose round says with which value to go on, or `none` at the end.
  module _ {V : Type 0} where
    abbrev pub turn_of :
        Result (Option V × State D) → Turn (V × State D × Bytes) (Result (Unit {0} × State D))
    turn_of (ok (some v, ps) rest) = again (v, ps, rest)
    turn_of (ok (none, ps) rest) = leave (ok (tt, ps) rest)
    turn_of (fail st why rest) = leave (fail st why rest)
    turn_of stuck = leave stuck
    turn_of overrun = leave overrun

    abbrev pub bytes_left : V × State D × Bytes → ℕ
    bytes_left (v, ps, s) = length s

    abbrev pub turn :
        (V → Action D (Option V))
        → V × State D × Bytes
        → Turn (V × State D × Bytes) (Result (Unit {0} × State D))
    turn round (v, ps, s) = turn_of (round v ps s)

    unfoldable pub rounds : (V → Action D (Option V)) → V → Action D (Unit {0})
    unfolding run loop
    rounds round v ps s = run stuck (turn round) bytes_left (v, ps, s)
