-- ===== src/Parse/Containers/Loops.antt =====
-- The loops of arrays and inline tables end, and so do values of any depth.
use teptris.Base.{
  ℕ, zero, suc, false, [], ◌∷◌, Option, none, some, Bytes, length, none_ne_some, ◌==◌,
  if◌then◌else◌, arith,
}
use teptris.Dom.Table.{empty}
use teptris.Dom.Document.{tbl_inline, Node, table, array, new_node}
use teptris.Dom.Document.Links.{Shape, a_table, plain_array, Has, IsLinked, Grows-refl}
use teptris.Parse.Containers.{
  keyval_shape, skip, keyval_fast, keyval_general, keyval, array_next, array_element, array_round,
  inline_next, inline_member, inline_round, parse_array, parse_inline, too_deep, value_within,
}
use teptris.Parse.Containers.Scalars.{skip_array_gap-Read}
use teptris.Parse.Cursor.{adv, next_is, skip_array_gap}
use teptris.Parse.Floats.{Doubles}
use teptris.Parse.Paths.Keeps.{Has-lt}
use teptris.Parse.Result.{
  Result, ok, fail, stuck, Parser, IsRest, IsRest-refl, IsRest-cons, IsRest-trans, IsRest-drop,
  IsRest-length, Read, reads, gives_up, err_syntax, err_semantic, err_depth, nesting_too_deep,
}
use teptris.Parse.Result
use teptris.Parse.Steps.{State, Action, ◌>>◌, return, lift, make, push, rounds}
use teptris.Parse.Steps.Keeps.{
  Kept, keeps, fails, Kept-Grows, Kept-map, Kept-bind, Kept-lift, push-Kept, empty_table-NodeOk,
  GoesOn, GoesOn-le, rounds-Kept,
}
use teptris.Parse.Containers.Keeps.{
  make-Gives, GivesNode, ValueKept, fail_here, Kept-if, Before, Kept-before, Shaped, no_shape,
  has_shape, keyval_shape-Shaped, value_at-Kept, value_fast-Kept, keyval_fast-Kept,
  keyval_general-Kept,
}

module _ {D : Type 0} (c : Doubles D) (max_depth : ℕ) where
  module _ (parse_value : Action D ℕ) (value_Kept : ValueKept parse_value) where
    shaped :
        (tbl : ℕ) (ps : State D) (s : Bytes) (o : Option (Bytes × Bytes))
        → IsLinked none ps.nodes
        → Has ps.nodes tbl a_table
        → Shaped s o
        → Kept none ps.nodes s (Before s) (elim o [
          | none ↦ keyval_general c max_depth parse_value tbl ps s
          | some (key, rest) ↦ keyval_fast c max_depth parse_value tbl key ps rest
        ])
    shaped tbl ps s _ tree has no_shape =
        keyval_general-Kept c max_depth parse_value value_Kept tbl ps s tree has
    shaped tbl ps s _ tree has (has_shape {key} {rest} inside less) =
        Kept-Grows (Grows-refl ps.nodes) inside (
          Kept-before (length s) less
            (keyval_fast-Kept c max_depth parse_value value_Kept tbl key ps rest tree has))

    pub keyval-Kept :
        (tbl : ℕ) (ps : State D) (s : Bytes)
        → IsLinked none ps.nodes
        → Has ps.nodes tbl a_table
        → Kept none ps.nodes s (Before s) (keyval c max_depth parse_value tbl ps s)
    unfolding keyval
    keyval-Kept tbl ps s tree has =
        shaped tbl ps s (keyval_shape s) tree has (keyval_shape-Shaped s)

    -- A round goes on behind a comma, with the container still there.
    abbrev Stays : ℕ → Shape → Unit {0} → State D → Type 0
    Stays id sh _ ps = Has ps.nodes id sh

    next-Kept :
        (id : ℕ) (sh : Shape) (close : ℕ) (why : Result.Reason) (ps : State D) (s : Bytes)
        → IsLinked none ps.nodes
        → Has ps.nodes id sh
        → Kept none ps.nodes s (GoesOn (Stays id sh) s) (
            if next_is b',' s
            then ok (some tt, ps) (adv 1 s)
            else if next_is close s
            then ok (none, ps) (adv 1 s)
            else fail err_syntax why s)
    next-Kept id sh close why ps [] tree has = fail_here
    next-Kept id sh close why ps (b ∷ s) tree has =
        Kept-if (b == b',')
          (keeps (IsRest-drop 1 (b ∷ s)) tree (Grows-refl ps.nodes) (omega arith, has))
          (Kept-if (b == close) (keeps (IsRest-drop 1 (b ∷ s)) tree (Grows-refl ps.nodes) tt)
            fail_here)

    -- Behind an element, in a round that began at `s`.
    after_element-Kept :
        (id : ℕ) (sh : Shape) (act : Action D (Option (Unit {0}))) (s : Bytes) (ps : State D)
        (t : Bytes)
        → ((ps' : State D) (t' : Bytes)
            → IsLinked none ps'.nodes
            → Has ps'.nodes id sh
            → Kept none ps'.nodes t' (GoesOn (Stays id sh) t') (act ps' t'))
        → IsLinked none ps.nodes
        → Has ps.nodes id sh
        → IsRest t s
        → Kept none ps.nodes t (GoesOn (Stays id sh) s) ((lift skip_array_gap >> act) ps t)
    after_element-Kept id sh act s ps t acts tree has inside =
        Kept-bind (λ _. act) (Kept-lift ps tree (skip_array_gap-Read t))
          (λ _ ps' t' cursor tree' grows q.
            Kept-map
              (λ o ps'' rest g.
                GoesOn-le (Stays id sh) t' s o ps'' rest
                  (omega (arith, IsRest-length cursor, IsRest-length inside)) g)
              (acts ps' t' tree' (grows.keeps id sh has)))

    array_element-Kept :
        (arr : ℕ) (ps : State D) (s : Bytes)
        → IsLinked none ps.nodes
        → Has ps.nodes arr plain_array
        → Kept none ps.nodes s
            (GoesOn (Stays arr plain_array) s)
            (array_element c max_depth parse_value arr ps s)
    array_element-Kept arr ps [] tree has = fail_here
    array_element-Kept arr ps (b ∷ s) tree has =
        Kept-if (b == b']') (keeps (IsRest-drop 1 (b ∷ s)) tree (Grows-refl ps.nodes) tt) (
          Kept-bind (λ v. push arr v >> (lift skip_array_gap >> array_next c max_depth parse_value))
            (value_fast-Kept c max_depth parse_value value_Kept ps (b ∷ s) tree)
            (λ v ps' t cursor tree' grows inside.
              Kept-bind (λ _. lift skip_array_gap >> array_next c max_depth parse_value)
                (push-Kept arr v ps' t tree' (grows.keeps arr plain_array has) inside)
                (λ _ ps'' u cursor' tree'' grows' q.
                  after_element-Kept arr plain_array (array_next c max_depth parse_value) (b ∷ s)
                    ps'' u (next-Kept arr plain_array b']' Result.expected_comma_or_bracket) tree''
                    (grows'.keeps arr plain_array (grows.keeps arr plain_array has))
                    (IsRest-trans cursor' cursor))))

    -- A round begins with a gap.
    gap-Kept :
        (id : ℕ) (sh : Shape) (act : Action D (Option (Unit {0}))) (ps : State D) (s : Bytes)
        → ((ps' : State D) (t : Bytes)
            → IsLinked none ps'.nodes
            → Has ps'.nodes id sh
            → Kept none ps'.nodes t (GoesOn (Stays id sh) t) (act ps' t))
        → IsLinked none ps.nodes
        → Has ps.nodes id sh
        → Kept none ps.nodes s (GoesOn (Stays id sh) s) ((lift skip_array_gap >> act) ps s)
    gap-Kept id sh act ps s acts tree has =
        after_element-Kept id sh act s ps s acts tree has (IsRest-refl s)

    -- The loop of a container, behind its bracket.
    container-Kept :
        (id : ℕ) (sh : Shape) (act : Action D (Option (Unit {0}))) (ps : State D) (s : Bytes)
        → ((ps' : State D) (t : Bytes)
            → IsLinked none ps'.nodes
            → Has ps'.nodes id sh
            → Kept none ps'.nodes t (GoesOn (Stays id sh) t) (act ps' t))
        → IsLinked none ps.nodes
        → Has ps.nodes id sh
        → Kept none ps.nodes s GivesNode
            ((skip 1 >> (rounds (λ _. lift skip_array_gap >> act) tt >> return id)) ps s)
    container-Kept id sh act ps s acts tree has =
        Kept-Grows (Grows-refl ps.nodes) (IsRest-drop 1 s) (
          Kept-bind (λ _. return id)
            (rounds-Kept (λ _. lift skip_array_gap >> act) (Stays id sh)
              (λ _ ps' t tree' there. gap-Kept id sh act ps' t acts tree' there) tt ps (adv 1 s)
              tree has)
            (λ _ ps' rest cursor tree' grows q.
              keeps (IsRest-refl rest) tree' (Grows-refl ps'.nodes)
                (Has-lt ps'.nodes id sh (grows.keeps id sh has))))

    pub parse_array-Kept : ValueKept (parse_array c max_depth parse_value)
    unfolding parse_array array_round
    parse_array-Kept ps s tree =
        Kept-bind
          (λ arr.
            skip 1 >> (rounds (λ _. array_round c max_depth parse_value arr) tt >> return arr))
          (make-Gives (array false []) ps s tree (λ i v at. absurd (none_ne_some at)))
          (λ arr ps' t cursor tree' grows has.
            container-Kept arr plain_array (array_element c max_depth parse_value arr) ps' t
              (array_element-Kept arr) tree' has)

    inline_member-Kept :
        (tbl : ℕ) (ps : State D) (s : Bytes)
        → IsLinked none ps.nodes
        → Has ps.nodes tbl a_table
        → Kept none ps.nodes s
            (GoesOn (Stays tbl a_table) s)
            (inline_member c max_depth parse_value tbl ps s)
    inline_member-Kept tbl ps [] tree has = fail_here
    inline_member-Kept tbl ps (b ∷ s) tree has =
        Kept-if (b == b'}') (keeps (IsRest-drop 1 (b ∷ s)) tree (Grows-refl ps.nodes) tt) (
          Kept-bind (λ _. lift skip_array_gap >> inline_next c max_depth parse_value)
            (keyval-Kept tbl ps (b ∷ s) tree has)
            (λ _ ps' t cursor tree' grows less.
              after_element-Kept tbl a_table (inline_next c max_depth parse_value) (b ∷ s) ps' t
                (next-Kept tbl a_table b'}' Result.expected_comma_or_brace) tree'
                (grows.keeps tbl a_table has) cursor))

    pub parse_inline-Kept : ValueKept (parse_inline c max_depth parse_value)
    unfolding parse_inline inline_round
    parse_inline-Kept ps s tree =
        Kept-bind
          (λ tbl.
            skip 1 >> (rounds (λ _. inline_round c max_depth parse_value tbl) tt >> return tbl))
          (make-Gives (table tbl_inline empty) ps s tree (
            empty_table-NodeOk none (new_node ps.nodes (table tbl_inline empty)) (length ps.nodes)
              tbl_inline))
          (λ tbl ps' t cursor tree' grows has.
            container-Kept tbl a_table (inline_member c max_depth parse_value tbl) ps' t
              (inline_member-Kept tbl) tree' has)

  too_deep-Kept : (n : Node D) → ValueKept (too_deep c max_depth n)
  unfolding make
  too_deep-Kept n ps s tree = fails (IsRest-drop 1 s)

  -- Values end at every depth.
  pub value_within-Kept : (levels : ℕ) → ValueKept (value_within c max_depth levels)
  unfolding value_within
  value_within-Kept zero =
      value_at-Kept c max_depth (too_deep c max_depth (array false []))
        (too_deep c max_depth (table tbl_inline empty))
        (λ ps s tree. too_deep-Kept (array false []) ps s tree)
        (λ ps s tree. too_deep-Kept (table tbl_inline empty) ps s tree)
  value_within-Kept (suc levels) =
      let within = value_within-Kept levels in
      value_at-Kept c max_depth (parse_array c max_depth (value_within c max_depth levels))
        (parse_inline c max_depth (value_within c max_depth levels))
        (parse_array-Kept (value_within c max_depth levels) within)
        (parse_inline-Kept (value_within c max_depth levels) within)
