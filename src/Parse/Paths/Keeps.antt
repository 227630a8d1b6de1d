-- ===== src/Parse/Paths/Keeps.antt =====
-- Dotted keys and headers keep the invariant of the document.
use teptris.Base.{
  ℕ, ◌≤◌, ◌<◌, Bool, List, [], ◌∷◌, Option, none, some, Bytes, length, length-append, get_elem?,
  get_elem?-lt, get_elem?-append_end, get_elem?-append_left, ◌≡◌, refl, arith,
}
use teptris.Dom.Table.{Table, Probe, absent, key_hash, probe_slot}
use teptris.Dom.Table.Invariant.{Lacks}
use teptris.Dom.Document.{
  TableKind, tbl_explicit, tbl_implicit, tbl_dotted, tbl_inline, Node, table, array, leaf, new_node,
}
use teptris.Dom.Document.Links.{
  Shape, a_table, shape, Has, Inside, IsLinked, Grows-refl, Grows-new_node, IsLinked-new_node,
}
use teptris.Parse.Result.{err_semantic, Reason, fail, IsRest-refl}
use teptris.Parse.Steps.{State, Action, ◌>>=◌, ◌>>◌, return, make, insert}
use teptris.Parse.Steps.Keeps.{
  Kept, keeps, fails, Kept-Grows, Kept-map, Kept-bind, Any, with_node-Kept, Probed, hit, miss,
  with_probe-Kept, insert-Kept, empty_table-NodeOk,
}
use teptris.Parse.Paths.{
  new_table, add_table, follow, dotted_child, dotted_at, dotted_step, last_at, dotted_last,
  insert_dotted, is_many,
}

module _ {D : Type 0} where
  -- The result is a node of a shape.
  abbrev pub Gives : Shape → ℕ → State D → Bytes → Type 0
  Gives sh id ps rest = Has ps.nodes id sh

  pub Has-lt : (nodes : List (Node D)) (id : ℕ) (sh : Shape) → Has nodes id sh → id < length nodes
  Has-lt nodes id sh (n, at, is) = get_elem?-lt nodes id n at

  pub refuse :
      {A : Type 0} {why : Reason} {fresh : Option ℕ} {nodes : List (Node D)} {s : Bytes}
      {Q : A → State D → Bytes → Type 0}
      → Kept fresh nodes s Q (fail err_semantic why s)
  refuse {s = s} = fails (IsRest-refl s)

  -- A new node that is put under a key.
  pub added-Kept :
      (n : Node D) (t : ℕ) (key : Bytes) (slot : Option ℕ) (fresh fresh' : Option ℕ) (ps : State D)
      (s : Bytes) (k : TableKind) (tbl : Table ℕ)
      → IsLinked fresh ps.nodes
      → IsLinked fresh' (new_node ps.nodes n)
      → get_elem? ps.nodes t ≡ some (table k tbl)
      → probe_slot tbl (key_hash key) key ≡ absent slot
      → Lacks tbl.entries key
      → Kept fresh' ps.nodes s
          (λ id ps' rest. (id ≡ length ps.nodes) × Has ps'.nodes id (shape n))
          ((make n >>= λ child. insert t key child slot >> return child) ps s)
  unfolding make
  added-Kept n t key slot fresh fresh' ps s k tbl tree tree' there h lacks =
      let lt = get_elem?-lt ps.nodes t (table k tbl) there in
      let put_in =
        insert-Kept t key (length ps.nodes) slot fresh' (record ps { nodes = new_node ps.nodes n })
          s k tbl tree' (get_elem?-append_left ps.nodes (n ∷ []) t (table k tbl) there) h lacks
          (omega (arith, length-append ps.nodes (n ∷ []))) in
      let new : Has (new_node ps.nodes n) (length ps.nodes) (shape n) =
        (n, get_elem?-append_end ps.nodes n, refl) in
      Kept-Grows (Grows-new_node ps.nodes n) (IsRest-refl s) (
        Kept-bind (λ u. return (length ps.nodes)) put_in
          (λ u ps' rest cursor kept grows q.
            keeps (IsRest-refl rest) kept (Grows-refl ps'.nodes)
              (refl, grows.keeps (length ps.nodes) (shape n) new)))

  pub add_table-Kept :
      (k : TableKind) (t : ℕ) (key : Bytes) (slot : Option ℕ) (ps : State D) (s : Bytes)
      (kind : TableKind) (tbl : Table ℕ)
      → IsLinked none ps.nodes
      → get_elem? ps.nodes t ≡ some (table kind tbl)
      → probe_slot tbl (key_hash key) key ≡ absent slot
      → Lacks tbl.entries key
      → Kept none ps.nodes s (Gives a_table) (add_table k t key slot ps s)
  unfolding add_table
  add_table-Kept k t key slot ps s kind tbl tree there h lacks =
      let tree' =
        IsLinked-new_node none ps.nodes (new_table k) tree
          (empty_table-NodeOk none (new_node ps.nodes (new_table k)) (length ps.nodes) k) in
      Kept-map (λ id ps' rest (e, has). has)
        (added-Kept (new_table k) t key slot none none ps s kind tbl tree tree' there h lacks)

  dotted_child-Kept :
      (id : ℕ) (n : Node D) (ps : State D) (s : Bytes)
      → IsLinked none ps.nodes
      → get_elem? ps.nodes id ≡ some n
      → Kept none ps.nodes s (Gives a_table) (dotted_child id n ps s)
  dotted_child-Kept id (table tbl_inline t) ps s tree at = refuse
  dotted_child-Kept id (table tbl_implicit t) ps s tree at = refuse
  dotted_child-Kept id (table tbl_explicit t) ps s tree at = refuse
  dotted_child-Kept id (table tbl_dotted t) ps s tree at =
      keeps (IsRest-refl s) tree (Grows-refl ps.nodes) (table tbl_dotted t, at, refl)
  dotted_child-Kept id (array aot items) ps s tree at = refuse
  dotted_child-Kept id (leaf v) ps s tree at = refuse

  dotted_at-Kept :
      (t : ℕ) (part : Bytes) (ps : State D) (s : Bytes) (p : Probe ℕ)
      → IsLinked none ps.nodes
      → Probed ps t part p
      → Kept none ps.nodes s (Gives a_table) (dotted_at t part p ps s)
  dotted_at-Kept t part ps s _ tree (hit {e} later) =
      with_node-Kept (dotted_child e.value) e.value none ps s (Gives a_table) later
        (λ n at. dotted_child-Kept e.value n ps s tree at)
  dotted_at-Kept t part ps s _ tree (miss {slot} kind tbl there h lacks) =
      add_table-Kept tbl_dotted t part slot ps s kind tbl tree there h lacks

  dotted_step-Kept :
      (t : ℕ) (part : Bytes) (ps : State D) (s : Bytes)
      → IsLinked none ps.nodes
      → Has ps.nodes t a_table
      → Kept none ps.nodes s (Gives a_table) (dotted_step t part ps s)
  unfolding dotted_step
  dotted_step-Kept t part ps s tree has =
      with_probe-Kept (dotted_at t part) t part none ps s (Gives a_table) tree has
        (λ p probed. dotted_at-Kept t part ps s p tree probed)

  -- The loop over the parts, when each step gives a table.
  pub follow-Kept :
      (step : ℕ → Bytes → Action D ℕ)
      → ((t : ℕ) (part : Bytes) (ps : State D) (s : Bytes)
          → IsLinked none ps.nodes
          → Has ps.nodes t a_table
          → Kept none ps.nodes s (Gives a_table) (step t part ps s))
      → (t : ℕ) (part : Bytes) (parts : List Bytes) (ps : State D) (s : Bytes)
      → IsLinked none ps.nodes
      → Has ps.nodes t a_table
      → Kept none ps.nodes s
          (λ r ps' rest. Has ps'.nodes r.0 a_table)
          (follow step t part parts ps s)
  unfolding follow
  follow-Kept step steps t part [] ps s tree has =
      keeps (IsRest-refl s) tree (Grows-refl ps.nodes) has
  follow-Kept step steps t part (next ∷ parts) ps s tree has =
      Kept-bind (λ t'. follow step t' next parts) (steps t part ps s tree has)
        (λ t' ps' rest cursor tree' grows there.
          follow-Kept step steps t' next parts ps' rest tree' there)

  last_at-Kept :
      (many : Bool) (t : ℕ) (last : Bytes) (value : ℕ) (ps : State D) (s : Bytes) (p : Probe ℕ)
      → IsLinked none ps.nodes
      → Inside ps.nodes value
      → Probed ps t last p
      → Kept none ps.nodes s Any (last_at many t last value p ps s)
  last_at-Kept many t last value ps s _ tree later (hit there) = refuse
  last_at-Kept many t last value ps s _ tree later (miss {slot} kind tbl there h lacks) =
      insert-Kept t last value slot none ps s kind tbl tree there h lacks later

  -- `insert_dotted` of a node, into a table.
  pub insert_dotted-Kept :
      (t : ℕ) (parts : List Bytes) (value : ℕ) (ps : State D) (s : Bytes)
      → IsLinked none ps.nodes
      → Has ps.nodes t a_table
      → 1 ≤ length parts
      → Inside ps.nodes value
      → Kept none ps.nodes s Any (insert_dotted t parts value ps s)
  unfolding insert_dotted dotted_last
  insert_dotted-Kept t [] value ps s tree has many inside = absurd (omega arith)
  insert_dotted-Kept t (part ∷ parts) value ps s tree has many inside =
      Kept-bind (λ (r : ℕ × Bytes). dotted_last (is_many parts) r.0 r.1 value)
        (follow-Kept dotted_step dotted_step-Kept t part parts ps s tree has)
        (λ r ps' rest cursor tree' grows there.
          with_probe-Kept (last_at (is_many parts) r.0 r.1 value) r.0 r.1 none ps' rest Any tree'
            there
            (λ p probed.
              last_at-Kept (is_many parts) r.0 r.1 value ps' rest p tree'
                (omega (arith, inside, grows.longer)) probed))
