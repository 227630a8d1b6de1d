-- ===== src/Parse/Paths/Headers.antt =====
-- Headers keep the invariant of the document, on the general path and on the fast one.
use teptris.Base.{
  ℕ, ◌-◌, ◌≤◌, Bool, true, false, List, [], ◌∷◌, Option, none, some, Bytes, length, get_elem?,
  get_elem?-append_end, get_elem?-some, none_ne_some, set, ◌≡◌, inl, inr, refl, sym, subst, arith,
}
use teptris.Dom.Table.{Probe}
use teptris.Dom.Document.{
  tbl_explicit, tbl_implicit, tbl_dotted, tbl_inline, Node, table, array, leaf, new_node, last_item,
}
use teptris.Dom.Document.Links.{
  a_table, array_of_tables, shape, Has, TablesOk, IsLinked, Grows-refl, Grows-new_node,
  IsLinked-new_node, IsLinked-fresh, Grows-set, IsLinked-set, NodeOk-Grows,
}
use teptris.Parse.Result.{IsRest-refl}
use teptris.Parse.Steps.{State, Action, ◌>>=◌, ◌>>◌, return, make, put, push}
use teptris.Parse.Steps.Keeps.{
  Kept, keeps, Kept-Grows, Kept-bind, Kept-step, the_node_lem, with_node-Kept, Probed, hit, miss,
  with_probe-Kept, push_table-Kept, empty_table-NodeOk,
}
use teptris.Parse.Paths.Keeps.{Gives, Has-lt, refuse, add_table-Kept, added-Kept, follow-Kept}
use teptris.Parse.Paths.{
  new_table, root, last_table, last_element, header_child, header_at, header_step, the_aot, aot_at,
  aot_end, redefined, table_at, table_end, resolve_header, fast_at, fast_end, resolve_fast,
}

module _ {D : Type 0} where
  last_table-Kept :
      (checked : Bool) (id : ℕ) (n : Node D) (ps : State D) (s : Bytes)
      → IsLinked none ps.nodes
      → get_elem? ps.nodes id ≡ some n
      → shape n ≡ a_table
      → Kept none ps.nodes s (Gives a_table) (last_table checked id n ps s)
  last_table-Kept checked id (table k t) ps s tree at is =
      keeps (IsRest-refl s) tree (Grows-refl ps.nodes) (table k t, at, refl)
  last_table-Kept checked id (array false items) ps s tree at is = absurd (cc)
  last_table-Kept checked id (array true items) ps s tree at is = absurd (cc)
  last_table-Kept checked id (leaf v) ps s tree at is = absurd (cc)

  -- The last element of an array of tables is there, and is a table.
  last_element-Kept :
      (checked : Bool) (id : ℕ) (items : List ℕ) (ps : State D) (s : Bytes)
      → IsLinked none ps.nodes
      → TablesOk none ps.nodes id items
      → Kept none ps.nodes s (Gives a_table) (last_element checked (last_item items) ps s)
  last_element-Kept checked id items ps s tree is_ok =
      let long : 1 ≤ length items = elim is_ok.some_there [
        | inl e ↦ absurd (none_ne_some e)
        | inr h ↦ h
      ] in
      let (v, at) = get_elem?-some items (length items - 1) (omega arith) in
      let (n, there, is) = is_ok.tables (length items - 1) v at in
      subst (λ (o : Option ℕ). Kept none ps.nodes s (Gives a_table) (last_element checked o ps s))
        (sym at)
        (Kept-step (last_table checked v) (the_node_lem v ps s n there)
          (last_table-Kept checked v n ps s tree there is))

  header_child-Kept :
      (checked : Bool) (id : ℕ) (n : Node D) (ps : State D) (s : Bytes)
      → IsLinked none ps.nodes
      → get_elem? ps.nodes id ≡ some n
      → Kept none ps.nodes s (Gives a_table) (header_child checked id n ps s)
  header_child-Kept checked id (array false items) ps s tree at = refuse
  header_child-Kept checked id (array true items) ps s tree at =
      last_element-Kept checked id items ps s tree (tree id (array true items) at)
  header_child-Kept checked id (table tbl_inline t) ps s tree at = refuse
  header_child-Kept checked id (table tbl_implicit t) ps s tree at =
      keeps (IsRest-refl s) tree (Grows-refl ps.nodes) (table tbl_implicit t, at, refl)
  header_child-Kept checked id (table tbl_explicit t) ps s tree at =
      keeps (IsRest-refl s) tree (Grows-refl ps.nodes) (table tbl_explicit t, at, refl)
  header_child-Kept checked id (table tbl_dotted t) ps s tree at =
      keeps (IsRest-refl s) tree (Grows-refl ps.nodes) (table tbl_dotted t, at, refl)
  header_child-Kept checked id (leaf v) ps s tree at = refuse

  header_at-Kept :
      (checked : Bool) (t : ℕ) (part : Bytes) (ps : State D) (s : Bytes) (p : Probe ℕ)
      → IsLinked none ps.nodes
      → Probed ps t part p
      → Kept none ps.nodes s (Gives a_table) (header_at checked t part p ps s)
  header_at-Kept checked t part ps s _ tree (hit {e} inside) =
      with_node-Kept (header_child checked e.value) e.value none ps s (Gives a_table) inside
        (λ n at. header_child-Kept checked e.value n ps s tree at)
  header_at-Kept checked t part ps s _ tree (miss {slot} kind tbl there h lacks) =
      add_table-Kept tbl_implicit t part slot ps s kind tbl tree there h lacks

  pub header_step-Kept :
      (checked : Bool) (t : ℕ) (part : Bytes) (ps : State D) (s : Bytes)
      → IsLinked none ps.nodes
      → Has ps.nodes t a_table
      → Kept none ps.nodes s (Gives a_table) (header_step checked t part ps s)
  unfolding header_step
  header_step-Kept checked t part ps s tree has =
      with_probe-Kept (header_at checked t part) t part none ps s (Gives a_table) tree has
        (λ p probed. header_at-Kept checked t part ps s p tree probed)

  redefined-Kept :
      (id : ℕ) (n : Node D) (ps : State D) (s : Bytes)
      → IsLinked none ps.nodes
      → get_elem? ps.nodes id ≡ some n
      → Kept none ps.nodes s (Gives a_table) (redefined id n ps s)
  unfolding put
  redefined-Kept id (table tbl_implicit t) ps s tree at =
      let new : Node D = table tbl_explicit t in
      let has : Has ps.nodes id a_table = (table tbl_implicit t, at, refl) in
      let grows = Grows-set ps.nodes id new has in
      let is_ok =
        NodeOk-Grows none ps.nodes (set ps.nodes id new) id new grows
          (tree id (table tbl_implicit t) at) in
      keeps (IsRest-refl s) (IsLinked-set none ps.nodes id new tree has is_ok) grows
        (grows.keeps id a_table has)
  redefined-Kept id (table tbl_explicit t) ps s tree at = refuse
  redefined-Kept id (table tbl_dotted t) ps s tree at = refuse
  redefined-Kept id (table tbl_inline t) ps s tree at = refuse
  redefined-Kept id (array aot items) ps s tree at = refuse
  redefined-Kept id (leaf v) ps s tree at = refuse

  table_at-Kept :
      (t : ℕ) (last : Bytes) (ps : State D) (s : Bytes) (p : Probe ℕ)
      → IsLinked none ps.nodes
      → Probed ps t last p
      → Kept none ps.nodes s (Gives a_table) (table_at t last p ps s)
  table_at-Kept t last ps s _ tree (hit {e} inside) =
      with_node-Kept (redefined e.value) e.value none ps s (Gives a_table) inside
        (λ n at. redefined-Kept e.value n ps s tree at)
  table_at-Kept t last ps s _ tree (miss {slot} kind tbl there h lacks) =
      add_table-Kept tbl_explicit t last slot ps s kind tbl tree there h lacks

  -- Behind `aot_at` the array may have no table yet.
  the_aot-Kept :
      (id : ℕ) (n : Node D) (ps : State D) (s : Bytes)
      → IsLinked none ps.nodes
      → get_elem? ps.nodes id ≡ some n
      → Kept none ps.nodes s (Gives array_of_tables) (the_aot id n ps s)
  the_aot-Kept id (array true items) ps s tree at =
      keeps (IsRest-refl s) tree (Grows-refl ps.nodes) (array true items, at, refl)
  the_aot-Kept id (array false items) ps s tree at = refuse
  the_aot-Kept id (table k t) ps s tree at = refuse
  the_aot-Kept id (leaf v) ps s tree at = refuse

  -- The table that is put at the end of the array.
  aot_rest-Kept :
      (arr : ℕ) (ps : State D) (s : Bytes)
      → IsLinked (some arr) ps.nodes
      → Has ps.nodes arr array_of_tables
      → Kept none ps.nodes s
          (Gives a_table)
          ((make (new_table tbl_explicit) >>= λ elem. push arr elem >> return elem) ps s)
  unfolding make
  aot_rest-Kept arr ps s tree has =
      let new : Node D = new_table tbl_explicit in
      let after = new_node ps.nodes new in
      let fresh =
        IsLinked-new_node (some arr) ps.nodes new tree
          (empty_table-NodeOk (some arr) after (length ps.nodes) tbl_explicit) in
      let there : Has after (length ps.nodes) a_table =
        (new, get_elem?-append_end ps.nodes new, refl) in
      let grown = Grows-new_node ps.nodes new in
      Kept-Grows grown (IsRest-refl s) (
        Kept-bind (λ u. return (length ps.nodes))
          (push_table-Kept arr (length ps.nodes) (record ps { nodes = after }) s fresh
            (grown.keeps arr array_of_tables has) (Has-lt after (length ps.nodes) a_table there)
            there)
          (λ u ps' rest cursor kept grows q.
            keeps (IsRest-refl rest) kept (Grows-refl ps'.nodes)
              (grows.keeps (length ps.nodes) a_table there)))

  abbrev aot_rest : ℕ → Action D ℕ
  aot_rest arr = make (new_table tbl_explicit) >>= λ elem. push arr elem >> return elem

  empty_array-IsLinked :
      (ps : State D)
      → IsLinked none ps.nodes
      → IsLinked (some (length ps.nodes)) (new_node ps.nodes (array true []))
  empty_array-IsLinked ps tree =
      IsLinked-new_node (some (length ps.nodes)) ps.nodes (array true [])
        (IsLinked-fresh (length ps.nodes) ps.nodes tree)
        (record {
          later = λ i v at. absurd (none_ne_some at);
          tables = λ i v at. absurd (none_ne_some at);
          some_there = inl refl;
        })

  aot_at-Kept :
      (t : ℕ) (last : Bytes) (ps : State D) (s : Bytes) (p : Probe ℕ)
      → IsLinked none ps.nodes
      → Probed ps t last p
      → Kept none ps.nodes s (Gives a_table) ((aot_at t last p >>= aot_rest) ps s)
  aot_at-Kept t last ps s _ tree (hit {e} inside) =
      Kept-bind aot_rest
        (with_node-Kept (the_aot e.value) e.value none ps s (Gives array_of_tables) inside
          (λ n at. the_aot-Kept e.value n ps s tree at))
        (λ arr ps' rest cursor tree' grows has.
          aot_rest-Kept arr ps' rest (IsLinked-fresh arr ps'.nodes tree') has)
  aot_at-Kept t last ps s _ tree (miss {slot} kind tbl there h lacks) =
      Kept-bind aot_rest
        (added-Kept (array true []) t last slot none (some (length ps.nodes)) ps s kind tbl tree
          (empty_array-IsLinked ps tree) there h lacks)
        (λ arr ps' rest cursor tree' grows (same, has).
          aot_rest-Kept arr ps' rest
            (subst (λ (x : ℕ). IsLinked (some x) ps'.nodes) (sym same) tree') has)

  -- The table that a header names, new or not.
  pub resolve_header-Kept :
      (aot : Bool) (parts : List Bytes) (ps : State D) (s : Bytes)
      → IsLinked none ps.nodes
      → Has ps.nodes root a_table
      → 1 ≤ length parts
      → Kept none ps.nodes s (Gives a_table) (resolve_header aot parts ps s)
  unfolding resolve_header aot_end table_end
  resolve_header-Kept aot [] ps s tree has many = absurd (omega arith)
  resolve_header-Kept false (part ∷ parts) ps s tree has many =
      Kept-bind (λ (r : ℕ × Bytes). table_end r.0 r.1)
        (follow-Kept (header_step true) (header_step-Kept true) root part parts ps s tree has)
        (λ r ps' rest cursor tree' grows there.
          with_probe-Kept (table_at r.0 r.1) r.0 r.1 none ps' rest (Gives a_table) tree' there
            (λ p probed. table_at-Kept r.0 r.1 ps' rest p tree' probed))
  resolve_header-Kept true (part ∷ parts) ps s tree has many =
      Kept-bind (λ (r : ℕ × Bytes). aot_end r.0 r.1)
        (follow-Kept (header_step true) (header_step-Kept true) root part parts ps s tree has)
        (λ r ps' rest cursor tree' grows there.
          with_probe-Kept (λ p. aot_at r.0 r.1 p >>= aot_rest) r.0 r.1 none ps' rest (Gives a_table)
            tree' there (λ p probed. aot_at-Kept r.0 r.1 ps' rest p tree' probed))

  -- On the fast path, the table where it is new.
  abbrev pub MayGive : Option ℕ → State D → Bytes → Type 0
  MayGive none ps rest = Unit
  MayGive (some id) ps rest = Has ps.nodes id a_table

  fast_at-Kept :
      (t : ℕ) (last : Bytes) (ps : State D) (s : Bytes) (p : Probe ℕ)
      → IsLinked none ps.nodes
      → Probed ps t last p
      → Kept none ps.nodes s MayGive (fast_at t last p ps s)
  fast_at-Kept t last ps s _ tree (hit {e} inside) =
      keeps (IsRest-refl s) tree (Grows-refl ps.nodes) tt
  fast_at-Kept t last ps s _ tree (miss {slot} kind tbl there h lacks) =
      Kept-bind (λ (id : ℕ). return (some id))
        (add_table-Kept tbl_explicit t last slot ps s kind tbl tree there h lacks)
        (λ id ps' rest cursor tree' grows has.
          keeps (IsRest-refl rest) tree' (Grows-refl ps'.nodes) has)

  pub resolve_fast-Kept :
      (parts : List Bytes) (ps : State D) (s : Bytes)
      → IsLinked none ps.nodes
      → Has ps.nodes root a_table
      → 1 ≤ length parts
      → Kept none ps.nodes s MayGive (resolve_fast parts ps s)
  unfolding resolve_fast fast_end
  resolve_fast-Kept [] ps s tree has many = absurd (omega arith)
  resolve_fast-Kept (part ∷ parts) ps s tree has many =
      Kept-bind (λ (r : ℕ × Bytes). fast_end r.0 r.1)
        (follow-Kept (header_step false) (header_step-Kept false) root part parts ps s tree has)
        (λ r ps' rest cursor tree' grows there.
          with_probe-Kept (fast_at r.0 r.1) r.0 r.1 none ps' rest MayGive tree' there
            (λ p probed. fast_at-Kept r.0 r.1 ps' rest p tree' probed))
