-- ===== src/Dom/Document/Links.antt =====
-- The invariant of the nodes of a document.
use teptris.Base.{
  ℕ, ◌≤◌, ◌<◌, true, false, List, [], ◌∷◌, ◌++◌, Option, none, some, length, length-append,
  length-set, get_elem?, get_elem?-snoc, get_elem?-lt, get_elem?-append_left, get_elem?-set_self,
  get_elem?-set_ne, none_ne_some, set, ◌==◌, ◌≡◌, ◌≢◌, ◌⊎◌, inl, inr, sym, ap, subst, ◌∙◌, arith,
  Bool-cases,
}
use teptris.Dom.Table.{Table, Entry}
use teptris.Dom.Table.Invariant.{IsWell}
use teptris.Dom.Document.{Node, table, array, leaf, new_node}

-- What a node stays all its life.
pub data Shape : Type 0 where
  a_table plain_array array_of_tables a_leaf : Shape

module _ {D : Type 0} where
  abbrev pub shape : Node D → Shape
  shape (table k t) = a_table
  shape (array false items) = plain_array
  shape (array true items) = array_of_tables
  shape (leaf v) = a_leaf

  abbrev pub Has : List (Node D) → ℕ → Shape → Type 0
  Has nodes id sh = (n : Node D) × (get_elem? nodes id ≡ some n) × (shape n ≡ sh)

  -- An entry or an item leads to a node of the document.
  abbrev pub Inside : List (Node D) → ℕ → Type 0
  Inside nodes child = child < length nodes

  pub record TableOk (nodes : List (Node D)) (id : ℕ) (t : Table ℕ) : Type 0 where
    pub well : IsWell t
    pub children : (i : ℕ) (e : Entry ℕ) → get_elem? t.entries i ≡ some e → Inside nodes e.value

  abbrev pub ItemsOk : List (Node D) → ℕ → List ℕ → Type 0
  ItemsOk nodes id items = (i v : ℕ) → get_elem? items i ≡ some v → Inside nodes v

  -- An array of tables has tables only, and one at least; but `fresh`, which has none yet.
  pub record TablesOk (fresh : Option ℕ) (nodes : List (Node D)) (id : ℕ) (items : List ℕ)
      : Type 0 where
    pub later : ItemsOk nodes id items
    pub tables : (i v : ℕ) → get_elem? items i ≡ some v → Has nodes v a_table
    pub some_there : (fresh ≡ some id) ⊎ (1 ≤ length items)

  abbrev pub NodeOk : Option ℕ → List (Node D) → ℕ → Node D → Type 0
  NodeOk fresh nodes id (table k t) = TableOk nodes id t
  NodeOk fresh nodes id (array false items) = ItemsOk nodes id items
  NodeOk fresh nodes id (array true items) = TablesOk fresh nodes id items
  NodeOk fresh nodes id (leaf v) = Unit

  -- Every table has a well-formed index and no key twice, every entry and item leads to a node, and the
  -- arrays of tables hold tables.
  abbrev pub IsLinked : Option ℕ → List (Node D) → Type 0
  IsLinked fresh nodes =
      (id : ℕ) (n : Node D) → get_elem? nodes id ≡ some n → NodeOk fresh nodes id n

  -- Nodes are added, and none changes its shape.
  pub record Grows (before after : List (Node D)) : Type 0 where
    pub longer : length before ≤ length after
    pub keeps : (id : ℕ) (sh : Shape) → Has before id sh → Has after id sh

  pub Grows-refl : (nodes : List (Node D)) → Grows nodes nodes
  Grows-refl nodes = record { longer = omega arith; keeps = λ id sh h. h }

  pub Grows-trans : {a b d : List (Node D)} → Grows a b → Grows b d → Grows a d
  Grows-trans g h = record {
    longer = omega (arith, g.longer, h.longer);
    keeps = λ id sh x. h.keeps id sh (g.keeps id sh x);
  }

  pub NodeOk-Grows :
      (fresh : Option ℕ) (a b : List (Node D)) (id : ℕ) (n : Node D)
      → Grows a b
      → NodeOk fresh a id n
      → NodeOk fresh b id n
  NodeOk-Grows fresh a b id (table k t) g ok = record {
    well = ok.well;
    children = λ i e at. omega (arith, ok.children i e at, g.longer);
  }
  NodeOk-Grows fresh a b id (array false items) g ok = λ i v at. omega (arith, ok i v at, g.longer)
  NodeOk-Grows fresh a b id (array true items) g ok = record {
    later = λ i v at. omega (arith, ok.later i v at, g.longer);
    tables = λ i v at. g.keeps v a_table (ok.tables i v at);
    some_there = ok.some_there;
  }
  NodeOk-Grows fresh a b id (leaf v) g ok = tt

  pub Grows-new_node : (nodes : List (Node D)) (n : Node D) → Grows nodes (new_node nodes n)
  Grows-new_node nodes n = record {
    longer = omega (arith, length-append nodes (n ∷ []));
    keeps = λ id sh (m, at, same). (m, get_elem?-append_left nodes (n ∷ []) id m at, same);
  }

  pub IsLinked-new_node :
      (fresh : Option ℕ) (nodes : List (Node D)) (n : Node D)
      → IsLinked fresh nodes
      → NodeOk fresh (new_node nodes n) (length nodes) n
      → IsLinked fresh (new_node nodes n)
  IsLinked-new_node fresh nodes n tree ok id m at = elim (get_elem?-snoc nodes n id m at) [
    | inl old ↦
        NodeOk-Grows fresh nodes (new_node nodes n) id m (Grows-new_node nodes n) (tree id m old)
    | inr (end, same) ↦
        subst (λ (j : ℕ). NodeOk fresh (new_node nodes n) j m) (sym end)
          (subst (λ (k : Node D). NodeOk fresh (new_node nodes n) (length nodes) k) same ok)
  ]

  set_at_id :
      (nodes : List (Node D)) (id j : ℕ) (n : Node D)
      → Has nodes id (shape n)
      → id ≡ j
      → get_elem? (set nodes id n) j ≡ some n
  set_at_id nodes id j n (m, there, same) e =
      subst (λ (i : ℕ). get_elem? (set nodes id n) i ≡ some n) e
        (get_elem?-set_self nodes id n (get_elem?-lt nodes id m there))

  -- A node that keeps its shape.
  pub Grows-set :
      (nodes : List (Node D)) (id : ℕ) (n : Node D)
      → Has nodes id (shape n)
      → Grows nodes (set nodes id n)
  Grows-set nodes id n (m, there, same) = record {
    longer = omega (arith, length-set nodes id n);
    keeps = λ j sh (k, at, is). elim (Bool-cases (id == j)) [
      | inl e ↦
          let same_id : id ≡ j = ground arith in
          let here = set_at_id nodes id j n (m, there, same) same_id in
          let both : get_elem? nodes j ≡ some m =
            subst (λ (i : ℕ). get_elem? nodes i ≡ some m) same_id there in
          let equal : k ≡ m = cc in (n, here, sym same ∙ ap shape (sym equal) ∙ is)
      | inr e ↦ (k, get_elem?-set_ne nodes id j n (λ q. ground arith) ∙ at, is)
    ];
  }

  pub IsLinked-set :
      (fresh : Option ℕ) (nodes : List (Node D)) (id : ℕ) (n : Node D)
      → IsLinked fresh nodes
      → Has nodes id (shape n)
      → NodeOk fresh (set nodes id n) id n
      → IsLinked fresh (set nodes id n)
  IsLinked-set fresh nodes id n tree has ok j m at = elim (Bool-cases (id == j)) [
    | inl e ↦
        let same_id : id ≡ j = ground arith in
        let here = set_at_id nodes id j n has same_id in
        let equal : n ≡ m = cc in
        subst (λ (i : ℕ). NodeOk fresh (set nodes id n) i m) same_id
          (subst (λ (k : Node D). NodeOk fresh (set nodes id n) id k) equal ok)
    | inr e ↦
        let old = tree j m (sym (get_elem?-set_ne nodes id j n (λ q. ground arith)) ∙ at) in
        NodeOk-Grows fresh nodes (set nodes id n) j m (Grows-set nodes id n has) old
  ]

  -- The invariant holds all the more when an array of tables may have none yet.
  NodeOk-fresh :
      (x : ℕ) (nodes : List (Node D)) (id : ℕ) (n : Node D)
      → NodeOk none nodes id n
      → NodeOk (some x) nodes id n
  NodeOk-fresh x nodes id (table k t) h = h
  NodeOk-fresh x nodes id (array false items) h = h
  NodeOk-fresh x nodes id (array true items) h = record {
    later = h.later;
    tables = h.tables;
    some_there = elim h.some_there [ inl e ↦ absurd (none_ne_some e) | inr long ↦ inr long ];
  }
  NodeOk-fresh x nodes id (leaf v) h = tt

  pub IsLinked-fresh :
      (x : ℕ) (nodes : List (Node D)) → IsLinked none nodes → IsLinked (some x) nodes
  IsLinked-fresh x nodes tree id n at = NodeOk-fresh x nodes id n (tree id n at)

  NodeOk-other :
      (x : ℕ) (nodes : List (Node D)) (id : ℕ) (n : Node D)
      → x ≢ id
      → NodeOk (some x) nodes id n
      → NodeOk none nodes id n
  NodeOk-other x nodes id (table k t) ne h = h
  NodeOk-other x nodes id (array false items) ne h = h
  NodeOk-other x nodes id (array true items) ne h = record {
    later = h.later;
    tables = h.tables;
    some_there = elim h.some_there [ inl e ↦ absurd (ne cc) | inr long ↦ inr long ];
  }
  NodeOk-other x nodes id (leaf v) ne h = tt

  -- The array gets its first table.
  pub IsLinked-set_fresh :
      (nodes : List (Node D)) (id : ℕ) (n : Node D)
      → IsLinked (some id) nodes
      → Has nodes id (shape n)
      → NodeOk none (set nodes id n) id n
      → IsLinked none (set nodes id n)
  IsLinked-set_fresh nodes id n tree has is_ok j m at = elim (Bool-cases (id == j)) [
    | inl e ↦
        let same_id : id ≡ j = ground arith in
        let here = set_at_id nodes id j n has same_id in
        let equal : n ≡ m = cc in
        subst (λ (i : ℕ). NodeOk none (set nodes id n) i m) same_id
          (subst (λ (k : Node D). NodeOk none (set nodes id n) id k) equal is_ok)
    | inr e ↦
        let differs : id ≢ j = λ q. ground arith in
        let old = tree j m (sym (get_elem?-set_ne nodes id j n differs) ∙ at) in
        NodeOk-Grows none nodes (set nodes id n) j m (Grows-set nodes id n has)
          (NodeOk-other id nodes j m differs old)
  ]

  -- An item at the end.
  pub ItemsOk-snoc :
      (nodes : List (Node D)) (id : ℕ) (items : List ℕ) (v : ℕ)
      → ItemsOk nodes id items
      → Inside nodes v
      → ItemsOk nodes id (items ++ v ∷ [])
  ItemsOk-snoc nodes id items v ok later i w at = elim (get_elem?-snoc items v i w at) [
    | inl old ↦ ok i w old
    | inr (end, same) ↦ subst (Inside nodes) same later
  ]

  pub TablesOk-snoc :
      (fresh : Option ℕ) (nodes : List (Node D)) (id : ℕ) (items : List ℕ) (v : ℕ)
      → TablesOk fresh nodes id items
      → Inside nodes v
      → Has nodes v a_table
      → TablesOk none nodes id (items ++ v ∷ [])
  TablesOk-snoc fresh nodes id items v ok later has = record {
    later = ItemsOk-snoc nodes id items v ok.later later;
    tables = λ i w at. elim (get_elem?-snoc items v i w at) [
      | inl old ↦ ok.tables i w old
      | inr (end, same) ↦ subst (λ (x : ℕ). Has nodes x a_table) same has
    ];
    some_there = inr (let n = length-append items (v ∷ []) in omega arith);
  }
