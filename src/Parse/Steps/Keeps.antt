-- ===== src/Parse/Steps/Keeps.antt =====
-- What an action keeps: the invariant of the document, that nodes are only added, and that the cursor
-- stays inside the buffer.
use teptris.Base.{
  ℕ, zero, suc, ◌≤◌, ◌<◌, Bool, true, false, List, [], ◌∷◌, ◌++◌, Option, none, some, Bytes, length,
  get_elem?, get_elem?-snoc, get_elem?-some, none_ne_some, set, if◌then◌else◌, ◌≡◌, inl, inr, refl,
  sym, ap, subst, ◌∙◌, arith, again, leave, loop, run,
}
use teptris.Dom.Table.{
  Table, Entry, empty, Probe, found, absent, key_hash, probe_slot, table_insert_slot,
}
use teptris.Dom.Table.Invariant.{Lacks, empty-IsWell}
use teptris.Dom.Table.Refines.{Probes, hits, misses, probe_slot-Probes, table_insert_slot-IsWell}
use teptris.Dom.Document.{TableKind, Node, table, array, leaf, new_node}
use teptris.Dom.Document.Links.{
  Shape, a_table, plain_array, array_of_tables, shape, Has, Inside, TableOk, NodeOk, IsLinked,
  Grows, Grows-refl, Grows-trans, Grows-new_node, IsLinked-new_node, Grows-set, IsLinked-set,
  IsLinked-set_fresh, ItemsOk-snoc, TablesOk-snoc, NodeOk-Grows,
}
use teptris.Parse.Result.{
  Status, Reason, Result, ok, fail, stuck, overrun, overrun_least, Read, reads, gives_up, IsRest,
  IsRest-length, IsRest-refl, IsRest-trans,
}
use teptris.Parse.Steps.{
  State, Action, ◌>>=◌, return, make, the_table, the_node, put, probe, insert, push, turn_of, turn,
  rounds,
}

-- The outcome of an action on the nodes `nodes` at the cursor `s`: the invariant, and more nodes, with `Q` of
-- the result, or a failure.
pub data Kept {D : Type 0} {A : Type 0} (fresh : Option ℕ) (nodes : List (Node D)) (s : Bytes)
    (Q : A → State D → Bytes → Type 0) : Result (A × State D) → Type 0 where
  keeps :
      {a : A} {ps : State D} {rest : Bytes}
      → IsRest rest s
      → IsLinked fresh ps.nodes
      → Grows nodes ps.nodes
      → Q a ps rest
      → Kept fresh nodes s Q (ok (a, ps) rest)
  fails :
      {st : Status} {why : Reason} {rest : Bytes}
      → IsRest rest s
      → Kept fresh nodes s Q (fail st why rest)
  overruns : overrun_least ≤ length s → Kept fresh nodes s Q overrun

module _ {D : Type 0} {A : Type 0} where
  pub Kept-Grows :
      {fresh : Option ℕ} {a b : List (Node D)} {s t : Bytes} {Q : A → State D → Bytes → Type 0}
      {r : Result (A × State D)}
      → Grows a b
      → IsRest s t
      → Kept fresh b s Q r
      → Kept fresh a t Q r
  Kept-Grows g c (keeps cursor tree grows q) =
      keeps (IsRest-trans cursor c) tree (Grows-trans g grows) q
  Kept-Grows g c (fails cursor) = fails (IsRest-trans cursor c)
  Kept-Grows g c (overruns long) = overruns (omega (arith, long, IsRest-length c))

  pub Kept-map :
      {fresh : Option ℕ} {a : List (Node D)} {s : Bytes} {P Q : A → State D → Bytes → Type 0}
      {r : Result (A × State D)}
      → ((x : A) (ps : State D) (rest : Bytes) → P x ps rest → Q x ps rest)
      → Kept fresh a s P r
      → Kept fresh a s Q r
  Kept-map f (keeps {a} {ps} {rest} cursor tree grows p) = keeps cursor tree grows (f a ps rest p)
  Kept-map f (fails cursor) = fails cursor
  Kept-map f (overruns long) = overruns long

module _ {D : Type 0} {A B : Type 0} where
  -- What `m >>= k` makes of the outcome of `m`.
  abbrev pub bound : (A → Action D B) → Result (A × State D) → Result (B × State D)
  bound k r = elim r [
    | ok (a, ps') rest ↦ k a ps' rest
    | fail st why rest ↦ fail st why rest
    | stuck ↦ stuck
    | overrun ↦ overrun
  ]

  pub Kept-bind :
      (k : A → Action D B) {middle fresh : Option ℕ} {nodes : List (Node D)} {s : Bytes}
      {P : A → State D → Bytes → Type 0} {Q : B → State D → Bytes → Type 0}
      {r : Result (A × State D)}
      → Kept middle nodes s P r
      → ((a : A) (ps' : State D) (rest : Bytes)
          → IsRest rest s
          → IsLinked middle ps'.nodes
          → Grows nodes ps'.nodes
          → P a ps' rest
          → Kept fresh ps'.nodes rest Q (k a ps' rest))
      → Kept fresh nodes s Q (bound k r)
  Kept-bind k (keeps {a} {ps} {rest} cursor tree grows p) then_k =
      Kept-Grows grows cursor (then_k a ps rest cursor tree grows p)
  Kept-bind k (fails cursor) then_k = fails cursor
  Kept-bind k (overruns long) then_k = overruns long

  pub Kept-step :
      (k : A → Action D B) {fresh : Option ℕ} {ps : State D} {s : Bytes} {a : A}
      {Q : B → State D → Bytes → Type 0} {r : Result (A × State D)}
      → r ≡ ok (a, ps) s
      → Kept fresh ps.nodes s Q (k a ps s)
      → Kept fresh ps.nodes s Q (bound k r)
  Kept-step k {fresh = fresh} {ps = ps} {s = s} {Q = Q} e h =
      subst (λ x. Kept fresh ps.nodes s Q (bound k x)) (sym e) h

module _ {D : Type 0} {A : Type 0} where
  -- A routine of the cursor leaves the nodes as they are.
  abbrev pub Same : State D → (A → Bytes → Type 0) → A → State D → Bytes → Type 0
  Same ps Q a ps' rest = (ps' ≡ ps) × Q a rest

  abbrev pub lifted : State D → Result A → Result (A × State D)
  lifted ps r = elim r [
    | ok a rest ↦ ok (a, ps) rest
    | fail st why rest ↦ fail st why rest
    | stuck ↦ stuck
    | overrun ↦ overrun
  ]

  pub Kept-lift :
      {fresh : Option ℕ} (ps : State D) {s : Bytes} {Q : A → Bytes → Type 0} {r : Result A}
      → IsLinked fresh ps.nodes
      → Read s Q r
      → Kept fresh ps.nodes s (Same ps Q) (lifted ps r)
  Kept-lift ps tree (reads cursor q) = keeps cursor tree (Grows-refl ps.nodes) (refl, q)
  Kept-lift ps tree (gives_up cursor) = fails cursor
  Kept-lift ps tree (Read.overruns long) = Kept.overruns long

module _ {D : Type 0} where
  abbrev pub Any : {A : Type 0} → A → State D → Bytes → Type 0
  Any a ps s = Unit

  abbrev pub IsNode : Shape → State D → ℕ → State D → Bytes → Type 0
  IsNode sh ps id ps' rest = (length ps.nodes ≤ id) × Has ps'.nodes id sh

  pub make-Kept :
      (n : Node D) (fresh : Option ℕ) (ps : State D) (s : Bytes)
      → IsLinked fresh ps.nodes
      → NodeOk fresh (new_node ps.nodes n) (length ps.nodes) n
      → Kept fresh ps.nodes s
          (λ id ps' rest. (id ≡ length ps.nodes) × (ps'.nodes ≡ new_node ps.nodes n))
          (make n ps s)
  unfolding make
  make-Kept n fresh ps s tree is_ok =
      keeps (IsRest-refl s) (IsLinked-new_node fresh ps.nodes n tree is_ok)
        (Grows-new_node ps.nodes n) (refl, refl)

  pub table_of :
      (n : Node D) → shape n ≡ a_table → (k : TableKind) × (t : Table ℕ) × (n ≡ table k t)
  table_of (table k t) is = (k, t, refl)
  table_of (array false items) is = absurd (cc)
  table_of (array true items) is = absurd (cc)
  table_of (leaf v) is = absurd (cc)

  the_table_lem :
      (id : ℕ) (ps : State D) (s : Bytes) (k : TableKind) (t : Table ℕ)
      → get_elem? ps.nodes id ≡ some (table k t)
      → the_table id ps s ≡ ok ((k, t), ps) s
  unfolding the_table
  the_table_lem id ps s k t there = rw (there, the_table) refl

  probe_lem :
      (id : ℕ) (key : Bytes) (ps : State D) (s : Bytes) (k : TableKind) (t : Table ℕ)
      → get_elem? ps.nodes id ≡ some (table k t)
      → probe id key ps s ≡ ok (probe_slot t (key_hash key) key, ps) s
  unfolding probe
  probe_lem id key ps s k t there =
      ap (bound (λ (kt : TableKind × Table ℕ). return (probe_slot kt.1 (key_hash key) key)))
        (the_table_lem id ps s k t there)

  pub the_node_lem :
      (id : ℕ) (ps : State D) (s : Bytes) (n : Node D)
      → get_elem? ps.nodes id ≡ some n
      → the_node id ps s ≡ ok (n, ps) s
  unfolding the_node
  the_node_lem id ps s n at = rw (at, the_node) refl

  -- What a probe of a table gives: an entry, whose node is there, or a slot for a new one.
  pub data Probed (ps : State D) (id : ℕ) (key : Bytes) : Probe ℕ → Type 0 where
    hit : {e : Entry ℕ} → Inside ps.nodes e.value → Probed ps id key (found e)
    miss :
        {slot : Option ℕ} (k : TableKind) (t : Table ℕ)
        → get_elem? ps.nodes id ≡ some (table k t)
        → probe_slot t (key_hash key) key ≡ absent slot
        → Lacks t.entries key
        → Probed ps id key (absent slot)

  probed :
      (ps : State D) (id : ℕ) (key : Bytes) (k : TableKind) (t : Table ℕ) (p : Probe ℕ)
      → get_elem? ps.nodes id ≡ some (table k t)
      → TableOk ps.nodes id t
      → probe_slot t (key_hash key) key ≡ p
      → Probes t key p
      → Probed ps id key p
  probed ps id key k t p there is_ok e (hits i at same) = hit (is_ok.children i _ at)
  probed ps id key k t p there is_ok e (misses lacks) = miss k t there e lacks

  -- An action on what a probe of a table gives.
  pub with_probe-Kept :
      {A : Type 0} (act : Probe ℕ → Action D A) (id : ℕ) (key : Bytes) (fresh : Option ℕ)
      (ps : State D) (s : Bytes) (Q : A → State D → Bytes → Type 0)
      → IsLinked none ps.nodes
      → Has ps.nodes id a_table
      → ((p : Probe ℕ) → Probed ps id key p → Kept fresh ps.nodes s Q (act p ps s))
      → Kept fresh ps.nodes s Q ((probe id key >>= act) ps s)
  with_probe-Kept act id key fresh ps s Q tree (n, at, is) kept =
      let (k, t, e) = table_of n is in
      let there : get_elem? ps.nodes id ≡ some (table k t) = at ∙ ap some e in
      let is_ok = tree id (table k t) there in
      let p = probe_slot t (key_hash key) key in
      Kept-step act (probe_lem id key ps s k t there)
        (kept p (probed ps id key k t p there is_ok refl (probe_slot-Probes t key is_ok.well)))

  -- A new entry for a node.
  inserted-TableOk :
      (nodes : List (Node D)) (id : ℕ) (key : Bytes) (value : ℕ) (slot : Option ℕ) (t : Table ℕ)
      → TableOk nodes id t
      → Inside nodes value
      → probe_slot t (key_hash key) key ≡ absent slot
      → Lacks t.entries key
      → TableOk nodes id (table_insert_slot t key (key_hash key) value slot)
  inserted-TableOk nodes id key value slot t is_ok later h lacks =
      let (well, same) = table_insert_slot-IsWell t key value slot is_ok.well h lacks in
      record {
        well = well;
        children = λ i e at.
            elim (get_elem?-snoc t.entries
              (record { key = key; value = value; hash = key_hash key }) i e
              (ap (λ (xs : List (Entry ℕ)). get_elem? xs i) (sym same) ∙ at)) [
                | inl old ↦ is_ok.children i e old
                | inr (end, new) ↦ subst (λ (x : Entry ℕ). Inside nodes x.value) new later
              ];
      }

  pub insert-Kept :
      (id : ℕ) (key : Bytes) (value : ℕ) (slot : Option ℕ) (fresh : Option ℕ) (ps : State D)
      (s : Bytes) (k : TableKind) (t : Table ℕ)
      → IsLinked fresh ps.nodes
      → get_elem? ps.nodes id ≡ some (table k t)
      → probe_slot t (key_hash key) key ≡ absent slot
      → Lacks t.entries key
      → Inside ps.nodes value
      → Kept fresh ps.nodes s Any (insert id key value slot ps s)
  unfolding insert the_table put
  insert-Kept id key value slot fresh ps s k t tree there h lacks later =
      let new : Node D = table k (table_insert_slot t key (key_hash key) value slot) in
      let has : Has ps.nodes id a_table = (table k t, there, refl) in
      let is_ok =
        inserted-TableOk ps.nodes id key value slot t (tree id (table k t) there) later h lacks in
      let kept =
        NodeOk-Grows fresh ps.nodes (set ps.nodes id new) id new (Grows-set ps.nodes id new has)
          is_ok in
      let done : Kept fresh ps.nodes s Any (put id new ps s) =
        keeps (IsRest-refl s) (IsLinked-set fresh ps.nodes id new tree has kept)
          (Grows-set ps.nodes id new has) tt in
      Kept-step
        (λ (kt : TableKind × Table ℕ).
          put id (table kt.0 (table_insert_slot kt.1 key (key_hash key) value slot)))
        (the_table_lem id ps s k t there) done

  -- An action on the node of a number that is in use.
  pub with_node-Kept :
      {A : Type 0} (act : Node D → Action D A) (id : ℕ) (fresh : Option ℕ) (ps : State D)
      (s : Bytes) (Q : A → State D → Bytes → Type 0)
      → id < length ps.nodes
      → ((n : Node D) → get_elem? ps.nodes id ≡ some n → Kept fresh ps.nodes s Q (act n ps s))
      → Kept fresh ps.nodes s Q ((the_node id >>= act) ps s)
  with_node-Kept act id fresh ps s Q lt kept =
      let (n, at) = get_elem?-some ps.nodes id lt in
      Kept-step act (the_node_lem id ps s n at) (kept n at)

  -- A new table under a key.
  pub empty_table-NodeOk :
      (fresh : Option ℕ) (nodes : List (Node D)) (id : ℕ) (k : TableKind)
      → NodeOk fresh nodes id (table k empty)
  empty_table-NodeOk fresh nodes id k = record {
    well = empty-IsWell;
    children = λ i e at. absurd (none_ne_some at);
  }

  array_of :
      (n : Node D) (aot : Bool)
      → shape n ≡ (if aot then array_of_tables else plain_array)
      → (items : List ℕ) × (n ≡ array aot items)
  array_of (table k t) false is = absurd (cc)
  array_of (table k t) true is = absurd (cc)
  array_of (array false items) false is = (items, refl)
  array_of (array false items) true is = absurd (cc)
  array_of (array true items) false is = absurd (cc)
  array_of (array true items) true is = (items, refl)
  array_of (leaf v) false is = absurd (cc)
  array_of (leaf v) true is = absurd (cc)

  push_lem :
      (id value : ℕ) (ps : State D) (s : Bytes) (aot : Bool) (items : List ℕ)
      → get_elem? ps.nodes id ≡ some (array aot items)
      → push id value ps s
        ≡ ok (tt, record ps { nodes = set ps.nodes id (array aot (items ++ value ∷ [])) }) s
  unfolding push
  push_lem id value ps s aot items at = rw (at, push) refl

  -- An item of an array, and the table that an array of tables gets.
  pub push-Kept :
      (id value : ℕ) (ps : State D) (s : Bytes)
      → IsLinked none ps.nodes
      → Has ps.nodes id plain_array
      → Inside ps.nodes value
      → Kept none ps.nodes s Any (push id value ps s)
  push-Kept id value ps s tree (n, at, is) inside =
      let (items, e) = array_of n false is in
      let there : get_elem? ps.nodes id ≡ some (array false items) = at ∙ ap some e in
      let new : Node D = array false (items ++ value ∷ []) in
      let has : Has ps.nodes id plain_array = (array false items, there, refl) in
      let grows = Grows-set ps.nodes id new has in
      let is_ok = ItemsOk-snoc ps.nodes id items value (tree id (array false items) there) inside in
      let kept = NodeOk-Grows none ps.nodes (set ps.nodes id new) id new grows is_ok in
      subst (Kept none ps.nodes s Any) (sym (push_lem id value ps s false items there))
        (keeps (IsRest-refl s) (IsLinked-set none ps.nodes id new tree has kept) grows tt)

  pub push_table-Kept :
      (id value : ℕ) (ps : State D) (s : Bytes)
      → IsLinked (some id) ps.nodes
      → Has ps.nodes id array_of_tables
      → Inside ps.nodes value
      → Has ps.nodes value a_table
      → Kept none ps.nodes s Any (push id value ps s)
  push_table-Kept id value ps s tree (n, at, is) inside a =
      let (items, e) = array_of n true is in
      let there : get_elem? ps.nodes id ≡ some (array true items) = at ∙ ap some e in
      let new : Node D = array true (items ++ value ∷ []) in
      let has : Has ps.nodes id array_of_tables = (array true items, there, refl) in
      let grows = Grows-set ps.nodes id new has in
      let is_ok =
        TablesOk-snoc (some id) ps.nodes id items value (tree id (array true items) there) inside
          a in
      let kept = NodeOk-Grows none ps.nodes (set ps.nodes id new) id new grows is_ok in
      subst (Kept none ps.nodes s Any) (sym (push_lem id value ps s true items there))
        (keeps (IsRest-refl s) (IsLinked-set_fresh ps.nodes id new tree has kept) grows tt)

  abbrev pub GoesOn :
      {V : Type 0} → (V → State D → Type 0) → Bytes → Option V → State D → Bytes → Type 0
  GoesOn I s none ps rest = Unit
  GoesOn I s (some v) ps rest = (length rest < length s) × I v ps

  pub GoesOn-le :
      {V : Type 0} (I : V → State D → Type 0) (s t : Bytes) (o : Option V) (ps : State D)
      (rest : Bytes)
      → length s ≤ length t
      → GoesOn I s o ps rest
      → GoesOn I t o ps rest
  GoesOn-le I s t none ps rest le h = tt
  GoesOn-le I s t (some v) ps rest le (less, inv) = (omega arith, inv)

  -- A loop whose rounds keep the invariant and something more of its variable, and that move the
  -- cursor on when they go on, comes to an end.
  module _ {V : Type 0} (round : V → Action D (Option V)) (I : V → State D → Type 0) where
    turned :
        (n : ℕ) {nodes : List (Node D)} {s : Bytes} {r : Result (Option V × State D)}
        → Kept none nodes s (GoesOn I s) r
        → ((v : V) (ps : State D) (rest : Bytes)
            → IsLinked none ps.nodes
            → length rest < length s
            → I v ps
            → Kept none ps.nodes rest Any (loop stuck (turn round) n (v, ps, rest)))
        → Kept none nodes s Any
            (elim (turn_of r) [ again t ↦ loop stuck (turn round) n t | leave x ↦ x ])
    turned n (keeps {a = none} cursor tree grows q) later = keeps cursor tree grows tt
    turned n (keeps {a = some v} {ps = ps} {rest = rest} cursor tree grows (less, inv)) later =
        Kept-Grows grows cursor (later v ps rest tree less inv)
    turned n (fails cursor) later = fails cursor
    turned n (overruns long) later = overruns long

    module _
        (step : (v : V) (ps : State D) (s : Bytes)
          → IsLinked none ps.nodes
          → I v ps
          → Kept none ps.nodes s (GoesOn I s) (round v ps s)) where
      loop-Kept :
          (n : ℕ) (v : V) (ps : State D) (s : Bytes)
          → length s < n
          → IsLinked none ps.nodes
          → I v ps
          → Kept none ps.nodes s Any (loop stuck (turn round) n (v, ps, s))
      unfolding loop
      loop-Kept zero v ps s h tree inv = absurd (omega arith)
      loop-Kept (suc n) v ps s h tree inv =
          turned n (step v ps s tree inv)
            (λ v' ps' rest tree' less inv'. loop-Kept n v' ps' rest (omega arith) tree' inv')

      pub rounds-Kept :
          (v : V) (ps : State D) (s : Bytes)
          → IsLinked none ps.nodes
          → I v ps
          → Kept none ps.nodes s Any (rounds round v ps s)
      unfolding rounds run
      rounds-Kept v ps s tree inv = loop-Kept (suc (length s)) v ps s (omega arith) tree inv
