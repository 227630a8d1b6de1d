-- ===== src/Dom/Table/Refines.antt =====
-- The table as what it stands for: a search of the entries in the order of their insertion.
use native.Mathlib.Nat.{mod-lt}
use teptris.Base.{
  ℕ, suc, ◌%◌, ◌≤◌, ◌<◌, Bool, true, false, List, [], ◌∷◌, ◌++◌, Option, none, some, Bytes, length,
  get_elem?, none_ne_some, same_bytes, same_bytes→eq, same_bytes_refl, ◌==◌, if◌then◌else◌, ◌≡◌,
  ◌≢◌, inl, inr, refl, sym, ap, subst, ◌∙◌, arith, Bool-cases, Option-cases,
}
use teptris.Dom.Table.{
  Entry, Table, Probe, found, absent, lost, key_hash, walk, is_key, is_entry, probe_slot, entry_of,
  table_find, table_insert, table_insert_slot, is_crowded, append_entry, index_insert, set_at,
  index_rebuild, empty_slot,
}
use teptris.Dom.Table.Slots.{zeros, zeros-Gap, Chain}
use teptris.Dom.Table.Walks.{walk-found, walk-absent, walk-lost, walk-empty_slot}
use teptris.Dom.Table.Entries.{
  find_entry, find_entry-Lacks, Lacks-find_entry, find_entry-Distinct, find_entry-append, walk_ext,
}
use teptris.Dom.Table.Invariant.{
  IsWell, Lacks, entry, insert-crowded, insert-roomy, IsWell-table_insert,
}

nothing {ℓ} : {B : Type ℓ} (xs : List B) → length xs ≡ 0 → xs ≡ []
nothing [] h = refl
nothing (x ∷ xs) h = absurd (omega arith)

module _ {ℓ} {A : Type ℓ} where
  -- The walk for a key, from the slot of its hash.
  walk_for : Table A → Bytes → Probe A
  walk_for t key =
      walk (is_key key) t.entries t.index (length t.index) (key_hash key % length t.index)

  -- The two tests agree on the entries of the table.
  is_entry-is_key :
      (t : Table A) (key : Bytes) (i : ℕ) (x : Entry A)
      → IsWell t
      → get_elem? t.entries i ≡ some x
      → is_entry (key_hash key) key x ≡ is_key key x
  is_entry-is_key t key i x w at =
      let kept : x.hash ≡ key_hash x.key = w.hashed i x at in
      elim (Bool-cases (same_bytes x.key key)) [
        | inl same ↦
            let equal : x.hash ≡ key_hash key = kept ∙ ap key_hash (same_bytes→eq x.key key same) in
            ground arith
        | inr other ↦ ground arith
      ]

  probe_slot-walk_for :
      (t : Table A) (key : Bytes)
      → IsWell t
      → probe_slot t (key_hash key) key
        ≡ (if length t.index == 0 then absent none else walk_for t key)
  unfolding probe_slot walk_for
  probe_slot-walk_for t key w =
      ap (λ (p : Probe A). if length t.index == 0 then absent none else p)
        (walk_ext (is_entry (key_hash key) key) (is_key key) t.entries t.index (length t.index)
          (key_hash key % length t.index) (λ i x at. is_entry-is_key t key i x w at))

  entry_of_if :
      (b : Bool) (p : Probe A)
      → entry_of (if b then absent none else p) ≡ (if b then none else entry_of p)
  entry_of_if true p = refl
  entry_of_if false p = refl

  pub probe_slot-table_find :
      (t : Table A) (key : Bytes)
      → IsWell t
      → entry_of (probe_slot t (key_hash key) key) ≡ table_find t key
  unfolding table_find walk_for
  probe_slot-table_find t key w =
      ap entry_of (probe_slot-walk_for t key w) ∙ entry_of_if (length t.index == 0) (walk_for t key)

  no_entries : (t : Table A) → IsWell t → (length t.index == 0) ≡ true → t.entries ≡ []
  no_entries t w h = nothing t.entries (let r = w.indexed.room in ground arith)

  -- A walk that stops shows that no entry has the key.
  absent-Lacks :
      (t : Table A) (key : Bytes) (o : Option ℕ)
      → IsWell t
      → walk_for t key ≡ absent o
      → Lacks t.entries key
  unfolding walk_for
  absent-Lacks t key o w h i x at k =
      let same_hash : x.hash ≡ key_hash key = w.hashed i x at ∙ ap key_hash k in
      let chain =
        subst (λ (n : ℕ). Chain t.index (suc i) (n % length t.index)) same_hash
          (w.indexed.chained i x at) in
      let other =
        walk-absent (is_key key) t.entries t.index (length t.index) (key_hash key % length t.index)
          o i x h chain at in
      let same : same_bytes x.key key ≡ true =
        ap (λ (b : Bytes). same_bytes b key) k ∙ same_bytes_refl key in
      ground arith

  never_lost : (t : Table A) (key : Bytes) → IsWell t → 1 ≤ length t.index → walk_for t key ≢ lost
  unfolding walk_for
  never_lost t key w long h =
      let start : key_hash key % length t.index < length t.index = mod-lt (key_hash key) long in
      let left : 1 ≤ zeros t.index =
        let room = w.indexed.room in let few = w.spare in omega arith in
      walk-lost (is_key key) t.entries t.index (length t.index) (key_hash key % length t.index)
        (zeros-Gap t.index (key_hash key % length t.index) left start) w.indexed.bounded h

  -- With slots, a walk ends with the entry that a search of the entries finds, or stops where the
  -- search fails.
  ends :
      (t : Table A) (key : Bytes) (p : Probe A)
      → IsWell t
      → 1 ≤ length t.index
      → walk_for t key ≡ p
      → entry_of p ≡ find_entry t.entries key
  unfolding walk_for
  ends t key (found x) w long h =
      let (ok, i, at) =
        walk-found (is_key key) t.entries t.index (length t.index) (key_hash key % length t.index) x
          h in
      sym (find_entry-Distinct t.entries key i x w.distinct at (same_bytes→eq x.key key ok))
  ends t key (absent o) w long h = sym (find_entry-Lacks t.entries key (absent-Lacks t key o w h))
  ends t key lost w long h = absurd (never_lost t key w long h)

  -- in a well-formed table, the hash index finds for every key the entry that a search through all
  -- entries in the order of their insertion finds, or nothing where it finds none
  pub table_find_lem :
      (t : Table A) (key : Bytes) → IsWell t → table_find t key ≡ find_entry t.entries key
  unfolding table_find walk_for find_entry
  table_find_lem t key w = elim (Bool-cases (length t.index == 0)) [
    | inl h ↦
        ap (λ (b : Bool). if b then none else entry_of (walk_for t key)) h
        ∙ ap (λ (xs : List (Entry A)). find_entry xs key) (sym (no_entries t w h))
    | inr h ↦
        ap (λ (b : Bool). if b then none else entry_of (walk_for t key)) h
        ∙ ends t key (walk_for t key) w (ground arith) refl
  ]

  pub table_insert-entries :
      (t : Table A) (key : Bytes) (value : A)
      → (table_insert t key value).entries ≡ t.entries ++ entry key value ∷ []
  unfolding table_insert append_entry index_rebuild
  table_insert-entries t key value = elim (Bool-cases (is_crowded t)) [
    | inl h ↦ ap (λ (u : Table A). u.entries) (insert-crowded t key value none h)
    | inr h ↦ ap (λ (u : Table A). u.entries) (insert-roomy t key value none h)
  ]

  -- As no old entry has the key of the new one, the order of the two searches is all the same.
  found_or_new :
      (xs : List (Entry A)) (key other : Bytes) (value : A)
      → Lacks xs key
      → (elim (find_entry xs other) [
        | none ↦ find_entry (entry key value ∷ []) other
        | some x ↦ some x
      ])
        ≡ (if same_bytes key other then some (entry key value) else find_entry xs other)
  unfolding find_entry
  found_or_new xs key other value lacks = elim (Bool-cases (same_bytes key other)) [
    | inl same ↦
        let missing : find_entry xs other ≡ none =
          subst (λ (k : Bytes). find_entry xs k ≡ none) (same_bytes→eq key other same)
            (find_entry-Lacks xs key lacks) in
        ground arith
    | inr different ↦ elim (Option-cases (find_entry xs other)) [
      | inl missing ↦ ground arith
      | inr (x, there) ↦ ground arith
    ]
  ]

  -- inserting a key that a look-up does not find keeps the table well-formed, whether the index has
  -- to grow or not, and adds the entry behind all others
  pub table_insert-IsWell :
      (t : Table A) (key : Bytes) (value : A)
      → IsWell t
      → table_find t key ≡ none
      → IsWell (table_insert t key value)
        × ((table_insert t key value).entries
            ≡ t.entries ++ (record { key = key; value = value; hash = key_hash key }) ∷ [])
  table_insert-IsWell t key value w new = (
    IsWell-table_insert t key value w
        (Lacks-find_entry t.entries key (sym (table_find_lem t key w) ∙ new)),
    table_insert-entries t key value,
  )

  -- after the insertion of a new key into a well-formed table, a look-up finds the new entry under
  -- that key, and under every other key what it found before
  pub table_find-table_insert :
      (t : Table A) (key other : Bytes) (value : A)
      → IsWell t
      → table_find t key ≡ none
      → table_find (table_insert t key value) other ≡ (
          if same_bytes key other
          then some (record { key = key; value = value; hash = key_hash key })
          else table_find t other)
  unfolding find_entry
  table_find-table_insert t key other value w new =
      let lacks = Lacks-find_entry t.entries key (sym (table_find_lem t key w) ∙ new) in
      table_find_lem (table_insert t key value) other (IsWell-table_insert t key value w lacks)
      ∙ ap (λ (xs : List (Entry A)). find_entry xs other) (table_insert-entries t key value)
      ∙ find_entry-append t.entries (entry key value) other
      ∙ found_or_new t.entries key other value lacks
      ∙ ap (λ (o : Option (Entry A)). if same_bytes key other then some (entry key value) else o)
          (sym (table_find_lem t other w))

  -- The empty slot at which a probe stopped is the one of `index_insert`.
  probe_slot-empty_slot :
      (t : Table A) (key : Bytes) (s : ℕ)
      → IsWell t
      → probe_slot t (key_hash key) key ≡ absent (some s)
      → empty_slot t.index (length t.index) (key_hash key % length t.index) ≡ some s
  unfolding walk_for
  probe_slot-empty_slot t key s w h =
      let same = probe_slot-walk_for t key w in
      elim (Bool-cases (length t.index == 0)) [
        | inl e ↦
            let stopped : probe_slot t (key_hash key) key ≡ absent none =
              same ∙ ap (λ (b : Bool). if b then absent none else walk_for t key) e in
            absurd (cc)
        | inr e ↦
            let walked : walk_for t key ≡ absent (some s) =
              sym (same ∙ ap (λ (b : Bool). if b then absent none else walk_for t key) e) ∙ h in
            walk-empty_slot (is_key key) t.entries t.index (length t.index)
              (key_hash key % length t.index) (some s) walked
      ]

  append_entry-slot :
      (t : Table A) (key : Bytes) (value : A) (slot : Option ℕ)
      → IsWell t
      → probe_slot t (key_hash key) key ≡ absent slot
      → append_entry t key (key_hash key) value slot ≡ append_entry t key (key_hash key) value none
  unfolding append_entry index_insert
  append_entry-slot t key value none w h = refl
  append_entry-slot t key value (some s) w h =
      ap
        (λ (o : Option ℕ). record {
          entries = t.entries ++ entry key value ∷ [];
          index = set_at t.index o (suc (length t.entries));
        })
        (sym (probe_slot-empty_slot t key s w h))

  -- when a probe of a well-formed table finds no entry, an insertion at the slot that the probe
  -- hands on is the same as one that looks for a slot again, also where the index grows in between
  pub probe_slot-table_insert_slot :
      (t : Table A) (key : Bytes) (value : A) (slot : Option ℕ)
      → IsWell t
      → probe_slot t (key_hash key) key ≡ absent slot
      → table_insert_slot t key (key_hash key) value slot ≡ table_insert t key value
  unfolding table_insert
  probe_slot-table_insert_slot t key value slot w h = elim (Bool-cases (is_crowded t)) [
    | inl full ↦ insert-crowded t key value slot full ∙ sym (insert-crowded t key value none full)
    | inr free ↦
        insert-roomy t key value slot free
        ∙ append_entry-slot t key value slot w h
        ∙ sym (insert-roomy t key value none free)
  ]

  -- What a probe of a well-formed table gives: an entry with the key, or a slot where none has it.
  pub data Probes (t : Table A) (key : Bytes) : Probe A → Type ℓ where
    hits :
        {x : Entry A} (i : ℕ)
        → get_elem? t.entries i ≡ some x
        → x.key ≡ key
        → Probes t key (found x)
    misses : {slot : Option ℕ} → Lacks t.entries key → Probes t key (absent slot)

  walk_for-Probes :
      (t : Table A) (key : Bytes) (p : Probe A)
      → IsWell t
      → 1 ≤ length t.index
      → walk_for t key ≡ p
      → Probes t key p
  unfolding walk_for
  walk_for-Probes t key (found x) w long h =
      let (ok, i, at) =
        walk-found (is_key key) t.entries t.index (length t.index) (key_hash key % length t.index) x
          h in
      hits i at (same_bytes→eq x.key key ok)
  walk_for-Probes t key (absent o) w long h = misses (absent-Lacks t key o w h)
  walk_for-Probes t key lost w long h = absurd (never_lost t key w long h)

  pub probe_slot-Probes :
      (t : Table A) (key : Bytes) → IsWell t → Probes t key (probe_slot t (key_hash key) key)
  probe_slot-Probes t key w =
      subst (Probes t key) (sym (probe_slot-walk_for t key w))
        (elim (Bool-cases (length t.index == 0)) [
          | inl h ↦ rw h (
              misses (λ i x at. absurd (
                none_ne_some
                  (ap (λ (xs : List (Entry A)). get_elem? xs i) (sym (no_entries t w h)) ∙ at))))
          | inr h ↦ rw h (walk_for-Probes t key (walk_for t key) w (ground arith) refl)
        ])

  -- An insertion at the slot of a probe.
  pub table_insert_slot-IsWell :
      (t : Table A) (key : Bytes) (value : A) (slot : Option ℕ)
      → IsWell t
      → probe_slot t (key_hash key) key ≡ absent slot
      → Lacks t.entries key
      → IsWell (table_insert_slot t key (key_hash key) value slot)
        × ((table_insert_slot t key (key_hash key) value slot).entries
            ≡ t.entries ++ entry key value ∷ [])
  table_insert_slot-IsWell t key value slot w h lacks =
      let same = probe_slot-table_insert_slot t key value slot w h in
      (
        subst IsWell (sym same) (IsWell-table_insert t key value w lacks),
        ap (λ (u : Table A). u.entries) same ∙ table_insert-entries t key value,
      )
