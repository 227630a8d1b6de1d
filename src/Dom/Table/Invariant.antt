-- ===== src/Dom/Table/Invariant.antt =====
-- The invariant of a table, from the empty one on.
use teptris.Base.{
  ℕ, ◌+◌, ◌*◌, ◌≤◌, Bool, true, false, List, [], ◌∷◌, ◌++◌, Option, none, some, Bytes, length,
  length-append, get_elem?, get_elem?-snoc, none_ne_some, replicate, length-replicate, ◌==◌,
  if◌then◌else◌, ◌≡◌, ◌≢◌, ◌⊎◌, inl, inr, refl, sym, ap, subst, ◌∙◌, arith, Bool-cases,
}
use teptris.Dom.Table.{
  Entry, Table, empty, key_hash, index_insert, index_rebuild, is_crowded, append_entry,
  table_insert_slot, table_insert,
}
use teptris.Dom.Table.Slots.{zeros}
use teptris.Dom.Table.Index.{
  IsIndex, index_insert-IsIndex, length-index_insert, length-insert_all, fresh-IsIndex,
}

pub record IsWell {ℓ} {A : Type ℓ} (t : Table A) : Type ℓ where
  -- The hash that an entry keeps is that of its key,
  pub hashed : (i : ℕ) (x : Entry A) → get_elem? t.entries i ≡ some x → x.hash ≡ key_hash x.key
  -- no two entries have the same key,
  pub distinct :
      (i j : ℕ) (x y : Entry A)
      → get_elem? t.entries i ≡ some x
      → get_elem? t.entries j ≡ some y
      → x.key ≡ y.key
      → i ≡ j
  -- the index leads to every entry,
  pub indexed : IsIndex t.index t.entries
  -- and is at most seven tenths full, with 16 slots or more where it has any.
  pub spare : length t.entries * 10 ≤ length t.index * 7
  pub sized : (length t.index ≡ 0) ⊎ (16 ≤ length t.index)

module _ {ℓ} {A : Type ℓ} where
  pub empty-IsWell : IsWell (empty {A = A})
  unfolding zeros
  empty-IsWell = record {
    hashed = λ i x h. absurd (none_ne_some h);
    distinct = λ i j x y h. absurd (none_ne_some h);
    indexed = record {
      chained = λ i x h. absurd (none_ne_some h);
      bounded = λ s. omega arith;
      room = refl;
    };
    spare = omega arith;
    sized = inl refl;
  }

  -- No entry has the key.
  abbrev pub Lacks : List (Entry A) → Bytes → Type ℓ
  Lacks entries key = (i : ℕ) (x : Entry A) → get_elem? entries i ≡ some x → x.key ≢ key

  -- With a new entry at the end and an index for it.
  appended-IsWell :
      (t : Table A) (e : Entry A) (index : List ℕ)
      → IsWell t
      → Lacks t.entries e.key
      → e.hash ≡ key_hash e.key
      → IsIndex index (t.entries ++ e ∷ [])
      → (length t.entries + 1) * 10 ≤ length index * 7
      → 16 ≤ length index
      → IsWell (record { entries = t.entries ++ e ∷ []; index = index })
  appended-IsWell t e index w lacks hash ix roomy long = record {
    hashed = λ i x h. elim (get_elem?-snoc t.entries e i x h) [
      | inl old ↦ w.hashed i x old
      | inr (end, same) ↦ subst (λ (y : Entry A). y.hash ≡ key_hash y.key) same hash
    ];
    distinct = λ i j x y hx hy k. elim (get_elem?-snoc t.entries e i x hx) [
      | inl old ↦ elim (get_elem?-snoc t.entries e j y hy) [
        | inl also ↦ w.distinct i j x y old also k
        | inr (end, same) ↦ absurd (lacks i x old (k ∙ ap (λ (z : Entry A). z.key) (sym same)))
      ]
      | inr (end, same) ↦ elim (get_elem?-snoc t.entries e j y hy) [
        | inl also ↦ absurd (lacks j y also (sym k ∙ ap (λ (z : Entry A). z.key) (sym same)))
        | inr (last, too) ↦ end ∙ sym last
      ]
    ];
    indexed = ix;
    spare = let more = length-append t.entries (e ∷ []) in omega arith;
    sized = inr long;
  }

  -- `index_rebuild` keeps all but the index.
  rebuilt-IsWell :
      (t : Table A) (slots : ℕ)
      → IsWell t
      → (length t.entries + 1) * 10 ≤ slots * 7
      → 16 ≤ slots
      → IsWell (index_rebuild t slots)
  unfolding index_rebuild
  rebuilt-IsWell t slots w roomy long =
      let n = length-insert_all 0 t.entries (replicate slots 0) ∙ length-replicate slots 0 in
      record {
        hashed = w.hashed;
        distinct = w.distinct;
        indexed = fresh-IsIndex t.entries slots (omega arith);
        spare = omega arith;
        sized = inr (omega arith);
      }

  abbrev pub entry : Bytes → A → Entry A
  entry key value = record { key = key; value = value; hash = key_hash key }

  -- Into a table with room, at a slot that a fresh walk finds.
  append-IsWell :
      (t : Table A) (key : Bytes) (value : A)
      → IsWell t
      → Lacks t.entries key
      → (length t.entries + 1) * 10 ≤ length t.index * 7
      → 16 ≤ length t.index
      → IsWell (append_entry t key (key_hash key) value none)
  unfolding append_entry
  append-IsWell t key value w lacks roomy long =
      let n = length-index_insert t.index (length t.entries) (key_hash key) in
      appended-IsWell t (entry key value) (index_insert t.index (length t.entries) (key_hash key)) w
        lacks refl
        (index_insert-IsIndex t.index t.entries (entry key value) w.indexed
          (omega (arith, w.spare)))
        (omega arith) (omega arith)

  -- The slots of the index that `table_insert_slot` makes.
  abbrev pub grown : Table A → ℕ
  grown t = if length t.index == 0 then 16 else length t.index * 2

  pub insert-crowded :
      (t : Table A) (key : Bytes) (value : A) (slot : Option ℕ)
      → is_crowded t ≡ true
      → table_insert_slot t key (key_hash key) value slot
        ≡ append_entry (index_rebuild t (grown t)) key (key_hash key) value none
  unfolding table_insert_slot
  insert-crowded t key value slot h =
      ap
        (λ (b : Bool).
          if b
          then append_entry (index_rebuild t (grown t)) key (key_hash key) value none
          else append_entry t key (key_hash key) value slot)
        h

  pub insert-roomy :
      (t : Table A) (key : Bytes) (value : A) (slot : Option ℕ)
      → is_crowded t ≡ false
      → table_insert_slot t key (key_hash key) value slot
        ≡ append_entry t key (key_hash key) value slot
  unfolding table_insert_slot
  insert-roomy t key value slot h =
      ap
        (λ (b : Bool).
          if b
          then append_entry (index_rebuild t (grown t)) key (key_hash key) value none
          else append_entry t key (key_hash key) value slot)
        h

  grown-enough :
      (t : Table A) → IsWell t → ((length t.entries + 1) * 10 ≤ grown t * 7) × (16 ≤ grown t)
  grown-enough t w = elim w.sized [
    | inl none_yet ↦ let few = w.spare in (ground arith, ground arith)
    | inr some_there ↦ let few = w.spare in (ground arith, ground arith)
  ]

  roomy :
      (t : Table A)
      → IsWell t
      → is_crowded t ≡ false
      → ((length t.entries + 1) * 10 ≤ length t.index * 7) × (16 ≤ length t.index)
  roomy t w h = elim w.sized [
    | inl none_yet ↦ absurd (ground arith)
    | inr some_there ↦ (ground arith, some_there)
  ]

  -- An insertion of a key that no entry has keeps the invariant.
  pub IsWell-table_insert :
      (t : Table A) (key : Bytes) (value : A)
      → IsWell t
      → Lacks t.entries key
      → IsWell (table_insert t key value)
  unfolding table_insert index_rebuild
  IsWell-table_insert t key value w lacks = elim (Bool-cases (is_crowded t)) [
    | inl h ↦
        let (enough, long) = grown-enough t w in
        let n =
          length-insert_all 0 t.entries (replicate (grown t) 0) ∙ length-replicate (grown t) 0 in
        subst IsWell (sym (insert-crowded t key value none h)) (
          append-IsWell (index_rebuild t (grown t)) key value
            (rebuilt-IsWell t (grown t) w enough long) lacks (omega arith) (omega arith))
    | inr h ↦
        let (enough, long) = roomy t w h in
        subst IsWell (sym (insert-roomy t key value none h))
          (append-IsWell t key value w lacks enough long)
  ]
