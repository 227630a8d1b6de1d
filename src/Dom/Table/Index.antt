-- ===== src/Dom/Table/Index.antt =====
-- What ties an index to the array of entries, and that `index_insert` and `index_rebuild` keep it.
use native.Mathlib.Nat.{mod-lt}
use teptris.Base.{
  ℕ, zero, suc, ◌+◌, ◌%◌, ◌≤◌, ◌<◌, List, [], ◌∷◌, ◌++◌, append_assoc, append-nil, Option, none,
  some, length, length-append, get_elem?, get_elem?-snoc, none_ne_some, get_or, set, replicate,
  length-set, length-replicate, ◌≡◌, inl, inr, refl, sym, ap, subst, ◌∙◌, arith,
}
use teptris.Dom.Table.{Entry, empty_slot, set_at, index_insert, insert_all}
use teptris.Dom.Table.Slots.{
  Chain, zeros, zeros-set, zeros-replicate, zeros-Gap, Chain-set, Chain-empty_slot, empty_slot-zero,
  Gap-empty_slot,
}

pub record IsIndex {ℓ} {A : Type ℓ} (index : List ℕ) (entries : List (Entry A)) : Type ℓ where
  -- From the slot of its hash a walk comes to each entry,
  pub chained :
      (i : ℕ) (x : Entry A)
      → get_elem? entries i ≡ some x
      → Chain index (suc i) (x.hash % length index)
  -- each slot is empty or has the number of an entry,
  pub bounded : (s : ℕ) → get_or index s 0 ≤ length entries
  -- and each entry takes one slot.
  pub room : zeros index + length entries ≡ length index

length-snoc {ℓ} : {A : Type ℓ} (xs : List A) (a : A) → length (xs ++ a ∷ []) ≡ suc (length xs)
length-snoc xs a = length-append xs (a ∷ []) ∙ omega arith

length-set_at : (index : List ℕ) (o : Option ℕ) (v : ℕ) → length (set_at index o v) ≡ length index
length-set_at index none v = refl
length-set_at index (some slot) v = length-set index slot v

all_zero : (n s : ℕ) → get_or (replicate n 0) s 0 ≤ 0
all_zero zero s = omega arith
all_zero (suc n) zero = omega arith
all_zero (suc n) (suc s) = all_zero n s

pub get_or-set_le :
    (xs : List ℕ) (i j v n : ℕ) → get_or xs j 0 ≤ n → v ≤ n → get_or (set xs i v) j 0 ≤ n
get_or-set_le [] i j v n h le = h
get_or-set_le (x ∷ xs) zero zero v n h le = le
get_or-set_le (x ∷ xs) zero (suc j) v n h le = h
get_or-set_le (x ∷ xs) (suc i) zero v n h le = h
get_or-set_le (x ∷ xs) (suc i) (suc j) v n h le = get_or-set_le xs i j v n h le

-- Where an empty slot is left, `index_insert` is such a write.
pub index_insert-slot :
    (index : List ℕ) (i h : ℕ)
    → 1 ≤ zeros index
    → 1 ≤ length index
    → (slot : ℕ) × (slot < length index)
      × (empty_slot index (length index) (h % length index) ≡ some slot)
      × (index_insert index i h ≡ set index slot (suc i))
unfolding index_insert
index_insert-slot index i h left long =
    let start : h % length index < length index = mod-lt h (long) in
    let (slot, lt, at) =
      Gap-empty_slot index (length index) (h % length index) start
        (zeros-Gap index (h % length index) left start) in
    (slot, lt, at, ap (λ (o : Option ℕ). set_at index o (suc i)) at)

pub length-index_insert :
    (index : List ℕ) (i h : ℕ) → length (index_insert index i h) ≡ length index
unfolding index_insert
length-index_insert index i h =
    length-set_at index (empty_slot index (length index) (h % length index)) (suc i)

module _ {ℓ} {A : Type ℓ} where
  -- A write of the next entry's number at the slot that its walk gives.
  pub set-IsIndex :
      (index : List ℕ) (entries : List (Entry A)) (x : Entry A) (slot : ℕ)
      → IsIndex index entries
      → slot < length index
      → empty_slot index (length index) (x.hash % length index) ≡ some slot
      → IsIndex (set index slot (suc (length entries))) (entries ++ x ∷ [])
  set-IsIndex index entries x slot w lt at =
      let free = empty_slot-zero index (length index) (x.hash % length index) slot at in
      record {
        chained = λ i y h.
            subst (λ (n : ℕ). Chain (set index slot (suc (length entries))) (suc i) (y.hash % n))
              (sym (length-set index slot (suc (length entries))))
              (elim (get_elem?-snoc entries x i y h) [
                | inl old ↦
                    Chain-set index slot (suc (length entries)) (suc i) (y.hash % length index) free
                      (λ z. omega arith) (w.chained i y old)
                | inr (end, same) ↦
                    subst
                      (λ (v : ℕ).
                        Chain (set index slot (suc (length entries))) v (y.hash % length index))
                      (ap suc (sym end))
                      (subst
                        (λ (z : Entry A).
                          Chain (set index slot (suc (length entries))) (suc (length entries))
                            (z.hash % length index))
                        same
                        (Chain-empty_slot index (length index) (x.hash % length index) slot
                          (suc (length entries)) at lt))
              ]);
        bounded = λ s.
            let more = length-snoc entries x in
            let before = w.bounded s in
            get_or-set_le index slot s (suc (length entries)) (length (entries ++ x ∷ []))
              (omega arith) (omega arith);
        room =
            let more = length-snoc entries x in
            let fewer = zeros-set index slot (length entries) lt free in
            let same = length-set index slot (suc (length entries)) in
            let before = w.room in omega arith;
      }

  pub index_insert-IsIndex :
      (index : List ℕ) (entries : List (Entry A)) (x : Entry A)
      → IsIndex index entries
      → length entries < length index
      → IsIndex (index_insert index (length entries) x.hash) (entries ++ x ∷ [])
  index_insert-IsIndex index entries x w short =
      let (slot, lt, at, e) =
        index_insert-slot index (length entries) x.hash (omega (arith, w.room)) (omega arith) in
      subst (λ (ix : List ℕ). IsIndex ix (entries ++ x ∷ [])) (sym e)
        (set-IsIndex index entries x slot w lt at)

  pub length-insert_all :
      (i : ℕ) (es : List (Entry A)) (index : List ℕ) → length (insert_all i es index) ≡ length index
  unfolding insert_all
  length-insert_all i [] index = refl
  length-insert_all i (x ∷ es) index =
      length-insert_all (suc i) es (index_insert index i x.hash)
      ∙ length-index_insert index i x.hash

  insert_all-IsIndex :
      (done es : List (Entry A)) (index : List ℕ)
      → IsIndex index done
      → length done + length es < length index
      → IsIndex (insert_all (length done) es index) (done ++ es)
  unfolding insert_all
  insert_all-IsIndex done [] index w short =
      subst (λ (l : List (Entry A)). IsIndex index l) (sym (append-nil done)) w
  insert_all-IsIndex done (x ∷ es) index w short =
      let n = length-snoc done x in
      let later = index_insert-IsIndex index done x w (omega arith) in
      let same = length-index_insert index (length done) x.hash in
      let rest =
        insert_all-IsIndex (done ++ x ∷ []) es (index_insert index (length done) x.hash) later
          (omega arith) in
      subst
        (λ (k : ℕ).
          IsIndex (insert_all k es (index_insert index (length done) x.hash)) (done ++ x ∷ es))
        n
        (subst
          (λ (l : List (Entry A)).
            IsIndex
              (insert_all (length (done ++ x ∷ [])) es (index_insert index (length done) x.hash)) l)
          (append_assoc done (x ∷ []) es) rest)

  -- The index that `index_rebuild` makes.
  pub fresh-IsIndex :
      (entries : List (Entry A)) (slots : ℕ)
      → length entries < slots
      → IsIndex (insert_all 0 entries (replicate slots 0)) entries
  fresh-IsIndex entries slots short =
      insert_all-IsIndex [] entries (replicate slots 0)
        (record {
          chained = λ i x h. absurd (none_ne_some h);
          bounded = λ s. all_zero slots s;
          room =
              let slots_there = length-replicate {A = ℕ} slots 0 in
              let free = zeros-replicate slots in omega arith;
        })
        (let slots_there = length-replicate {A = ℕ} slots 0 in omega arith)
