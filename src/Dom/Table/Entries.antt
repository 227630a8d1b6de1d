-- ===== src/Dom/Table/Entries.antt =====
-- What a table stands for: a search of the entries in the order of their insertion.
use teptris.Base.{
  ℕ, zero, suc, ◌-◌, Bool, true, List, [], ◌∷◌, ◌++◌, Option, none, some, Bytes, get_elem?, get_or,
  none_ne_some, same_bytes, same_bytes→eq, same_bytes_refl, if◌then◌else◌, ◌≡◌, inl, inr, refl, sym,
  ap, ◌∙◌, arith, Bool-cases, Option-cases,
}
use teptris.Dom.Table.{Entry, next_slot, walk}
use teptris.Dom.Table.Invariant.{Lacks}

module _ {ℓ} {A : Type ℓ} where
  -- The first entry with the key.
  unfoldable pub find_entry : List (Entry A) → Bytes → Option (Entry A)
  find_entry [] key = none
  find_entry (x ∷ xs) key =
      let rest = find_entry xs key in if same_bytes x.key key then some x else rest

  abbrev pub Distinct : List (Entry A) → Type ℓ
  Distinct xs =
      (i j : ℕ) (x y : Entry A)
      → get_elem? xs i ≡ some x
      → get_elem? xs j ≡ some y
      → x.key ≡ y.key
      → i ≡ j

  some_inj : {x y : Entry A} → some x ≡ some y → x ≡ y
  some_inj e = cc

  pub find_entry-Lacks :
      (xs : List (Entry A)) (key : Bytes) → Lacks xs key → find_entry xs key ≡ none
  unfolding find_entry
  find_entry-Lacks [] key lacks = refl
  find_entry-Lacks (x ∷ xs) key lacks = elim (Bool-cases (same_bytes x.key key)) [
    | inl h ↦ absurd (lacks 0 x refl (same_bytes→eq x.key key h))
    | inr h ↦ let rest = find_entry-Lacks xs key (λ i y at. lacks (suc i) y at) in ground arith
  ]

  pub Lacks-find_entry :
      (xs : List (Entry A)) (key : Bytes) → find_entry xs key ≡ none → Lacks xs key
  unfolding find_entry
  Lacks-find_entry [] key h i x at k = absurd (none_ne_some at)
  Lacks-find_entry (y ∷ xs) key h zero x at k =
      let first : y ≡ x = some_inj at in
      let same : same_bytes y.key key ≡ true =
        ap (λ (z : Entry A). same_bytes z.key key) first
        ∙ ap (λ (b : Bytes). same_bytes b key) k
        ∙ same_bytes_refl key in
      ground arith
  Lacks-find_entry (y ∷ xs) key h (suc i) x at k = elim (Bool-cases (same_bytes y.key key)) [
    | inl same ↦ ground arith
    | inr other ↦ Lacks-find_entry xs key (ground arith) i x at k
  ]

  pub find_entry-Distinct :
      (xs : List (Entry A)) (key : Bytes) (i : ℕ) (x : Entry A)
      → Distinct xs
      → get_elem? xs i ≡ some x
      → x.key ≡ key
      → find_entry xs key ≡ some x
  unfolding find_entry
  find_entry-Distinct [] key i x distinct at k = absurd (none_ne_some at)
  find_entry-Distinct (y ∷ xs) key zero x distinct at k =
      let first : y ≡ x = some_inj at in
      let same : same_bytes y.key key ≡ true =
        ap (λ (z : Entry A). same_bytes z.key key) first
        ∙ ap (λ (b : Bytes). same_bytes b key) k
        ∙ same_bytes_refl key in
      ground arith
  find_entry-Distinct (y ∷ xs) key (suc i) x distinct at k =
      elim (Bool-cases (same_bytes y.key key)) [
        | inl same ↦
            let clash : 0 ≡ suc i =
              distinct 0 (suc i) y x refl at (same_bytes→eq y.key key same ∙ sym k) in
            absurd (omega arith)
        | inr other ↦
            let rest =
              find_entry-Distinct xs key i x
                (λ a b u v au bv e.
                  (let onward : suc a ≡ suc b = distinct (suc a) (suc b) u v au bv e in
                    omega arith))
                at k in
            ground arith
      ]

  -- Entries at the end are found when none before has the key.
  pub find_entry-append :
      (xs : List (Entry A)) (e : Entry A) (key : Bytes)
      → find_entry (xs ++ e ∷ []) key
        ≡ elim (find_entry xs key) [ none ↦ find_entry (e ∷ []) key | some x ↦ some x ]
  unfolding find_entry
  find_entry-append [] e key = refl
  find_entry-append (x ∷ xs) e key = let rest = find_entry-append xs e key in ground arith

module _ {ℓ} {A : Type ℓ} where
  -- Two tests that agree on the entries make the same walk.
  pub walk_ext :
      (first second : Entry A → Bool) (entries : List (Entry A)) (index : List ℕ) (fuel s : ℕ)
      → ((i : ℕ) (x : Entry A) → get_elem? entries i ≡ some x → first x ≡ second x)
      → walk first entries index fuel s ≡ walk second entries index fuel s
  unfolding walk
  walk_ext first second entries index zero s same = refl
  walk_ext first second entries index (suc fuel) s same =
      let rest = walk_ext first second entries index fuel (next_slot index s) same in
      elim (Option-cases (get_elem? entries (get_or index s 0 - 1))) [
        | inl none_there ↦ ground arith
        | inr (x, there) ↦
            let agree : first x ≡ second x = same (get_or index s 0 - 1) x there in ground arith
      ]
