-- ===== src/Dom/Table/Walks.antt =====
-- What a walk over the index finds, and what it proves when it finds nothing.
use teptris.Base.{
  ℕ, zero, suc, ◌-◌, ◌≤◌, Bool, true, false, List, Option, none, some, length, get_elem?,
  get_elem?-none, get_or, ◌==◌, ◌≡◌, ◌≢◌, inl, inr, sym, subst, ◌∙◌, arith, Bool-cases,
  Option-cases,
}
use teptris.Dom.Table.{Entry, found, absent, lost, next_slot, empty_slot, walk}
use teptris.Dom.Table.Slots.{Chain, here, next, Gap}

module _ {ℓ} {A : Type ℓ} where
  -- The ways of the first step of a walk: an empty slot, a slot with no entry, an entry that
  -- passes, and one that does not.
  data Step (test : Entry A → Bool) (entries : List (Entry A)) (index : List ℕ) (fuel s : ℕ)
      : Type ℓ where
    stops :
        get_or index s 0 ≡ 0
        → walk test entries index (suc fuel) s ≡ absent (some s)
        → empty_slot index (suc fuel) s ≡ some s
        → Step test entries index fuel s
    strays :
        get_or index s 0 ≢ 0
        → get_elem? entries (get_or index s 0 - 1) ≡ none
        → walk test entries index (suc fuel) s ≡ lost
        → Step test entries index fuel s
    finds :
        (x : Entry A)
        → get_elem? entries (get_or index s 0 - 1) ≡ some x
        → test x ≡ true
        → walk test entries index (suc fuel) s ≡ found x
        → Step test entries index fuel s
    goes :
        (x : Entry A)
        → get_or index s 0 ≢ 0
        → get_elem? entries (get_or index s 0 - 1) ≡ some x
        → test x ≡ false
        → walk test entries index (suc fuel) s ≡ walk test entries index fuel (next_slot index s)
        → empty_slot index (suc fuel) s ≡ empty_slot index fuel (next_slot index s)
        → Step test entries index fuel s

  step_lem :
      (test : Entry A → Bool) (entries : List (Entry A)) (index : List ℕ) (fuel s : ℕ)
      → Step test entries index fuel s
  unfolding walk empty_slot
  step_lem test entries index fuel s = elim (Bool-cases (get_or index s 0 == 0)) [
    | inl e ↦ stops (ground arith) (ground arith) (ground arith)
    | inr e ↦ elim (Option-cases (get_elem? entries (get_or index s 0 - 1))) [
      | inl none_there ↦ strays (λ z. ground arith) none_there (ground arith)
      | inr (x, there) ↦ elim (Bool-cases (test x)) [
        | inl ok ↦ finds x there ok (ground arith)
        | inr not_it ↦ goes x (λ z. ground arith) there not_it (ground arith) (ground arith)
      ]
    ]
  ]

  -- An entry that a walk finds is one of the entries, and passes the test.
  pub walk-found :
      (test : Entry A → Bool) (entries : List (Entry A)) (index : List ℕ) (fuel s : ℕ) (x : Entry A)
      → walk test entries index fuel s ≡ found x
      → (test x ≡ true) × (i : ℕ) × (get_elem? entries i ≡ some x)
  unfolding walk
  walk-found test entries index zero s x h = absurd (ground arith)
  walk-found test entries index (suc fuel) s x h = elim (step_lem test entries index fuel s) [
    | stops e w k ↦ absurd (cc)
    | strays e n w ↦ absurd (cc)
    | finds y there ok w ↦ (cc, get_or index s 0 - 1, cc)
    | goes y e there not_it w k ↦
        walk-found test entries index fuel (next_slot index s) x (sym w ∙ h)
  ]

  -- A walk that stops at an empty slot has passed every chain, and no entry at the end of one
  -- passes the test.
  pub walk-absent :
      (test : Entry A → Bool) (entries : List (Entry A)) (index : List ℕ) (fuel s : ℕ)
      (o : Option ℕ) (i : ℕ) (x : Entry A)
      → walk test entries index fuel s ≡ absent o
      → Chain index (suc i) s
      → get_elem? entries i ≡ some x
      → test x ≡ false
  unfolding walk
  walk-absent test entries index zero s o i x h chain there = absurd (ground arith)
  walk-absent test entries index (suc fuel) s o i x h chain there =
      elim (step_lem test entries index fuel s) [
        | stops e w k ↦ elim chain [
          | here at ↦ absurd (omega arith)
          | next full rest ↦ absurd (full e)
        ]
        | strays e n w ↦ absurd (cc)
        | finds y at ok w ↦ absurd (cc)
        | goes y e at not_it w k ↦ elim chain [
          | here arrived ↦
              let same : get_or index s 0 - 1 ≡ i = omega arith in
              let both : get_elem? entries i ≡ some y =
                subst (λ (j : ℕ). get_elem? entries j ≡ some y) same at in
              cc
          | next full rest ↦
              walk-absent test entries index fuel (next_slot index s) o i x (sym w ∙ h) rest there
        ]
      ]

  -- With an empty slot ahead and no slot without an entry, a walk is not lost.
  pub walk-lost :
      (test : Entry A → Bool) (entries : List (Entry A)) (index : List ℕ) (fuel s : ℕ)
      → Gap index fuel s
      → ((i : ℕ) → get_or index i 0 ≤ length entries)
      → walk test entries index fuel s ≢ lost
  walk-lost test entries index zero s gap bounded h = absurd gap
  walk-lost test entries index (suc fuel) s gap bounded h =
      elim (step_lem test entries index fuel s) [
        | stops e w k ↦ absurd (cc)
        | strays e n w ↦
            let short = get_elem?-none entries (get_or index s 0 - 1) n in
            let most = bounded s in absurd (omega arith)
        | finds y there ok w ↦ absurd (cc)
        | goes y e there not_it w k ↦ elim gap [
          | inl z ↦ e z
          | inr later ↦
              walk-lost test entries index fuel (next_slot index s) later bounded (sym w ∙ h)
        ]
      ]

  -- The slot at which it stops is the one that `empty_slot` gives.
  pub walk-empty_slot :
      (test : Entry A → Bool) (entries : List (Entry A)) (index : List ℕ) (fuel s : ℕ)
      (o : Option ℕ)
      → walk test entries index fuel s ≡ absent o
      → empty_slot index fuel s ≡ o
  unfolding walk
  walk-empty_slot test entries index zero s o h = absurd (ground arith)
  walk-empty_slot test entries index (suc fuel) s o h = elim (step_lem test entries index fuel s) [
    | stops e w k ↦ cc
    | strays e n w ↦ absurd (cc)
    | finds y there ok w ↦ absurd (cc)
    | goes y e there not_it w k ↦
        k ∙ walk-empty_slot test entries index fuel (next_slot index s) o (sym w ∙ h)
  ]
