-- ===== src/Dom/Table/Slots.antt =====
-- The slots of an index, and the walks over them.
use native.Mathlib.Nat.{mod_self, mod-eq_of_lt}
use teptris.Base.{
  ℕ, zero, suc, ◌+◌, ◌-◌, ◌%◌, ◌≤◌, ◌<◌, List, [], ◌∷◌, some, length, get_or, set, replicate,
  length-set, get_or-set_self, get_or-set_ne, ltb, ltb→lt, ◌==◌, if◌then◌else◌, ◌≡◌, ◌≢◌, ◌⊎◌, inl,
  inr, refl, sym, ap, subst, ◌∙◌, arith, Bool-cases,
}
use teptris.Dom.Table.{next_slot, empty_slot}

-- The walk from the slot `s` comes to a slot with `v`, over slots that are not empty.
pub data Chain (index : List ℕ) (v : ℕ) : ℕ → Type 0 where
  here : {s : ℕ} → get_or index s 0 ≡ v → Chain index v s
  next : {s : ℕ} → get_or index s 0 ≢ 0 → Chain index v (next_slot index s) → Chain index v s

-- An empty slot is fewer than `fuel` steps away.
abbrev pub Gap : List ℕ → ℕ → ℕ → Type 0
Gap index zero s = ⊥
Gap index (suc fuel) s = (get_or index s 0 ≡ 0) ⊎ Gap index fuel (next_slot index s)

unfoldable pub zeros : List ℕ → ℕ
zeros [] = 0
zeros (v ∷ vs) = let rest = zeros vs in if v == 0 then suc rest else rest

next_slot-set : (index : List ℕ) (slot w s : ℕ) → next_slot (set index slot w) s ≡ next_slot index s
next_slot-set index slot w s = ap (λ (n : ℕ). (s + 1) % n) (length-set index slot w)

-- A slot that is not empty is another than an empty one.
get_or-set_full :
    (index : List ℕ) (slot w s : ℕ)
    → get_or index slot 0 ≡ 0
    → get_or index s 0 ≢ 0
    → get_or (set index slot w) s 0 ≡ get_or index s 0
get_or-set_full index slot w s e full =
    get_or-set_ne index slot s w 0 (λ same. full (ap (λ (i : ℕ). get_or index i 0) (sym same) ∙ e))

-- A write to an empty slot breaks no chain.
pub Chain-set :
    (index : List ℕ) (slot w v s : ℕ)
    → get_or index slot 0 ≡ 0
    → v ≢ 0
    → Chain index v s
    → Chain (set index slot w) v s
Chain-set index slot w v s e ne (here h) =
    here (get_or-set_full index slot w s e (λ z. ne (sym h ∙ z)) ∙ h)
Chain-set index slot w v s e ne (next h k) =
    let rest = Chain-set index slot w v (next_slot index s) e ne k in
    next (λ z. h (sym (get_or-set_full index slot w s e h) ∙ z))
      (subst (λ (s' : ℕ). Chain (set index slot w) v s') (sym (next_slot-set index slot w s)) rest)

pub empty_slot-zero :
    (index : List ℕ) (fuel s slot : ℕ)
    → empty_slot index fuel s ≡ some slot
    → get_or index slot 0 ≡ 0
unfolding empty_slot
empty_slot-zero index zero s slot h = absurd (ground arith)
empty_slot-zero index (suc fuel) s slot h = elim (Bool-cases (get_or index s 0 == 0)) [
  | inl e ↦ ground arith
  | inr e ↦ empty_slot-zero index fuel (next_slot index s) slot (ground arith)
]

-- The slot at which a walk for an empty one stops is the end of a chain to what is written there.
pub Chain-empty_slot :
    (index : List ℕ) (fuel s slot w : ℕ)
    → empty_slot index fuel s ≡ some slot
    → slot < length index
    → Chain (set index slot w) w s
unfolding empty_slot
Chain-empty_slot index zero s slot w h lt = absurd (ground arith)
Chain-empty_slot index (suc fuel) s slot w h lt = elim (Bool-cases (get_or index s 0 == 0)) [
  | inl e ↦
      let same : s ≡ slot = ground arith in
      here (ap (λ (i : ℕ). get_or (set index slot w) i 0) same ∙ get_or-set_self index slot w 0 lt)
  | inr e ↦
      let later : empty_slot index fuel (next_slot index s) ≡ some slot = ground arith in
      let full : get_or index s 0 ≢ 0 = λ z. ground arith in
      let rest = Chain-empty_slot index fuel (next_slot index s) slot w later lt in
      next
        (λ z. full (
          sym (
            get_or-set_full index slot w s
              (empty_slot-zero index fuel (next_slot index s) slot later) full)
          ∙ z))
        (subst (λ (s' : ℕ). Chain (set index slot w) w s') (sym (next_slot-set index slot w s))
          rest)
]

some_zero :
    (index : List ℕ) → 1 ≤ zeros index → (p : ℕ) × (p < length index) × (get_or index p 0 ≡ 0)
unfolding zeros
some_zero [] h = absurd (omega arith)
some_zero (v ∷ vs) h = elim (Bool-cases (v == 0)) [
  | inl e ↦ (0, ground arith, ground arith)
  | inr e ↦ let (p, lt, at) = some_zero vs (ground arith) in (suc p, ground arith, at)
]

pub zeros-set :
    (index : List ℕ) (slot w : ℕ)
    → slot < length index
    → get_or index slot 0 ≡ 0
    → suc (zeros (set index slot (suc w))) ≡ zeros index
unfolding zeros
zeros-set [] slot w lt e = absurd (omega arith)
zeros-set (v ∷ vs) zero w lt e = ground arith
zeros-set (v ∷ vs) (suc slot) w lt e = ground (arith, zeros-set vs slot w)

pub zeros-replicate : (n : ℕ) → zeros (replicate n 0) ≡ n
unfolding zeros
zeros-replicate zero = refl
zeros-replicate (suc n) = ground (arith, zeros-replicate n)

next_slot-lt : (index : List ℕ) (s : ℕ) → 1 ≤ length index → next_slot index s < length index
next_slot-lt index s h = grind arith

-- A step on, around the end of the index, is a step closer.
closer :
    (index : List ℕ) (d s p : ℕ)
    → s < length index
    → p < length index
    → (s + suc d ≡ p) ⊎ (s + suc d ≡ p + length index)
    → (next_slot index s + d ≡ p) ⊎ (next_slot index s + d ≡ p + length index)
closer index d s p lt pt way = elim (Bool-cases (s + 1 == length index)) [
  | inl h ↦
      let end : s + 1 ≡ length index = ground arith in
      let start : next_slot index s ≡ 0 =
        ap (λ (n : ℕ). n % length index) end ∙ mod_self (length index) in
      inl (elim way [ inl at ↦ absurd (omega arith) | inr at ↦ omega arith ])
  | inr h ↦
      let inside : s + 1 ≢ length index = λ z. ground arith in
      let one_on : next_slot index s ≡ s + 1 = mod-eq_of_lt (omega arith) in
      elim way [ inl at ↦ inl (omega arith) | inr at ↦ inr (omega arith) ]
]

-- `d` steps on, around the end of the index, is the slot `p`.
Gap-from :
    (index : List ℕ) (d s p : ℕ)
    → s < length index
    → p < length index
    → get_or index p 0 ≡ 0
    → (s + d ≡ p) ⊎ (s + d ≡ p + length index)
    → Gap index (suc d) s
Gap-from index zero s p lt pt e way = elim way [
  | inl at ↦ inl (ap (λ (i : ℕ). get_or index i 0) (omega arith) ∙ e)
  | inr at ↦ absurd (omega arith)
]
Gap-from index (suc d) s p lt pt e way = inr (
    Gap-from index d (next_slot index s) p (next_slot-lt index s (omega arith)) pt e
      (closer index d s p lt pt way))

Gap-le : (index : List ℕ) (d fuel s : ℕ) → d ≤ fuel → Gap index d s → Gap index fuel s
Gap-le index zero fuel s le h = absurd h
Gap-le index (suc d) zero s le h = absurd (omega arith)
Gap-le index (suc d) (suc fuel) s le (inl z) = inl z
Gap-le index (suc d) (suc fuel) s le (inr h) =
    inr (Gap-le index d fuel (next_slot index s) (omega arith) h)

-- With an empty slot somewhere, a walk of all slots meets one from wherever it starts.
pub zeros-Gap :
    (index : List ℕ) (s : ℕ) → 1 ≤ zeros index → s < length index → Gap index (length index) s
zeros-Gap index s some_left lt =
    let (p, pt, e) = some_zero index some_left in
    elim (Bool-cases (ltb p s)) [
      | inl h ↦
          let before : p < s = ltb→lt p s h in
          Gap-le index (suc (p + length index - s)) (length index) s (omega arith)
            (Gap-from index (p + length index - s) s p lt pt e (inr (omega arith)))
      | inr h ↦
          let after : s ≤ p = ground arith in
          Gap-le index (suc (p - s)) (length index) s (omega arith)
            (Gap-from index (p - s) s p lt pt e (inl (omega arith)))
    ]

-- Then `empty_slot` gives one.
pub Gap-empty_slot :
    (index : List ℕ) (fuel s : ℕ)
    → s < length index
    → Gap index fuel s
    → (slot : ℕ) × (slot < length index) × (empty_slot index fuel s ≡ some slot)
unfolding empty_slot
Gap-empty_slot index zero s lt gap = absurd gap
Gap-empty_slot index (suc fuel) s lt gap = elim (Bool-cases (get_or index s 0 == 0)) [
  | inl e ↦ (s, lt, ground arith)
  | inr e ↦
      let later : Gap index fuel (next_slot index s) = elim gap [
        | inl z ↦ absurd (ground arith)
        | inr h ↦ h
      ] in
      let (slot, inside, at) =
        Gap-empty_slot index fuel (next_slot index s) (next_slot-lt index s (omega arith)) later in
      (slot, inside, ground arith)
]
