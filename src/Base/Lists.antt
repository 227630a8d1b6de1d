-- ===== src/Base/Lists.antt =====
-- Byte strings and lists, measured and indexed by the native numbers.
use Prim.Native.Char.{code}
use Prim.Native.Nat.{ℕ, zero, suc, ◌+◌, ◌-◌, ◌≤◌, ◌<◌}
use Prim.Native.String.{String}
use mathlib.Core.Bool.{Bool, true, false, ◌&&◌}
use mathlib.Core.Logic.{◌≢◌, ◌⊎◌, inl, inr}
use mathlib.Core.List.{List, [], ◌∷◌, ◌++◌}
use mathlib.Core.Option.{Option, none, some}
use mathlib.Core.Path.{◌≡◌, refl, sym, ap}
use teptris.Base.Tests.{◌==◌}
use native.Mathlib.Omega.{arith}

-- A `char *` with its length: a byte is a number below 256.
abbrev pub Bytes : Type 0
Bytes = List ℕ

-- The bytes of an ASCII literal.
abbrev pub codes : String → Bytes
codes String.[] = []
codes (String.◌∷◌ c s) = code c ∷ codes s

module _ {ℓ} {A : Type ℓ} where
  abbrev pub length : List A → ℕ
  length [] = 0
  length (x ∷ xs) = suc (length xs)

  abbrev pub get_elem? : List A → ℕ → Option A
  get_elem? [] i = none
  get_elem? (x ∷ xs) zero = some x
  get_elem? (x ∷ xs) (suc i) = get_elem? xs i

  abbrev pub get_or : List A → ℕ → A → A
  get_or [] i d = d
  get_or (x ∷ xs) zero d = x
  get_or (x ∷ xs) (suc i) d = get_or xs i d

  abbrev pub take : ℕ → List A → List A
  take zero xs = []
  take (suc n) [] = []
  take (suc n) (x ∷ xs) = x ∷ take n xs

  abbrev pub drop : ℕ → List A → List A
  drop zero xs = xs
  drop (suc n) [] = []
  drop (suc n) (x ∷ xs) = drop n xs

  abbrev pub replicate : ℕ → A → List A
  replicate zero a = []
  replicate (suc n) a = a ∷ replicate n a

  -- A write out of bounds changes nothing.
  abbrev pub set : List A → ℕ → A → List A
  set [] i v = []
  set (x ∷ xs) zero v = v ∷ xs
  set (x ∷ xs) (suc i) v = x ∷ set xs i v

module _ {ℓ} {A : Type ℓ} where
  pub length-append : (xs ys : List A) → length (xs ++ ys) ≡ length xs + length ys
  length-append [] ys = omega arith
  length-append (x ∷ xs) ys = omega (arith, length-append xs ys)

  pub length-drop : (n : ℕ) (xs : List A) → length (drop n xs) ≡ length xs - n
  length-drop zero xs = omega arith
  length-drop (suc n) [] = omega arith
  length-drop (suc n) (x ∷ xs) = omega (arith, length-drop n xs)

  pub length-set : (xs : List A) (i : ℕ) (v : A) → length (set xs i v) ≡ length xs
  length-set [] i v = omega arith
  length-set (x ∷ xs) zero v = omega arith
  length-set (x ∷ xs) (suc i) v = omega (arith, length-set xs i v)

  pub get_or-set_self :
      (xs : List A) (i : ℕ) (v d : A) → i < length xs → get_or (set xs i v) i d ≡ v
  get_or-set_self [] i v d h = absurd (omega arith)
  get_or-set_self (x ∷ xs) zero v d h = refl
  get_or-set_self (x ∷ xs) (suc i) v d h = get_or-set_self xs i v d (omega arith)

  pub get_or-set_ne :
      (xs : List A) (i j : ℕ) (v d : A) → i ≢ j → get_or (set xs i v) j d ≡ get_or xs j d
  get_or-set_ne [] i j v d h = refl
  get_or-set_ne (x ∷ xs) zero zero v d h = absurd (h refl)
  get_or-set_ne (x ∷ xs) zero (suc j) v d h = refl
  get_or-set_ne (x ∷ xs) (suc i) zero v d h = refl
  get_or-set_ne (x ∷ xs) (suc i) (suc j) v d h = get_or-set_ne xs i j v d (λ e. h (ap suc e))

  pub length-replicate : (n : ℕ) (v : A) → length (replicate n v) ≡ n
  length-replicate zero v = refl
  length-replicate (suc n) v = ap suc (length-replicate n v)

  pub none_ne_some : {a : A} → none ≢ some a
  none_ne_some e = cc

  pub get_elem?-append_left :
      (xs ys : List A) (i : ℕ) (a : A) → get_elem? xs i ≡ some a → get_elem? (xs ++ ys) i ≡ some a
  get_elem?-append_left [] ys i a h = absurd (none_ne_some h)
  get_elem?-append_left (x ∷ xs) ys zero a h = h
  get_elem?-append_left (x ∷ xs) ys (suc i) a h = get_elem?-append_left xs ys i a h

  pub get_elem?-append_end : (xs : List A) (a : A) → get_elem? (xs ++ a ∷ []) (length xs) ≡ some a
  get_elem?-append_end [] a = refl
  get_elem?-append_end (x ∷ xs) a = get_elem?-append_end xs a

  pub get_elem?-none : (xs : List A) (i : ℕ) → get_elem? xs i ≡ none → length xs ≤ i
  get_elem?-none [] i h = omega arith
  get_elem?-none (x ∷ xs) zero h = absurd (none_ne_some (sym h))
  get_elem?-none (x ∷ xs) (suc i) h = omega (arith, get_elem?-none xs i h)

  pub get_elem?-lt : (xs : List A) (i : ℕ) (a : A) → get_elem? xs i ≡ some a → i < length xs
  get_elem?-lt [] i a h = absurd (none_ne_some h)
  get_elem?-lt (x ∷ xs) zero a h = omega arith
  get_elem?-lt (x ∷ xs) (suc i) a h = omega (arith, get_elem?-lt xs i a h)

  -- An element of a list with one more at its end is an old one, or the one at the end.
  pub get_elem?-snoc :
      (xs : List A) (b : A) (i : ℕ) (a : A)
      → get_elem? (xs ++ b ∷ []) i ≡ some a
      → (get_elem? xs i ≡ some a) ⊎ ((i ≡ length xs) × (b ≡ a))
  get_elem?-snoc [] b zero a h = inr (refl, cc)
  get_elem?-snoc [] b (suc i) a h = absurd (none_ne_some h)
  get_elem?-snoc (x ∷ xs) b zero a h = inl h
  get_elem?-snoc (x ∷ xs) b (suc i) a h = elim (get_elem?-snoc xs b i a h) [
    | inl old ↦ inl old
    | inr (at, e) ↦ inr (ap suc at, e)
  ]

  pub get_elem?-set_self :
      (xs : List A) (i : ℕ) (v : A) → i < length xs → get_elem? (set xs i v) i ≡ some v
  get_elem?-set_self [] i v h = absurd (omega arith)
  get_elem?-set_self (x ∷ xs) zero v h = refl
  get_elem?-set_self (x ∷ xs) (suc i) v h = get_elem?-set_self xs i v (omega arith)

  pub get_elem?-set_ne :
      (xs : List A) (i j : ℕ) (v : A) → i ≢ j → get_elem? (set xs i v) j ≡ get_elem? xs j
  get_elem?-set_ne [] i j v h = refl
  get_elem?-set_ne (x ∷ xs) zero zero v h = absurd (h refl)
  get_elem?-set_ne (x ∷ xs) zero (suc j) v h = refl
  get_elem?-set_ne (x ∷ xs) (suc i) zero v h = refl
  get_elem?-set_ne (x ∷ xs) (suc i) (suc j) v h = get_elem?-set_ne xs i j v (λ e. h (ap suc e))

  -- Within a list there is an element.
  pub get_elem?-some : (xs : List A) (i : ℕ) → i < length xs → (a : A) × (get_elem? xs i ≡ some a)
  get_elem?-some [] i h = absurd (omega arith)
  get_elem?-some (x ∷ xs) zero h = (x, refl)
  get_elem?-some (x ∷ xs) (suc i) h = get_elem?-some xs i (omega arith)

-- The comparison of lengths and `memcmp`.
abbrev pub same_bytes : Bytes → Bytes → Bool
same_bytes [] [] = true
same_bytes [] (b ∷ bs) = false
same_bytes (a ∷ as') [] = false
same_bytes (a ∷ as') (b ∷ bs) = a == b && same_bytes as' bs

pub same_bytes→eq : (a b : Bytes) → same_bytes a b ≡ true → a ≡ b
same_bytes→eq [] [] h = refl
same_bytes→eq [] (b ∷ bs) h = ground arith
same_bytes→eq (a ∷ as') [] h = ground arith
same_bytes→eq (a ∷ as') (b ∷ bs) h =
    let first : a ≡ b = ground arith in let others = same_bytes→eq as' bs (ground arith) in cc

pub same_bytes_refl : (a : Bytes) → same_bytes a a ≡ true
same_bytes_refl [] = refl
same_bytes_refl (a ∷ as') = ground (arith, same_bytes_refl as')

-- Every element passes a test.
abbrev pub All {ℓ} : {A : Type ℓ} → (A → Bool) → List A → Type 0
All p [] = Unit
All p (x ∷ xs) = (p x ≡ true) × All p xs

abbrev pub all {ℓ} : {A : Type ℓ} → (A → Bool) → List A → Bool
all p [] = true
all p (x ∷ xs) = p x && all p xs

-- A test that every number under a bound passes, decided by evaluation.
unfoldable pub passes : (ℕ → Bool) → ℕ → Bool
passes test zero = true
passes test (suc bound) = passes test bound && test bound

pub passes-at :
    (test : ℕ → Bool) (bound c : ℕ) → passes test bound ≡ true → c < bound → test c ≡ true
unfolding passes
passes-at test zero c all_pass small = absurd (omega arith)
passes-at test (suc bound) c all_pass small = ground (arith, passes-at test bound c)
