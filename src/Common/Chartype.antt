-- ===== src/Common/Chartype.antt =====
-- src/teptris/common/chartype.h and chartype.c: the table of character classes.
use Prim.Native.Nat.{bit_and, bit_or}
use teptris.Base.{
  ℕ, ◌≤◌, Bool, true, false, not, ◌&&◌, ◌||◌, List, [], ◌∷◌, inl, inr, ◌≡◌, refl, arith, ltb, leb,
  ◌==◌, if◌then◌else◌, all, passes, passes-at, Bool-cases,
}

-- The flags `TEP_CT_*`.
abbrev barekey : ℕ
barekey = 0x01

abbrev ws : ℕ
ws = 0x02

abbrev dec : ℕ
dec = 0x04

abbrev hex : ℕ
hex = 0x08

abbrev alpha : ℕ
alpha = 0x10

abbrev digit : ℕ
digit = bit_or barekey (bit_or dec hex)

abbrev hex_letter : ℕ
hex_letter = bit_or barekey (bit_or hex alpha)

abbrev letter : ℕ
letter = bit_or barekey alpha

-- The designated initialisers, in the order of the source; every other entry is 0.
initialisers : List (ℕ × ℕ)
initialisers =
    (b'0', digit)
    ∷ (b'1', digit)
    ∷ (b'2', digit)
    ∷ (b'3', digit)
    ∷ (b'4', digit)
    ∷ (b'5', digit)
    ∷ (b'6', digit)
    ∷ (b'7', digit)
    ∷ (b'8', digit)
    ∷ (b'9', digit)
    ∷ (b'a', hex_letter)
    ∷ (b'b', hex_letter)
    ∷ (b'c', hex_letter)
    ∷ (b'd', hex_letter)
    ∷ (b'e', hex_letter)
    ∷ (b'f', hex_letter)
    ∷ (b'g', letter)
    ∷ (b'h', letter)
    ∷ (b'i', letter)
    ∷ (b'j', letter)
    ∷ (b'k', letter)
    ∷ (b'l', letter)
    ∷ (b'm', letter)
    ∷ (b'n', letter)
    ∷ (b'o', letter)
    ∷ (b'p', letter)
    ∷ (b'q', letter)
    ∷ (b'r', letter)
    ∷ (b's', letter)
    ∷ (b't', letter)
    ∷ (b'u', letter)
    ∷ (b'v', letter)
    ∷ (b'w', letter)
    ∷ (b'x', letter)
    ∷ (b'y', letter)
    ∷ (b'z', letter)
    ∷ (b'A', hex_letter)
    ∷ (b'B', hex_letter)
    ∷ (b'C', hex_letter)
    ∷ (b'D', hex_letter)
    ∷ (b'E', hex_letter)
    ∷ (b'F', hex_letter)
    ∷ (b'G', letter)
    ∷ (b'H', letter)
    ∷ (b'I', letter)
    ∷ (b'J', letter)
    ∷ (b'K', letter)
    ∷ (b'L', letter)
    ∷ (b'M', letter)
    ∷ (b'N', letter)
    ∷ (b'O', letter)
    ∷ (b'P', letter)
    ∷ (b'Q', letter)
    ∷ (b'R', letter)
    ∷ (b'S', letter)
    ∷ (b'T', letter)
    ∷ (b'U', letter)
    ∷ (b'V', letter)
    ∷ (b'W', letter)
    ∷ (b'X', letter)
    ∷ (b'Y', letter)
    ∷ (b'Z', letter)
    ∷ (b'_', barekey)
    ∷ (b'-', barekey)
    ∷ (b' ', ws)
    ∷ (b'\t', ws)
    ∷ []

lookup : ℕ → List (ℕ × ℕ) → ℕ
lookup c [] = 0
lookup c ((k, flags) ∷ rest) = if c == k then flags else lookup c rest

chartype_table : ℕ → ℕ
unfolding initialisers lookup
chartype_table c = lookup c initialisers

ct_has : ℕ → ℕ → Bool
unfolding chartype_table
ct_has c flags = not (bit_and (chartype_table c) flags == 0)

unfoldable pub is_barekey : ℕ → Bool
unfolding ct_has
is_barekey c = ct_has c barekey

unfoldable pub is_ws : ℕ → Bool
unfolding ct_has
is_ws c = ct_has c ws

unfoldable pub is_dec : ℕ → Bool
unfolding ct_has
is_dec c = ct_has c dec

unfoldable pub is_hex : ℕ → Bool
unfolding ct_has
is_hex c = ct_has c hex

abbrev pub within : ℕ → ℕ → ℕ → Bool
within lo hi c = leb lo c && leb c hi

abbrev pub in_dec : ℕ → Bool
in_dec c = within b'0' b'9' c

abbrev pub in_hex : ℕ → Bool
in_hex c = within b'0' b'9' c || within b'a' b'f' c || within b'A' b'F' c

abbrev pub in_ws : ℕ → Bool
in_ws c = c == b' ' || c == b'\t'

abbrev pub in_barekey : ℕ → Bool
in_barekey c =
    within b'A' b'Z' c || within b'a' b'z' c || within b'0' b'9' c || c == b'_' || c == b'-'

abbrev same : Bool → Bool → Bool
same true b = b
same false b = not b

same→≡ : (a b : Bool) → same a b ≡ true → a ≡ b
same→≡ a b h = ground arith

lookup_outside :
    (c : ℕ) (t : List (ℕ × ℕ)) → all (λ e. ltb e.0 256) t ≡ true → 256 ≤ c → lookup c t ≡ 0
unfolding lookup
lookup_outside c [] h o = refl
lookup_outside c ((k, f) ∷ t) h o = ground (arith, lookup_outside c t)

chartype_table_outside : (c : ℕ) → 256 ≤ c → chartype_table c ≡ 0
unfolding chartype_table
chartype_table_outside c h = lookup_outside c initialisers refl h

is_barekey_table : passes (λ c. same (is_barekey c) (in_barekey c)) 256 ≡ true
unfolding passes is_barekey
is_barekey_table = refl

is_barekey_outside : (c : ℕ) → 256 ≤ c → is_barekey c ≡ in_barekey c
unfolding is_barekey ct_has
is_barekey_outside c h = rw (chartype_table_outside c h) (ground arith)

pub is_barekey-eq : (c : ℕ) → is_barekey c ≡ in_barekey c
is_barekey-eq c = elim (Bool-cases (ltb c 256)) [
  | inl small ↦ same→≡ _ _ (passes-at _ 256 c is_barekey_table (ground arith))
  | inr large ↦ is_barekey_outside c (ground arith)
]

is_ws_table : passes (λ c. same (is_ws c) (in_ws c)) 256 ≡ true
unfolding passes is_ws
is_ws_table = refl

is_ws_outside : (c : ℕ) → 256 ≤ c → is_ws c ≡ in_ws c
unfolding is_ws ct_has
is_ws_outside c h = rw (chartype_table_outside c h) (ground arith)

pub is_ws-eq : (c : ℕ) → is_ws c ≡ in_ws c
is_ws-eq c = elim (Bool-cases (ltb c 256)) [
  | inl small ↦ same→≡ _ _ (passes-at _ 256 c is_ws_table (ground arith))
  | inr large ↦ is_ws_outside c (ground arith)
]

is_dec_table : passes (λ c. same (is_dec c) (in_dec c)) 256 ≡ true
unfolding passes is_dec
is_dec_table = refl

is_dec_outside : (c : ℕ) → 256 ≤ c → is_dec c ≡ in_dec c
unfolding is_dec ct_has
is_dec_outside c h = rw (chartype_table_outside c h) (ground arith)

pub is_dec-eq : (c : ℕ) → is_dec c ≡ in_dec c
is_dec-eq c = elim (Bool-cases (ltb c 256)) [
  | inl small ↦ same→≡ _ _ (passes-at _ 256 c is_dec_table (ground arith))
  | inr large ↦ is_dec_outside c (ground arith)
]

is_hex_table : passes (λ c. same (is_hex c) (in_hex c)) 256 ≡ true
unfolding passes is_hex
is_hex_table = refl

is_hex_outside : (c : ℕ) → 256 ≤ c → is_hex c ≡ in_hex c
unfolding is_hex ct_has
is_hex_outside c h = rw (chartype_table_outside c h) (ground arith)

pub is_hex-eq : (c : ℕ) → is_hex c ≡ in_hex c
is_hex-eq c = elim (Bool-cases (ltb c 256)) [
  | inl small ↦ same→≡ _ _ (passes-at _ 256 c is_hex_table (ground arith))
  | inr large ↦ is_hex_outside c (ground arith)
]

-- The table holds exactly the documented ranges: a bare key byte is a letter, a digit, `_` or `-`,
-- a hexadecimal digit may be of either case, and whitespace is a space or a tab.
pub chartype_ranges :
    (c : ℕ)
    → (is_barekey c ≡ in_barekey c)
      × (is_ws c ≡ in_ws c)
      × (is_dec c ≡ in_dec c)
      × (is_hex c ≡ in_hex c)
chartype_ranges c = (is_barekey-eq c, is_ws-eq c, is_dec-eq c, is_hex-eq c)
