-- ===== src/Parse/Utf8/Sequences.antt =====
-- `utf8_invalid_at` reads exactly what `utf8_put` writes for a scalar value.
use teptris.Base.{
  ℕ, ◌+◌, ◌*◌, ◌/◌, ◌%◌, Bool, true, not, ◌&&◌, [], ◌∷◌, ◌++◌, ◌≡◌, arith, Bytes, ltb, leb, ◌==◌,
  if◌then◌else◌, again,
}
use teptris.Parse.Utf8.{utf8_put, utf8_at}

-- A Unicode scalar value: no surrogate, and at most U+10FFFF.
abbrev pub is_scalar : ℕ → Bool
is_scalar cp = ltb cp 0x110000 && not (leb 0xD800 cp && leb cp 0xDFFF)

-- What `utf8_put` writes for a scalar value is read in one round.
pub utf8_at-utf8_put :
    (cp : ℕ) (t : Bytes) → is_scalar cp ≡ true → utf8_at (utf8_put cp ++ t) ≡ again t
unfolding utf8_at utf8_put
utf8_at-utf8_put cp t h = ground arith

-- The code point of a sequence, and of its tail.
abbrev pub point : Bytes → ℕ
point [] = 0
point (c ∷ []) = c
point (c ∷ x ∷ []) = if ltb c 0x80 then c else c % 32 * 64 + x % 64
point (c ∷ x ∷ y ∷ []) =
    if ltb c 0x80
    then c
    else if c / 32 == 6
    then c % 32 * 64 + x % 64
    else (c % 16 * 64 + x % 64) * 64 + y % 64
point (c ∷ x ∷ y ∷ z ∷ s) =
    if ltb c 0x80
    then c
    else if c / 32 == 6
    then c % 32 * 64 + x % 64
    else if c / 16 == 14
    then (c % 16 * 64 + x % 64) * 64 + y % 64
    else ((c % 8 * 64 + x % 64) * 64 + y % 64) * 64 + z % 64

abbrev pub IsPut : Bytes → Bytes → ℕ → Type 0
IsPut s t cp = (is_scalar cp ≡ true) × (utf8_put cp ++ t ≡ s)

pub again-IsPut : (s t : Bytes) → utf8_at s ≡ again t → IsPut s t (point s)
unfolding utf8_at utf8_put
again-IsPut [] t h = ground arith
again-IsPut (c ∷ []) t h = ground arith
again-IsPut (c ∷ x ∷ []) t h = ground arith
again-IsPut (c ∷ x ∷ y ∷ []) t h = ground arith
again-IsPut (c ∷ x ∷ y ∷ z ∷ s) t h = ground arith
