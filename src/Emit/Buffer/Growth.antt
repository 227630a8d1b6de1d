-- ===== src/Emit/Buffer/Growth.antt =====
-- How the buffer of the emitters grows.
use teptris.Base.{
  ℕ, zero, suc, ◌+◌, ◌*◌, ◌%◌, ◌≤◌, Bool, true, false, not, ◌&&◌, [], ◌∷◌, ◌++◌, some, Bytes, codes,
  length, length-append, ltb, leb, ◌==◌, if◌then◌else◌, ◌≡◌, refl, ◌⊎◌, inl, inr, Bool-cases, arith,
}
use teptris.Emit.Buffer.{
  Ebuf, need, doubled, first_cap, grown, eb_reserve, append, eb_put, eb_c, eb_sep2,
}
use teptris.Memory.Arena.{size_range}

-- 2 ^ 63
abbrev pub half_range : ℕ
half_range = 9223372036854775808

-- `ncap` after so many rounds.
abbrev doublings : ℕ → ℕ → ℕ
doublings zero ncap = ncap
doublings (suc fuel) ncap = doublings fuel (ncap * 2)

doubled-enough :
    (fuel wanted ncap : ℕ)
    → wanted ≤ half_range
    → wanted ≤ doublings fuel ncap
    → (ncap' : ℕ) × (doubled fuel wanted ncap ≡ some ncap') × (wanted ≤ ncap')
unfolding doubled
doubled-enough zero wanted ncap small enough =
    let done : ltb ncap wanted ≡ false = ground arith in (ncap, rw done refl, enough)
doubled-enough (suc fuel) wanted ncap small enough = elim (Bool-cases (ltb ncap wanted)) [
  | inl less ↦
      let exact : (ncap * 2) % size_range ≡ ncap * 2 = ground arith in
      let (ncap', found, fits) = doubled-enough fuel wanted (ncap * 2) small enough in
      (ncap', rw (less, exact) found, fits)
  | inr done ↦ (ncap, rw done refl, ground arith)
]

first_cap-enough : (wanted cap : ℕ) → wanted ≤ half_range → wanted ≤ doublings 63 (first_cap cap)
first_cap-enough wanted cap small = elim (Bool-cases (cap == 0)) [
  | inl none_yet ↦ rw none_yet (ground arith)
  | inr some_cap ↦ let one : 1 ≤ cap = ground arith in rw some_cap (omega arith)
]

-- What `eb_put` leaves: the buffer as it was, where it had failed; a failure, where `realloc` does not
-- grant a size that is enough; or the text with the bytes behind it, inside the capacity.
abbrev pub IsPut : (ℕ → Bool) → Bytes → Ebuf → Ebuf → Type 0
IsPut realloc s b b' =
    (b.failed ≡ true × b' ≡ b)
    ⊎ (b.failed ≡ false
        × b'.failed ≡ true
        × ((n : ℕ) × (need (length s) b ≤ n) × realloc n ≡ false))
    ⊎ (b.failed ≡ false × b'.failed ≡ false × b'.text ≡ b.text ++ s × length b'.text + 1 ≤ b'.cap)

put-again :
    (realloc : ℕ → Bool) (s : Bytes) (n : ℕ) (b : Ebuf)
    → n ≡ length s + 1
    → not b.failed && leb ((length b.text + n) % size_range) b.cap ≡ true
    → some (append s b) ≡ eb_put realloc s b
unfolding eb_put
put-again realloc s n b size room =
    let live : b.failed ≡ false = ground arith in
    let same : length b.text + length s + 1 ≡ length b.text + n = ground arith in
    let fits : leb ((length b.text + n) % size_range) b.cap ≡ true = ground arith in
    rw (live, same, fits) refl

-- A single byte and the separator `, `, which are written without a call where there is room, are the
-- same as an `eb_put` of them, on every buffer.
pub eb_c-eb_put :
    (realloc : ℕ → Bool) (c : ℕ) (b : Ebuf)
    → (eb_c realloc c b ≡ eb_put realloc (c ∷ []) b)
      × (eb_sep2 realloc b ≡ eb_put realloc (codes ", ") b)
unfolding eb_c eb_sep2
eb_c-eb_put realloc c b = (
  elim (Bool-cases (not b.failed && leb ((length b.text + 2) % size_range) b.cap)) [
    | inl room ↦ rw room (put-again realloc (c ∷ []) 2 b (ground arith) room)
    | inr full ↦ rw full refl
  ],
  elim (Bool-cases (not b.failed && leb ((length b.text + 3) % size_range) b.cap)) [
    | inl room ↦ rw room (put-again realloc (codes ", ") 3 b (ground arith) room)
    | inr full ↦ rw full refl
  ],
)

module _ (realloc : ℕ → Bool) (s : Bytes) (b : Ebuf) (live : b.failed ≡ false)
    (small : length b.text + length s + 1 ≤ half_range) where
  need-exact : need (length s) b ≡ length b.text + length s + 1
  need-exact = ground arith

  -- Behind the loop, in a buffer that is full.
  abbrev behind : ℕ → Ebuf
  behind ncap = let b' = grown realloc b ncap in if b'.failed then b' else append s b'

  behind-IsPut : (ncap : ℕ) → need (length s) b ≤ ncap → IsPut realloc s b (behind ncap)
  behind-IsPut ncap enough =
      let size : length (b.text ++ s) ≡ length b.text + length s = length-append b.text s in
      let exact = need-exact in
      elim (Bool-cases (realloc ncap)) [
        | inl granted ↦
            rw granted (inr (inr (live, rw live refl, rw live refl, rw live (ground arith))))
        | inr refused ↦ rw refused (inr (inl (live, refl, (ncap, enough, refused))))
      ]

  full-put :
      (ncap : ℕ)
      → leb (need (length s) b) b.cap ≡ false
      → doubled 63 (need (length s) b) (first_cap b.cap) ≡ some ncap
      → eb_put realloc s b ≡ some (behind ncap)
  unfolding eb_put eb_reserve
  full-put ncap full found = simp (live, full, found) refl

  full-IsPut :
      leb (need (length s) b) b.cap ≡ false
      → (b' : Ebuf) × (eb_put realloc s b ≡ some b') × IsPut realloc s b b'
  full-IsPut full =
      let below : need (length s) b ≤ half_range = ground (arith, need-exact) in
      let (ncap, found, enough) =
        doubled-enough 63 (need (length s) b) (first_cap b.cap) below
          (first_cap-enough (need (length s) b) b.cap below) in
      (behind ncap, full-put ncap full found, behind-IsPut ncap enough)

  room-IsPut :
      leb (need (length s) b) b.cap ≡ true
      → (b' : Ebuf) × (eb_put realloc s b ≡ some b') × IsPut realloc s b b'
  unfolding eb_put
  room-IsPut room =
      let size : length (b.text ++ s) ≡ length b.text + length s = length-append b.text s in
      let exact = need-exact in
      (append s b, rw (live, room) refl, inr (inr (live, live, refl, ground arith)))

-- Where the text, the bytes and a NUL are 2 ^ 63 bytes at most, `eb_put` ends: it leaves a buffer that
-- had failed as it is, fails where `realloc` refuses a size that is enough for all of them, and else
-- puts the bytes behind the text, with room for a NUL within the capacity.
pub eb_put-IsPut :
    (realloc : ℕ → Bool) (s : Bytes) (b : Ebuf)
    → length b.text + length s + 1 ≤ half_range
    → (b' : Ebuf) × (eb_put realloc s b ≡ some b') × IsPut realloc s b b'
unfolding eb_put
eb_put-IsPut realloc s b small = elim (Bool-cases b.failed) [
  | inl failed ↦ (b, rw failed refl, inl (failed, refl))
  | inr live ↦ elim (Bool-cases (leb (need (length s) b) b.cap)) [
    | inl room ↦ room-IsPut realloc s b live small room
    | inr full ↦ full-IsPut realloc s b live small full
  ]
]
