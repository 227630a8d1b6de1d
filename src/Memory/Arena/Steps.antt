-- ===== src/Memory/Arena/Steps.antt =====
-- What a step of the arena does to the bytes in use.
use teptris.Base.{
  ℕ, ◌+◌, ◌-◌, ◌%◌, ◌≤◌, Bool, true, [], ◌∷◌, Option, none, some, length, ltb, ◌&&◌, ◌≡◌, refl,
  arith, Bool-cases, inl, inr,
}
use teptris.Memory.Arena.{
  size_range, alignment, Block, Arena, Pointer, round_up, block_new, push_block, alloc_block,
  has_room, alloc, is_tail, try_grow,
}
use teptris.Memory.Arena.Safety.{
  object_limit, IsWell, used_of, round_up-le, used_of-fresh, used_of-head,
}

-- No block loses bytes.
abbrev pub Keeps : Arena → ℕ → Option (Pointer × Arena) → Type 0
Keeps a k none = Unit
Keeps a k (some (p, a')) = used_of a k ≤ used_of a' k

used_of-raise :
    (b b' : Block) (bs : Arena) (k : ℕ)
    → b.used ≤ b'.used
    → used_of (b ∷ bs) k ≤ used_of (b' ∷ bs) k
used_of-raise b b' bs k h = ground arith

push_block-Keeps : (a : Arena) (need k : ℕ) (nb : Option Block) → Keeps a k (push_block a need nb)
unfolding push_block
push_block-Keeps a need k none = tt
push_block-Keeps a need k (some nb) = ground (arith, used_of-fresh a k)

pub alloc-Keeps :
    (malloc : ℕ → Bool) (a : Arena) (size k : ℕ)
    → IsWell a
    → size ≤ object_limit
    → Keeps a k (alloc malloc a size)
unfolding alloc alloc_block
alloc-Keeps malloc [] size k w h = push_block-Keeps [] _ k (block_new malloc _)
alloc-Keeps malloc (b ∷ bs) size k (u, m, c, w) h =
    elim (Bool-cases (has_room b (round_up size alignment))) [
      | inl e ↦
          let (_, hi, _) = round_up-le size h in
          let sum : (b.used + round_up size alignment) % size_range
              ≡ b.used + round_up size alignment =
            omega arith in
          rw e (
            used_of-raise b (record b { used = (b.used + round_up size alignment) % size_range }) bs
              k (omega arith))
      | inr e ↦ rw e (push_block-Keeps (b ∷ bs) _ k (block_new malloc _))
    ]

-- A growth of the last region, in place.
abbrev pub Grows : Arena → Pointer → ℕ → ℕ → Option (Pointer × Arena) → Type 0
Grows a last old new none = Unit
Grows a last old new (some (p, a')) =
    IsWell a'
    × (p ≡ last)
    × (old ≤ new)
    × (used_of a p.block ≡ p.offset + round_up old alignment)
    × (used_of a' p.block ≡ p.offset + round_up new alignment)

pub round_up_mono :
    (m n : ℕ) → m ≤ n → n ≤ object_limit → round_up m alignment ≤ round_up n alignment
unfolding round_up
round_up_mono m n h k = omega arith

-- `new_rounded - old_rounded`, which wraps as written.
abbrev growth : ℕ → ℕ → ℕ
growth old new = (size_range + round_up new alignment - round_up old alignment) % size_range

growth-exact :
    (old new : ℕ)
    → old ≤ new
    → new ≤ object_limit
    → growth old new ≡ round_up new alignment - round_up old alignment
growth-exact old new le h =
    let (_, hi, _) = round_up-le new h in let more = round_up_mono old new le h in omega arith

-- The head block, filled further.
tail-Grows :
    (b : Block) (bs : Arena) (last : Pointer) (old new : ℕ)
    → IsWell (b ∷ bs)
    → old ≤ new
    → new ≤ object_limit
    → is_tail b bs last (round_up old alignment) ≡ true
    → has_room b (growth old new) ≡ true
    → Grows
        (b ∷ bs)
        last
        old
        new
        (some (last, record b { used = (b.used + growth old new) % size_range } ∷ bs))
tail-Grows b bs last old new (u, m, c, w) le hn tail room =
    let (_, ro, mo) = round_up-le old (omega arith) in
    let (_, rn, mn) = round_up-le new hn in
    let more = round_up_mono old new le hn in
    let exact = growth-exact old new le hn in
    let b' : Block = record b { used = (b.used + growth old new) % size_range } in
    let number : last.block ≡ length bs = ground arith in
    let ends : last.offset + round_up old alignment ≡ b.used = ground arith in
    let sum : b'.used ≡ b.used + growth old new = omega (arith, exact) in
    let fits : b'.used ≤ b.cap = ground arith in
    (
      (fits, omega arith, c, w),
      refl,
      le,
      rw number (omega (arith, used_of-head b bs)),
      rw number (omega (arith, used_of-head b' bs)),
    )

pub try_grow-Grows :
    (a : Arena) (last : Pointer) (old new : ℕ)
    → IsWell a
    → new ≤ object_limit
    → Grows a last old new (try_grow a (some last) old new)
unfolding try_grow
try_grow-Grows [] last old new w hn = tt
try_grow-Grows (b ∷ bs) last old new w hn = elim (Bool-cases (ltb new old)) [
  | inl e ↦ rw e tt
  | inr e ↦
      elim (Bool-cases
        (is_tail b bs last (round_up old alignment) && has_room b (growth old new))) [
          | inl e2 ↦
              rw (e, e2)
                (tail-Grows b bs last old new w (ground arith) hn (ground arith) (ground arith))
          | inr e2 ↦ rw (e, e2) tt
        ]
]

pub try_grow-Keeps :
    (a : Arena) (last : Pointer) (old new k : ℕ)
    → IsWell a
    → new ≤ object_limit
    → Keeps a k (try_grow a (some last) old new)
unfolding try_grow
try_grow-Keeps [] last old new k w hn = tt
try_grow-Keeps (b ∷ bs) last old new k (u, m, c, w) hn = elim (Bool-cases (ltb new old)) [
  | inl e ↦ rw e tt
  | inr e ↦
      elim (Bool-cases
        (is_tail b bs last (round_up old alignment) && has_room b (growth old new))) [
          | inl e2 ↦
              let (_, rn, _) = round_up-le new hn in
              let le : old ≤ new = ground arith in
              let exact = growth-exact old new le hn in
              rw (e, e2)
                (used_of-raise b (record b { used = (b.used + growth old new) % size_range }) bs k
                  (omega arith))
          | inr e2 ↦ rw (e, e2) tt
        ]
]
