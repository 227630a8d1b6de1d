-- ===== src/Memory/Arena/Safety.antt =====
-- What the arena hands out is aligned, inside its block, and new.
use teptris.Base.{
  ℕ, ◌+◌, ◌*◌, ◌-◌, ◌%◌, ◌≤◌, ◌<◌, Bool, true, false, [], ◌∷◌, Option, none, some, length, ◌==◌,
  if◌then◌else◌, ◌≡◌, refl, ap, arith, Bool-cases, inl, inr,
}
use Prim.Native.Nat.{max}
use teptris.Memory.Arena.{
  size_range, alignment, Block, Arena, Pointer, round_up, block_data_offset, block_new, geometric,
  new_cap, push_block, alloc_block, has_room, alloc, fast_alloc,
}

-- 2 ^ 63, the size of no object.
abbrev pub object_limit : ℕ
object_limit = 9223372036854775808

-- Each block with its header is an object, and is filled in steps of the alignment.
abbrev pub IsWell : Arena → Type 0
IsWell [] = Unit
IsWell (b ∷ bs) =
    (b.used ≤ b.cap) × (b.used % alignment ≡ 0) × (32 + b.cap < object_limit) × IsWell bs

-- The bytes in use of the block with a number; 0 where there is none.
abbrev pub used_of : Arena → ℕ → ℕ
used_of [] k = 0
used_of (b ∷ bs) k = if k == length bs then b.used else used_of bs k

abbrev pub cap_of : Arena → ℕ → ℕ
cap_of [] k = 0
cap_of (b ∷ bs) k = if k == length bs then b.cap else cap_of bs k

-- `size` bytes at `p` are aligned, lie behind all that was in use, and are in use now.
abbrev pub Carves : Arena → ℕ → Pointer × Arena → Type 0
Carves a size (p, a') =
    IsWell a'
    × (p.offset % alignment ≡ 0)
    × (used_of a p.block ≤ p.offset)
    × (p.offset + size ≤ used_of a' p.block)
    × (used_of a' p.block ≤ cap_of a' p.block)

-- The head block has no `size` bytes left.
abbrev pub IsFull : Arena → ℕ → Type 0
IsFull [] size = Unit
IsFull (b ∷ bs) size = b.cap < b.used + size

abbrev pub head_cap : Arena → ℕ
head_cap [] = 0
head_cap (b ∷ bs) = b.cap

-- A block that starts with `size` bytes: its header of 32 bytes, and 64 KiB, `size` bytes or twice the
-- head block, whichever is the most.
abbrev pub block_for : Arena → ℕ → ℕ
block_for a size = 32 + max (max 65536 size) (2 * head_cap a)

-- It fails without room in the head block, where `malloc` refuses a new one.
abbrev pub Allocates : (ℕ → Bool) → Arena → ℕ → Option (Pointer × Arena) → Type 0
Allocates malloc a size none = IsFull a size × (malloc (block_for a size) ≡ false)
Allocates malloc a size (some r) = Carves a size r

pub round_up-le :
    (n : ℕ)
    → n ≤ object_limit
    → (n ≤ round_up n alignment)
      × (round_up n alignment ≤ object_limit)
      × (round_up n alignment % alignment ≡ 0)
unfolding round_up
round_up-le n h = (omega arith, omega arith, omega arith)

-- The number of a block that is yet to be made.
pub used_of-fresh : (a : Arena) (k : ℕ) → length a ≤ k → used_of a k ≡ 0
used_of-fresh [] k h = refl
used_of-fresh (b ∷ bs) k h = ground (arith, used_of-fresh bs k)

pub used_of-head : (b : Block) (bs : Arena) → used_of (b ∷ bs) (length bs) ≡ b.used
used_of-head b bs = ground arith

pub cap_of-head : (b : Block) (bs : Arena) → cap_of (b ∷ bs) (length bs) ≡ b.cap
cap_of-head b bs = ground arith

-- No sum of `used` and a rounded size wraps.
bump-Carves :
    (b : Block) (bs : Arena) (size need : ℕ)
    → IsWell (b ∷ bs)
    → size ≤ need
    → need ≤ object_limit
    → need % alignment ≡ 0
    → has_room b need ≡ true
    → Carves (b ∷ bs) size (
      record { block = length bs; offset = b.used },
      record b { used = (b.used + need) % size_range } ∷ bs,
    )
bump-Carves b bs size need (u, m, c, w) lo hi al room =
    let b' : Block = record b { used = (b.used + need) % size_range } in
    let sum : b'.used ≡ b.used + need = omega arith in
    let fits : b'.used ≤ b.cap = ground arith in
    (
      (fits, omega arith, c, w),
      m,
      omega (arith, used_of-head b bs),
      omega (arith, used_of-head b' bs),
      omega (arith, used_of-head b' bs, cap_of-head b' bs),
    )

new_cap_lem :
    (a : Arena) (need : ℕ)
    → IsWell a
    → need ≤ object_limit
    → (32 + new_cap a need ≡ block_for a need) × (32 + new_cap a need < size_range)
unfolding new_cap geometric
new_cap_lem [] need w h = (ground arith, ground arith)
new_cap_lem (b ∷ bs) need w h = (ground arith, ground arith)

new_block-Carves :
    (a : Arena) (size need cap : ℕ)
    → IsWell a
    → size ≤ need
    → need % alignment ≡ 0
    → need ≤ cap
    → 32 + cap < object_limit
    → Carves a size (
      record { block = length a; offset = 0 },
      record { used = (0 + need) % size_range; cap = cap } ∷ a,
    )
new_block-Carves a size need cap w lo al fits small =
    let b : Block = record { used = (0 + need) % size_range; cap = cap } in
    (
      (omega arith, omega arith, small, w),
      refl,
      omega (arith, used_of-fresh a (length a)),
      omega (arith, used_of-head b a),
      omega (arith, used_of-head b a, cap_of-head b a),
    )

no_room :
    (b : Block) (bs : Arena) (need : ℕ)
    → IsWell (b ∷ bs)
    → need ≤ object_limit
    → has_room b need ≡ false
    → IsFull (b ∷ bs) need
no_room b bs need (u, m, c, w) hi e = ground arith

module _ (malloc : ℕ → Bool) (granted : (n : ℕ) → malloc n ≡ true → n < object_limit) where
  -- The result of `block_new` under a well-formed arena.
  push_block-Allocates :
      (a : Arena) (size need cap : ℕ)
      → IsWell a
      → size ≤ need
      → need % alignment ≡ 0
      → need ≤ cap
      → 32 + cap < size_range
      → IsFull a size
      → 32 + cap ≡ block_for a size
      → Allocates malloc a size (push_block a need (block_new malloc cap))
  unfolding push_block block_new block_data_offset round_up
  push_block-Allocates a size need cap w lo al fits small full same =
      elim (Bool-cases (malloc ((32 + cap) % size_range))) [
        | inl h ↦
            let small' : 32 + cap < object_limit = granted (32 + cap) (grind arith) in
            rw h (new_block-Carves a size need cap w lo al fits small')
        | inr h ↦
            let exact : (32 + cap) % size_range ≡ block_for a size = omega (arith, same, small) in
            rw h (full, rw exact at h)
      ]

  alloc_block-Allocates :
      (a : Arena) (need : ℕ)
      → IsWell a
      → need % alignment ≡ 0
      → need ≤ object_limit
      → IsFull a need
      → Allocates malloc a need (alloc_block malloc a need)
  unfolding alloc_block
  alloc_block-Allocates a need w al hi full =
      let (same, small) = new_cap_lem a need w hi in
      push_block-Allocates a need need (new_cap a need) w (omega arith) al (omega (arith, same))
        small full same

  -- Every allocation of at most 2^63 bytes, from a well-formed arena, leaves a well-formed arena; the
  -- bytes that it hands out are aligned to 16, lie inside one block and behind all that was in use of
  -- that block. It fails only where the head block has no room for the rounded size and `malloc`
  -- refuses the header of 32 bytes with 64 KiB, the rounded size or twice the head block, whichever is
  -- the most. `malloc` is taken to grant no object of 2^63 bytes or more.
  pub alloc-Allocates :
      (a : Arena) (size : ℕ)
      → IsWell a
      → size ≤ object_limit
      → (size ≤ round_up size alignment)
        × Allocates malloc a (round_up size alignment) (alloc malloc a size)
  unfolding alloc
  alloc-Allocates [] size w h =
      let (lo, hi, al) = round_up-le size h in
      (lo, alloc_block-Allocates [] (round_up size alignment) w al hi tt)
  alloc-Allocates (b ∷ bs) size w h =
      let (lo, hi, al) = round_up-le size h in
      (
        lo,
        elim (Bool-cases (has_room b (round_up size alignment))) [
          | inl e ↦ rw e (
              bump-Carves b bs (round_up size alignment) (round_up size alignment) w (omega arith)
                hi al e)
          | inr e ↦ rw e (
              alloc_block-Allocates (b ∷ bs) (round_up size alignment) w al hi
                (no_room b bs (round_up size alignment) w hi e))
        ],
      )

-- The inline allocator is the other one: on every well-formed arena and for every size up to 2^63
-- they give the same pointer and the same arena.
pub fast_alloc-alloc :
    (malloc : ℕ → Bool) (a : Arena) (size : ℕ)
    → IsWell a
    → size ≤ object_limit
    → fast_alloc malloc a size ≡ alloc malloc a size
unfolding fast_alloc
fast_alloc-alloc malloc [] size w h = refl
fast_alloc-alloc malloc (b ∷ bs) size (u, m, c, w) h =
    elim (Bool-cases (has_room b (round_up size alignment))) [
      | inl e ↦
          let (_, hi, _) = round_up-le size h in
          let back : (b.used + round_up size alignment) % size_range - round_up size alignment
              ≡ b.used =
            omega arith in
          rw e (
            ap
              (λ o. some (
                record { block = length bs; offset = o },
                record b { used = (b.used + round_up size alignment) % size_range } ∷ bs,
              ))
              back)
      | inr e ↦ rw e refl
    ]
