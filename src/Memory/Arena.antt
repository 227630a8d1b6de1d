-- ===== src/Memory/Arena.antt =====
-- src/teptris/memory/arena.c and arena.h: the bump arena of a document. `size_t` has 64 bits, and its
-- sums wrap as written. A block is numbered by the count of the blocks made before it, and a pointer
-- is a block's number and an offset into its data. `malloc` is a parameter that says which sizes it
-- grants.
pub mod Safety
pub mod Steps
pub mod Live
use teptris.Base.{
  ℕ, ◌+◌, ◌-◌, ◌*◌, ◌%◌, Bool, true, false, List, [], ◌∷◌, Option, none, some, length, ltb, leb,
  ◌==◌, ◌&&◌, if◌then◌else◌,
}

-- 2 ^ 64
abbrev pub size_range : ℕ
size_range = 18446744073709551616

abbrev pub block_size : ℕ
block_size = 65536

abbrev pub alignment : ℕ
alignment = 16

-- `teptris_arena_block`, without its data; the list is the chain of `next`.
pub record Block : Type 0 where
  pub used : ℕ
  pub cap : ℕ

abbrev pub Arena : Type 0
Arena = List Block

pub record Pointer : Type 0 where
  pub block : ℕ
  pub offset : ℕ

-- `x & ~(align - 1)`, for a power of two.
abbrev pub round_down : ℕ → ℕ → ℕ
round_down x align = x - x % align

unfoldable pub round_up : ℕ → ℕ → ℕ
round_up n align = round_down ((n + align - 1) % size_range) align

-- The header has three words of 8 bytes.
unfoldable pub block_data_offset : ℕ
unfolding round_up
block_data_offset = round_up 24 alignment

abbrev pub init : Arena
init = []

unfoldable pub block_new : (ℕ → Bool) → ℕ → Option Block
unfolding block_data_offset
block_new malloc cap =
    if malloc ((block_data_offset + cap) % size_range)
    then some (record { used = 0; cap = cap })
    else none

-- Twice the head block, if that is more.
unfoldable pub geometric : Arena → ℕ → ℕ
geometric [] cap = cap
geometric (b ∷ bs) cap =
    if ltb cap ((b.cap * 2) % size_range) then (b.cap * 2) % size_range else cap

unfoldable pub new_cap : Arena → ℕ → ℕ
unfolding geometric
new_cap arena need = geometric arena (if ltb block_size need then need else block_size)

-- The new block becomes the head.
unfoldable pub push_block : Arena → ℕ → Option Block → Option (Pointer × Arena)
push_block arena need none = none
push_block arena need (some nb) = some (
  record { block = length arena; offset = nb.used },
  record nb { used = (nb.used + need) % size_range } ∷ arena,
)

unfoldable pub alloc_block : (ℕ → Bool) → Arena → ℕ → Option (Pointer × Arena)
unfolding push_block block_new new_cap
alloc_block malloc arena need = push_block arena need (block_new malloc (new_cap arena need))

abbrev pub has_room : Block → ℕ → Bool
has_room b extra = leb ((b.used + extra) % size_range) b.cap

unfoldable pub alloc : (ℕ → Bool) → Arena → ℕ → Option (Pointer × Arena)
unfolding alloc_block round_up
alloc malloc [] size = alloc_block malloc [] (round_up size alignment)
alloc malloc (b ∷ bs) size =
    let need = round_up size alignment in
    if has_room b need
    then some (
      record { block = length bs; offset = b.used },
      record b { used = (b.used + need) % size_range } ∷ bs,
    )
    else alloc_block malloc (b ∷ bs) need

-- The pointer is counted back from the new end.
unfoldable pub fast_alloc : (ℕ → Bool) → Arena → ℕ → Option (Pointer × Arena)
unfolding alloc round_up
fast_alloc malloc [] size = alloc malloc [] size
fast_alloc malloc (b ∷ bs) size =
    let need = round_up size 16 in
    let end = (b.used + need) % size_range in
    if has_room b need
    then some (record { block = length bs; offset = end - need }, record b { used = end } ∷ bs)
    else alloc malloc (b ∷ bs) size

-- `last + old_rounded == block_data(b) + b->used`
abbrev pub is_tail : Block → Arena → Pointer → ℕ → Bool
is_tail b bs last old_rounded = last.block == length bs && last.offset + old_rounded == b.used

-- A `last` that is null is `none`.
unfoldable pub try_grow : Arena → Option Pointer → ℕ → ℕ → Option (Pointer × Arena)
unfolding round_up
try_grow [] last old_size new_size = none
try_grow (b ∷ bs) none old_size new_size = none
try_grow (b ∷ bs) (some last) old_size new_size =
    let old_rounded = round_up old_size alignment in
    let new_rounded = round_up new_size alignment in
    let more = (size_range + new_rounded - old_rounded) % size_range in
    if ltb new_size old_size
    then none
    else if is_tail b bs last old_rounded && has_room b more
    then some (last, record b { used = (b.used + more) % size_range } ∷ bs)
    else none
