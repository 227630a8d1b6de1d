-- ===== src/Examples/Memory.antt =====
-- Runs of the arena, with a `malloc` that grants all but the impossible.
use teptris.Base.{
  ℕ, ◌<◌, ◌≤◌, Bool, true, false, [], ◌∷◌, none, some, ltb, ltb→lt, ◌≡◌, refl, arith,
}
use teptris.Memory.Arena.Live.{Reaches, created, allocated, grown, Sound, Reaches-Sound}
use teptris.Memory.Arena.Safety.{object_limit, Allocates, alloc-Allocates, fast_alloc-alloc}
use teptris.Memory.Arena.{Arena, alignment, round_up, alloc, fast_alloc, try_grow}

abbrev generous : ℕ → Bool
generous n = ltb n object_limit

generous_lem : (n : ℕ) → generous n ≡ true → n < object_limit
generous_lem n h = ltb→lt n object_limit h

abbrev stingy : ℕ → Bool
stingy n = false

-- Two requests, for 24 and for 100 bytes.
abbrev after_one : Arena
after_one = record { used = 32; cap = 65536 } ∷ []

abbrev after_two : Arena
after_two = record { used = 144; cap = 65536 } ∷ []

abbrev after_grow : Arena
after_grow = record { used = 240; cap = 65536 } ∷ []

refused_run : alloc stingy after_one 70000 ≡ none
unfolding alloc round_up
refused_run = refl

new_block_run :
    alloc generous after_one 70000
    ≡ some (record { block = 1; offset = 0 }, record { used = 70000; cap = 131072 } ∷ after_one)
unfolding alloc round_up
new_block_run = refl

alloc-Allocates_example :
    (100 ≤ round_up 100 alignment)
    × Allocates generous after_one (round_up 100 alignment) (alloc generous after_one 100)
alloc-Allocates_example =
    alloc-Allocates generous generous_lem after_one 100 (ground arith, refl, ground arith, tt)
      (ground arith)

fast_alloc-alloc_example : fast_alloc generous after_one 100 ≡ alloc generous after_one 100
fast_alloc-alloc_example =
    fast_alloc-alloc generous after_one 100 (ground arith, refl, ground arith, tt) (ground arith)

one_step :
    Reaches generous after_one (record { at = record { block = 0; offset = 0 }; size = 24 } ∷ [])
unfolding alloc round_up
one_step = allocated 24 created (ground arith) (ground arith) refl

two_steps : Reaches generous after_two (
    record { at = record { block = 0; offset = 32 }; size = 100 }
    ∷ record { at = record { block = 0; offset = 0 }; size = 24 }
    ∷ [])
unfolding alloc round_up
two_steps = allocated 100 one_step (ground arith) (ground arith) refl

three_steps : Reaches generous after_grow (
    record { at = record { block = 0; offset = 32 }; size = 200 }
    ∷ record { at = record { block = 0; offset = 0 }; size = 24 }
    ∷ [])
unfolding try_grow round_up
three_steps = grown 200 two_steps (ground arith) refl

Reaches-Sound_example : Sound after_grow (
    record { at = record { block = 0; offset = 32 }; size = 200 }
    ∷ record { at = record { block = 0; offset = 0 }; size = 24 }
    ∷ [])
Reaches-Sound_example = Reaches-Sound generous generous_lem after_grow _ three_steps
