-- ===== src/Memory/Arena/Live.antt =====
-- The regions that an arena has handed out, over any sequence of allocations and growths.
use teptris.Base.{
  ℕ, ◌+◌, ◌≤◌, ◌<◌, Bool, true, List, [], ◌∷◌, ◌++◌, some, ◌≡◌, ◌≢◌, ◌⊎◌, inl, inr, ap, arith,
  Bool-cases, ◌==◌,
}
use teptris.Memory.Arena.{alignment, Arena, Pointer, round_up, init, alloc, try_grow}
use teptris.Memory.Arena.Safety.{
  object_limit, IsWell, used_of, Carves, alloc-Allocates, round_up-le,
}
use teptris.Memory.Arena.Steps.{
  Keeps, Grows, round_up_mono, alloc-Keeps, try_grow-Grows, try_grow-Keeps,
}

pub record Region : Type 0 where
  pub at : Pointer
  pub size : ℕ

-- The arenas that a program can come to, with the regions that it holds: it allocates, grows a
-- region that it holds, and is free to hold them in any order. Each request is for a byte at least,
-- and for 2^63 at most.
pub data Reaches (malloc : ℕ → Bool) : Arena → List Region → Type 0 where
  created : Reaches malloc init []
  allocated :
      {a a' : Arena} {live : List Region} {p : Pointer} (size : ℕ)
      → Reaches malloc a live
      → 1 ≤ size
      → size ≤ object_limit
      → alloc malloc a size ≡ some (p, a')
      → Reaches malloc a' (record { at = p; size = size } ∷ live)
  grown :
      {a a' : Arena} {live : List Region} {r : Region} {p : Pointer} (size : ℕ)
      → Reaches malloc a (r ∷ live)
      → size ≤ object_limit
      → try_grow a (some r.at) r.size size ≡ some (p, a')
      → Reaches malloc a' (record { at = p; size = size } ∷ live)
  moved :
      {a : Arena} (before : List Region) {r : Region} (after : List Region)
      → Reaches malloc a (before ++ r ∷ after)
      → Reaches malloc a (r ∷ (before ++ after))

abbrev pub region_end : Region → ℕ
region_end r = r.at.offset + round_up r.size alignment

-- No byte is in both.
abbrev pub Disjoint : Region → Region → Type 0
Disjoint r s =
    (r.at.block ≢ s.at.block) ⊎ (region_end r ≤ s.at.offset) ⊎ (region_end s ≤ r.at.offset)

abbrev pub Apart : Region → List Region → Type 0
Apart r [] = Unit
Apart r (s ∷ ss) = Disjoint r s × Apart r ss

abbrev pub Separate : List Region → Type 0
Separate [] = Unit
Separate (r ∷ rs) = Apart r rs × Separate rs

-- A region has a byte, and ends inside the bytes in use.
abbrev pub Held : Arena → Region → Type 0
Held a r =
    (1 ≤ round_up r.size alignment)
    × (r.size ≤ round_up r.size alignment)
    × (region_end r ≤ used_of a r.at.block)

abbrev pub AllHeld : Arena → List Region → Type 0
AllHeld a [] = Unit
AllHeld a (r ∷ rs) = Held a r × AllHeld a rs

AllHeld-keeps :
    (a a' : Arena) (live : List Region)
    → ((k : ℕ) → used_of a k ≤ used_of a' k)
    → AllHeld a live
    → AllHeld a' live
AllHeld-keeps a a' [] up h = tt
AllHeld-keeps a a' (r ∷ rs) up ((one, size, h), hs) =
    let le = up r.at.block in ((one, size, omega arith), AllHeld-keeps a a' rs up hs)

fresh-Disjoint :
    (a : Arena) (r s : Region)
    → used_of a r.at.block ≤ r.at.offset
    → region_end s ≤ used_of a s.at.block
    → Disjoint r s
fresh-Disjoint a r s new h = elim (Bool-cases (r.at.block == s.at.block)) [
  | inl e ↦
      let same : used_of a r.at.block ≡ used_of a s.at.block = ap (used_of a) (ground arith) in
      inr (inr (omega arith))
  | inr e ↦ inl (ground arith)
]

grown-Disjoint :
    (a : Arena) (r r' s : Region)
    → r'.at.block ≡ r.at.block
    → r'.at.offset ≡ r.at.offset
    → used_of a r.at.block ≡ region_end r
    → 1 ≤ round_up s.size alignment
    → region_end s ≤ used_of a s.at.block
    → Disjoint r s
    → Disjoint r' s
grown-Disjoint a r r' s number place tail one h d = elim (Bool-cases (r.at.block == s.at.block)) [
  | inl e ↦
      let block : r.at.block ≡ s.at.block = ground arith in
      let same : used_of a r.at.block ≡ used_of a s.at.block = ap (used_of a) block in
      elim d [
        | inl other ↦ absurd (other block)
        | inr (inl lo) ↦ inr (inr (omega arith))
        | inr (inr hi) ↦ inr (inr (omega arith))
      ]
  | inr e ↦ inl (ground arith)
]

-- A region behind the bytes in use is apart from all that is held.
fresh-Apart :
    (a : Arena) (r : Region) (live : List Region)
    → used_of a r.at.block ≤ r.at.offset
    → AllHeld a live
    → Apart r live
fresh-Apart a r [] new h = tt
fresh-Apart a r (s ∷ ss) new ((_, _, h), hs) =
    (fresh-Disjoint a r s new h, fresh-Apart a r ss new hs)

-- A region at the end of the bytes in use stays apart when it grows.
grown-Apart :
    (a : Arena) (r r' : Region) (live : List Region)
    → r'.at ≡ r.at
    → used_of a r.at.block ≡ region_end r
    → AllHeld a live
    → Apart r live
    → Apart r' live
grown-Apart a r r' [] same tail h d = tt
grown-Apart a r r' (s ∷ ss) same tail ((one, _, h), hs) (d, ds) = (
  grown-Disjoint a r r' s (ap (λ (q : Pointer). q.block) same) (ap (λ (q : Pointer). q.offset) same)
      tail one h d,
  grown-Apart a r r' ss same tail hs ds,
)

Disjoint-sym : (r s : Region) → Disjoint r s → Disjoint s r
Disjoint-sym r s d = ground arith

Apart-drop :
    (x : Region) (before : List Region) (r : Region) (after : List Region)
    → Apart x (before ++ r ∷ after)
    → Disjoint x r × Apart x (before ++ after)
Apart-drop x [] r after (d, h) = (d, h)
Apart-drop x (y ∷ ys) r after (d, h) = let (e, k) = Apart-drop x ys r after h in (e, (d, k))

Separate-front :
    (before : List Region) (r : Region) (after : List Region)
    → Separate (before ++ r ∷ after)
    → Separate (r ∷ (before ++ after))
Separate-front [] r after h = h
Separate-front (x ∷ xs) r after (ax, h) =
    let (d, k) = Apart-drop x xs r after ax in
    let (ar, hs) = Separate-front xs r after h in ((Disjoint-sym x r d, ar), (k, hs))

AllHeld-front :
    (a : Arena) (before : List Region) (r : Region) (after : List Region)
    → AllHeld a (before ++ r ∷ after)
    → AllHeld a (r ∷ (before ++ after))
AllHeld-front a [] r after h = h
AllHeld-front a (x ∷ xs) r after (hx, h) =
    let (hr, hs) = AllHeld-front a xs r after h in (hr, (hx, hs))

abbrev pub Sound : Arena → List Region → Type 0
Sound a live = IsWell a × AllHeld a live × Separate live

allocated-Sound :
    (a : Arena) (live : List Region) (size : ℕ) (r : Pointer × Arena)
    → Sound a live
    → 1 ≤ size
    → size ≤ round_up size alignment
    → Carves a (round_up size alignment) r
    → ((k : ℕ) → Keeps a k (some r))
    → Sound r.1 (record { at = r.0; size = size } ∷ live)
allocated-Sound a live size (p, a') (w, h, d) one le (w', al, new, fits, _) up = (
  w',
  ((omega arith, le, fits), AllHeld-keeps a a' live up h),
  (fresh-Apart a (record { at = p; size = size }) live new h, d),
)

grown-Sound :
    (a : Arena) (r : Region) (live : List Region) (size : ℕ) (new : Pointer × Arena)
    → Sound a (r ∷ live)
    → size ≤ object_limit
    → Grows a r.at r.size size (some new)
    → ((k : ℕ) → Keeps a k (some new))
    → Sound new.1 (record { at = new.0; size = size } ∷ live)
grown-Sound a r live size (p, a') (w, ((one, _, fits), h), (d, ds)) hi (w', same, le, tail, end)
      up =
    let (lo, _, _) = round_up-le size hi in
    let more = round_up_mono r.size size le hi in
    (
      w',
      ((omega arith, lo, omega arith), AllHeld-keeps a a' live up h),
      (grown-Apart a r (record { at = p; size = size }) live same (rw same at tail) h d, ds),
    )

module _ (malloc : ℕ → Bool) (granted : (n : ℕ) → malloc n ≡ true → n < object_limit) where
  -- Whatever sequence of allocations and growths leads to an arena, it is well-formed, and the
  -- regions that the program holds have all their bytes inside the bytes in use of their blocks, and
  -- share no byte. Requests are for 1 to 2^63 bytes, and `malloc` is taken to grant no object of 2^63
  -- bytes or more.
  pub Reaches-Sound : (a : Arena) (live : List Region) → Reaches malloc a live → Sound a live
  Reaches-Sound a live created = (tt, tt, tt)
  Reaches-Sound a live (allocated {a = b} {live = held} {p = p} size h one hi e) =
      let (w, hs, d) = Reaches-Sound b held h in
      let (le, found) = alloc-Allocates malloc granted b size w hi in
      allocated-Sound b held size (p, a) (w, hs, d) one le (rw e at found)
        (λ k. rw e at (alloc-Keeps malloc b size k w hi))
  Reaches-Sound a live (grown {a = b} {live = held} {r = r} {p = p} size h hi e) =
      let (w, hs, d) = Reaches-Sound b (r ∷ held) h in
      grown-Sound b r held size (p, a) (w, hs, d) hi
        (rw e at (try_grow-Grows b r.at r.size size w hi))
        (λ k. rw e at (try_grow-Keeps b r.at r.size size k w hi))
  Reaches-Sound a live (moved before {r = r} after h) =
      let (w, hs, d) = Reaches-Sound a (before ++ r ∷ after) h in
      (w, AllHeld-front a before r after hs, Separate-front before r after d)
