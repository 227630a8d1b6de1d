-- ===== src/Parse/Keys/Progress.antt =====
-- A key path is read to its end, and is never deeper than the limit.
use teptris.Base.{
  ℕ, ◌≤◌, ◌<◌, Bool, true, false, List, [], ◌∷◌, ◌++◌, arith, Bytes, length, length-append, ◌==◌,
  again, leave, Falls, run_inv,
}
use teptris.Parse.Keys.{
  behind_bare_key, key_component, PathScan, PathTurn, part_end, behind_ws, part_read, path_turn,
  parse_key_path,
}
use teptris.Parse.Result.{
  Result, ok, fail, stuck, overrun, IsRest, IsRest-refl, IsRest-cons, IsRest-trans, IsRest-length,
  Ends,
}
use teptris.Parse.Strings.Progress.{scan-Ends}
use teptris.Parse.Strings.Values.Fast.{quoted_body-scan_body, scan_body-basic, scan_body-literal}
use teptris.Parse.Strings.Values.{scan_body, quoted_key}

behind_ws-IsRest : (s : Bytes) → IsRest (behind_ws s) s
unfolding behind_ws
behind_ws-IsRest [] = IsRest-refl []
behind_ws-IsRest (c ∷ s) = grind (arith, IsRest-refl (c ∷ s), IsRest-cons c (behind_ws-IsRest s))

behind_bare_key-IsRest : (s : Bytes) → IsRest (behind_bare_key s) s
unfolding behind_bare_key
behind_bare_key-IsRest [] = IsRest-refl []
behind_bare_key-IsRest (c ∷ s) =
    grind (arith, IsRest-refl (c ∷ s), IsRest-cons c (behind_bare_key-IsRest s))

scan_body-Ends : (basic : Bool) (s : Bytes) → Ends s (scan_body basic false s)
scan_body-Ends true s = rw (scan_body-basic false s) (scan-Ends false s).0
scan_body-Ends false s = rw (scan_body-literal false s) (scan-Ends false s).1

quoted_key-Ends : (c : ℕ) (s : Bytes) → Ends s (quoted_key (c ∷ s))
unfolding quoted_key
quoted_key-Ends c s = rw (quoted_body-scan_body (c == b'"') s) (scan_body-Ends (c == b'"') s)

-- A key moves the cursor past its first byte.
abbrev Reads : ℕ → Bytes → Result Bytes → Type 0
Reads c s (ok key rest) = IsRest rest s
Reads c s (fail st why rest) = IsRest rest (c ∷ s)
Reads c s stuck = ⊥
Reads c s overrun = ⊥

Ends→Reads : (c : ℕ) (s : Bytes) (r : Result Bytes) → Ends s r → Reads c s r
Ends→Reads c s (ok key rest) h = h
Ends→Reads c s (fail st why rest) h = IsRest-cons c h
Ends→Reads c s stuck h = h
Ends→Reads c s overrun h = h

key_component-Reads : (c : ℕ) (s : Bytes) → Reads c s (key_component (c ∷ s))
unfolding key_component
key_component-Reads c s = grind (
  arith,
  Ends→Reads c s (quoted_key (c ∷ s)) (quoted_key-Ends c s),
  behind_bare_key-IsRest s,
  IsRest-refl (c ∷ s),
)

-- The parts fit under the limit, and there is one at least.
abbrev pub PathEnds : ℕ → Bytes → Result (List Bytes) → Type 0
PathEnds max_depth s (ok parts rest) =
    IsRest rest s × (1 ≤ length parts) × (length parts ≤ max_depth)
PathEnds max_depth s (fail st why rest) = IsRest rest s
PathEnds max_depth s stuck = ⊥
PathEnds max_depth s overrun = ⊥

PathEnds-trans :
    (max_depth : ℕ) {s t : Bytes} (r : Result (List Bytes))
    → IsRest s t
    → PathEnds max_depth s r
    → PathEnds max_depth t r
PathEnds-trans m (ok parts rest) h k = (IsRest-trans k.0 h, k.1, k.2)
PathEnds-trans m (fail _ _ rest) h k = IsRest-trans k h
PathEnds-trans m stuck h k = k
PathEnds-trans m overrun h k = k

abbrev PathRound : ℕ → Bytes → PathTurn → Type 0
PathRound m s (again v) = IsRest v.rest s × (length v.rest < length s)
PathRound m s (leave r) = PathEnds m s r

part_end-PathRound :
    (m c : ℕ) (s t : Bytes) (parts : List Bytes)
    → IsRest t s
    → 1 ≤ length parts
    → length parts ≤ m
    → PathRound m (c ∷ s) (part_end parts t)
unfolding part_end
part_end-PathRound m c s [] parts h lo hi = (IsRest-cons c h, lo, hi)
part_end-PathRound m c s (d ∷ t) parts h lo hi = grind (
  arith,
  IsRest-cons c h,
  IsRest-cons c (IsRest-trans (IsRest-cons d (IsRest-refl t)) h),
  IsRest-length h,
)

part_read-PathRound :
    (m c : ℕ) (s : Bytes) (parts : List Bytes) (r : Result Bytes)
    → Reads c s r
    → PathRound m (c ∷ s) (part_read m parts r)
unfolding part_read
part_read-PathRound m c s parts (fail _ _ rest) h = h
part_read-PathRound m c s parts stuck h = h
part_read-PathRound m c s parts overrun h = h
part_read-PathRound m c s parts (ok key rest) h = grind (
  arith,
  IsRest-cons c h,
  length-append parts (key ∷ []),
  part_end-PathRound m c s (behind_ws rest) (parts ++ key ∷ [])
      (IsRest-trans (behind_ws-IsRest rest) h),
)

PathRound-trans :
    (m : ℕ) (s t : Bytes) (x : PathTurn) → IsRest s t → PathRound m s x → PathRound m t x
PathRound-trans m s t (again v) h k = (IsRest-trans k.0 h, omega (arith, IsRest-length h))
PathRound-trans m s t (leave r) h k = PathEnds-trans m r h k

key-PathRound :
    (m : ℕ) (s : Bytes) (parts : List Bytes) → PathRound m s (part_read m parts (key_component s))
key-PathRound m [] parts = unfold part_read key_component in IsRest-refl []
key-PathRound m (c ∷ s) parts =
    part_read-PathRound m c s parts (key_component (c ∷ s)) (key_component-Reads c s)

path_turn-PathRound : (m : ℕ) (v : PathScan) → PathRound m v.rest (path_turn m v)
unfolding path_turn
path_turn-PathRound m v =
    PathRound-trans m (behind_ws v.rest) v.rest
      (part_read m v.parts (key_component (behind_ws v.rest))) (behind_ws-IsRest v.rest)
      (key-PathRound m (behind_ws v.rest) v.parts)

pub path_turn-Falls : (m : ℕ) → Falls stuck (path_turn m) (λ (v : PathScan). length v.rest)
path_turn-Falls m v w e =
    let h : PathRound m v.rest (again w) = rw e at (path_turn-PathRound m v) in h.1

-- `teptris_parse_key_path` ends on every input, with the cursor inside the buffer; where it
-- succeeds it has read at least one part, and no more parts than the nesting limit.
pub parse_key_path-PathEnds : (m : ℕ) (s : Bytes) → PathEnds m s (parse_key_path m s)
unfolding parse_key_path
parse_key_path-PathEnds m s =
    run_inv stuck (path_turn m) (λ (v : PathScan). length v.rest) (λ v r. PathEnds m v.rest r)
      (path_turn-Falls m) (λ v r e. rw e at (path_turn-PathRound m v))
      (λ v w r e h.
        PathEnds-trans m r
          (let k : PathRound m v.rest (again w) = rw e at (path_turn-PathRound m v) in k.0) h)
      (record { rest = s; parts = [] })
