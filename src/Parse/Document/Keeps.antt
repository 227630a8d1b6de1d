-- ===== src/Parse/Document/Keeps.antt =====
-- The main loop ends on every text, and the document that it leaves is well-formed.
use teptris.Base.{
  ℕ, zero, suc, ◌≤◌, ◌<◌, Bool, true, false, not, ◌&&◌, List, ◌∷◌, Option, none, some, Bytes,
  length, ◌==◌, if◌then◌else◌, ◌≡◌, inl, inr, refl, arith, Bool-cases,
}
use teptris.Dom.Document.{Node}
use teptris.Dom.Document.Links.{a_table, Has, IsLinked, Grows-refl}
use teptris.Parse.Containers.Keeps.{next_is-lt}
use teptris.Parse.Cursor.{adv, next_is}
use teptris.Parse.Document.{
  segments, Header, header_end, header_shape, back_to, try_header_fast, cursor,
}
use teptris.Parse.Keys.{bare_key, behind_bare_key}
use teptris.Parse.Containers.Keeps.{behind_bare_key-IsRest}
use teptris.Parse.Paths.{resolve_fast, root}
use teptris.Parse.Paths.Headers.{MayGive, resolve_fast-Kept}
use teptris.Parse.Result.{Result, ok, IsRest, IsRest-refl, IsRest-trans, IsRest-drop, IsRest-length}
use teptris.Parse.Steps.{State}
use teptris.Parse.Steps.Keeps.{Kept, keeps, fails, overruns}

-- The segments that the fast path sees.
data Cut (s : Bytes) : Option (List Bytes × Bytes) → Type 0 where
  uncut : Cut s none
  cut :
      {parts : List Bytes} {rest : Bytes}
      → 1 ≤ length parts
      → IsRest rest s
      → Cut s (some (parts, rest))

Cut-if :
    {s : Bytes} {x y : Option (List Bytes × Bytes)} (b : Bool)
    → Cut s x
    → Cut s y
    → Cut s (if b then x else y)
Cut-if true h k = h
Cut-if false h k = k

longer :
    {s t : Bytes} {o : Option (List Bytes × Bytes)} (key : Bytes)
    → IsRest t s
    → Cut t o
    → Cut s (elim o [ none ↦ none | some (parts, end) ↦ some (key ∷ parts, end) ])
longer key inside uncut = uncut
longer key inside (cut {parts} many within) = cut (omega arith) (IsRest-trans within inside)

segments-Cut : (n : ℕ) (s : Bytes) → Cut s (segments n s)
unfolding segments
segments-Cut zero s = uncut
segments-Cut (suc n) s =
    let rest = behind_bare_key s in
    Cut-if (length (bare_key s) == 0) uncut (
      Cut-if (next_is b'.' rest)
        (longer (bare_key s) (IsRest-trans (IsRest-drop 1 rest) (behind_bare_key-IsRest s))
          (segments-Cut n (adv 1 rest)))
        (cut (omega arith) (behind_bare_key-IsRest s)))

-- A header of the fast path, with the cursor behind it.
data Headed (s : Bytes) : Option Header → Type 0 where
  unheaded : Headed s none
  headed :
      {h : Header}
      → 1 ≤ length h.parts
      → IsRest h.rest s
      → length h.rest < length s
      → Headed s (some h)

Headed-if :
    {s : Bytes} {x y : Option Header} (b : Bool)
    → Headed s x
    → Headed s y
    → Headed s (if b then x else y)
Headed-if true h k = h
Headed-if false h k = k

header_end-Headed :
    {s t : Bytes} {o : Option (List Bytes × Bytes)}
    → IsRest t s
    → Cut t o
    → Headed s (header_end t o)
header_end-Headed inside uncut = unheaded
header_end-Headed {s = s} {t = t} inside (cut {parts} {rest} many within) =
    elim (Bool-cases (next_is b']' rest)) [
      | inl e ↦ rw e (
          headed many (IsRest-trans (IsRest-drop 1 rest) (IsRest-trans within inside))
            (omega (arith, next_is-lt b']' rest e, IsRest-length within, IsRest-length inside)))
      | inr e ↦ rw e unheaded
    ]

header_shape-Headed : (s : Bytes) → Headed s (header_shape s)
unfolding header_shape
header_shape-Headed s =
    Headed-if (next_is b'[' s && not (next_is b'[' (adv 1 s)))
      (header_end-Headed (IsRest-drop 1 s) (segments-Cut 8 (adv 1 s))) unheaded

module _ {D : Type 0} where
  -- The root is there, and so is the table of the last header.
  pub record Ready (cur : ℕ) (ps : State D) : Type 0 where
    pub has_root : Has ps.nodes root a_table
    pub has_cur : Has ps.nodes cur a_table

  -- The fast path gives a table and moves the cursor, or gives up at the header.
  abbrev pub Fast : Bytes → Option ℕ → State D → Bytes → Type 0
  Fast s none ps rest = rest ≡ s
  Fast s (some id) ps rest = Has ps.nodes id a_table × (length rest < length s)

  back_to-Kept :
      {nodes : List (Node D)} {s t : Bytes} {r : Result (Option ℕ × State D)}
      → IsRest t s
      → length t < length s
      → Kept none nodes t MayGive r
      → Kept none nodes s (Fast s) (back_to s r)
  back_to-Kept {s = s} inside less (keeps {a = none} cursor tree grows q) =
      keeps (IsRest-refl s) tree grows refl
  back_to-Kept inside less (keeps {a = some id} cursor tree grows q) =
      keeps (IsRest-trans cursor inside) tree grows (q, omega (arith, less, IsRest-length cursor))
  back_to-Kept inside less (fails cursor) = fails (IsRest-trans cursor inside)
  back_to-Kept inside less (overruns long) = overruns (omega (arith, long, IsRest-length inside))

  shaped :
      (ps : State D) (s : Bytes) (o : Option Header)
      → IsLinked none ps.nodes
      → Has ps.nodes root a_table
      → Headed s o
      → Kept none ps.nodes s (Fast s) (elim o [
        | none ↦ ok (none, ps) s
        | some h ↦ back_to s (resolve_fast h.parts (record ps { cur_path = h.path }) h.rest)
      ])
  shaped ps s _ tree has unheaded = keeps (IsRest-refl s) tree (Grows-refl ps.nodes) refl
  shaped ps s _ tree has (headed {h} many inside less) =
      back_to-Kept inside less
        (resolve_fast-Kept h.parts (record ps { cur_path = h.path }) h.rest tree has many)

  pub try_header_fast-Kept :
      (ps : State D) (s : Bytes)
      → IsLinked none ps.nodes
      → Has ps.nodes root a_table
      → Kept none ps.nodes s (Fast s) (try_header_fast ps s)
  unfolding try_header_fast
  try_header_fast-Kept ps s tree has = shaped ps s (header_shape s) tree has (header_shape-Headed s)
