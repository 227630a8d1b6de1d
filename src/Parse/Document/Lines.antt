-- ===== src/Parse/Document/Lines.antt =====
-- The parser ends on every text, and the document that it leaves is well-formed.
use teptris.Base.{
  ℕ, ◌<◌, ◌≤◌, Bool, true, false, not, ◌&&◌, ◌||◌, List, [], ◌∷◌, Option, none, some, Bytes, length,
  length-drop, none_ne_some, ◌==◌, if◌then◌else◌, refl, sym, subst, arith,
}
use teptris.Dom.Document.{tbl_explicit, Node}
use teptris.Dom.Document.Links.{a_table, Has, IsLinked, Grows, Grows-refl, IsLinked-new_node}
use teptris.Parse.Containers.{value_within}
use teptris.Parse.Containers.Keeps.{fail_here, Kept-if}
use teptris.Parse.Containers.Loops.{keyval-Kept, value_within-Kept}
use teptris.Parse.Containers.Scalars.{parse_key_path-Read}
use teptris.Parse.Cursor.{adv, next_is, skip_ws, skip_comment, finish_line}
use teptris.Parse.Cursor.Progress.{skip_ws-Read, comment_body-Read, finish_line-Read}
use teptris.Parse.Document.{
  close_header, set_path, cursor, header_body, parse_header, header_done, header, parse_keyval,
  line_at, line_round, start, behind_mark, depth_of, parser_run,
}
use teptris.Parse.Floats.{Doubles, text_of}
use teptris.Parse.Keys.{parse_key_path}
use teptris.Parse.Numbers.Progress.{either}
use teptris.Parse.Paths.{new_table, resolve_header, root}
use teptris.Parse.Paths.Keeps.{Gives}
use teptris.Parse.Paths.Headers.{resolve_header-Kept}
use teptris.Parse.Result.{
  Result, ok, fail, stuck, overrun, overrun_least, IsRest, IsRest-refl, IsRest-trans, IsRest-drop,
  IsRest-length, err_encoding, invalid_utf8,
}
use teptris.Parse.Position.{Position}
use teptris.Parse.Steps.{State, Action, ◌>>=◌, ◌>>◌, return, lift, rounds}
use teptris.Parse.Steps.Keeps.{
  Kept, keeps, fails, overruns, Kept-Grows, Kept-map, Kept-bind, Kept-lift, Any, empty_table-NodeOk,
  GoesOn, GoesOn-le, rounds-Kept,
}
use teptris.Parse.Utf8.{validate_utf8}
use teptris.Parse.Document.Keeps.{Ready, Fast, try_header_fast-Kept}

adv_lt :
    (two : Bool) (b : ℕ) (s : Bytes) → length (adv (if two then 2 else 1) (b ∷ s)) < length (b ∷ s)
adv_lt true b s = omega (arith, length-drop 1 s)
adv_lt false b s = omega arith

module _ {D : Type 0} where
  close_header-Kept :
      (aot : Bool) (ps : State D) (s : Bytes)
      → IsLinked none ps.nodes
      → Kept none ps.nodes s Any (close_header aot ps s)
  close_header-Kept aot ps s tree =
      Kept-if (next_is b']' s && (not aot || next_is b']' (adv 1 s)))
        (keeps (IsRest-drop (if aot then 2 else 1) s) tree (Grows-refl ps.nodes) tt) fail_here

  -- What is left of header_body at each step.
  module _ (aot : Bool) (hstart : Bytes) where
    abbrev resolve_then : List Bytes → Bytes → Action D ℕ
    resolve_then parts hend =
        resolve_header aot parts >>= λ target. set_path (text_of hstart hend) >> return target

    abbrev close_then : List Bytes → Bytes → Action D ℕ
    close_then parts hend = close_header aot >> resolve_then parts hend

    abbrev parts_then : List Bytes → Action D ℕ
    parts_then parts = lift skip_ws >> (cursor >>= close_then parts)

  header_body-Kept :
      (max_depth : ℕ) (aot : Bool) (ps : State D) (s : Bytes)
      → IsLinked none ps.nodes
      → Has ps.nodes root a_table
      → Kept none ps.nodes s (Gives a_table) (header_body max_depth aot ps s)
  unfolding header_body
  header_body-Kept max_depth aot ps s tree has =
      Kept-bind (λ _. lift (parse_key_path max_depth) >>= parts_then aot s)
        (Kept-lift ps tree (skip_ws-Read s))
        (λ _ ps₁ s₁ c₁ t₁ g₁ q₁.
          Kept-bind (parts_then aot s) (Kept-lift ps₁ t₁ (parse_key_path-Read max_depth s₁))
            (λ parts ps₂ s₂ c₂ t₂ g₂ (e₂, many).
              Kept-bind (λ _. cursor >>= close_then aot s parts)
                (Kept-lift ps₂ t₂ (skip_ws-Read s₂))
                (λ _ ps₃ s₃ c₃ t₃ g₃ q₃.
                  Kept-bind (λ _. resolve_then aot s parts s₃) (close_header-Kept aot ps₃ s₃ t₃)
                    (λ _ ps₄ s₄ c₄ t₄ g₄ q₄.
                      let there = g₄.keeps root a_table (
                        g₃.keeps root a_table
                          (g₂.keeps root a_table (g₁.keeps root a_table has))) in
                      Kept-bind (λ target. set_path (text_of s s₃) >> return target)
                        (resolve_header-Kept aot parts ps₄ s₄ t₄ there many)
                        (λ target ps₅ s₅ c₅ t₅ g₅ given.
                          keeps (IsRest-refl s₅) t₅ (Grows-refl ps₅.nodes) given)))))

  -- A header line gives a table, and moves the cursor.
  abbrev Target : Bytes → ℕ → State D → Bytes → Type 0
  Target s id ps rest = Has ps.nodes id a_table × (length rest < length s)

  with_Target :
      {nodes : List (Node D)} {s : Bytes} {r : Result (ℕ × State D)} (t : Bytes)
      → length s < length t
      → Kept none nodes s (Gives a_table) r
      → Kept none nodes s (Target t) r
  with_Target t less (keeps cursor tree grows q) =
      keeps cursor tree grows (q, omega (arith, less, IsRest-length cursor))
  with_Target t less (fails cursor) = fails cursor
  with_Target t less (overruns long) = overruns long

  parse_header-Kept :
      (max_depth : ℕ) (ps : State D) (b : ℕ) (s : Bytes)
      → IsLinked none ps.nodes
      → Has ps.nodes root a_table
      → Kept none ps.nodes (b ∷ s) (Target (b ∷ s)) (parse_header max_depth ps (b ∷ s))
  unfolding parse_header
  parse_header-Kept max_depth ps b s tree has =
      let n = if next_is b'[' s then 2 else 1 in
      Kept-Grows (Grows-refl ps.nodes) (IsRest-drop n (b ∷ s)) (
        with_Target (b ∷ s) (adv_lt (next_is b'[' s) b s)
          (header_body-Kept max_depth (next_is b'[' s) ps (adv n (b ∷ s)) tree has))

  header_done-Kept :
      (max_depth : ℕ) (o : Option ℕ) (b : ℕ) (s : Bytes) (ps : State D) (rest : Bytes)
      → IsLinked none ps.nodes
      → Has ps.nodes root a_table
      → Fast (b ∷ s) o ps rest
      → Kept none ps.nodes rest (Target (b ∷ s)) (header_done max_depth o ps rest)
  header_done-Kept max_depth none b s ps rest tree has fast =
      subst (λ (t : Bytes). Kept none ps.nodes t (Target (b ∷ s)) (header_done max_depth none ps t))
        (sym fast) (parse_header-Kept max_depth ps b s tree has)
  header_done-Kept max_depth (some id) b s ps rest tree has fast =
      keeps (IsRest-refl rest) tree (Grows-refl ps.nodes) fast

  header-Kept :
      (max_depth : ℕ) (ps : State D) (b : ℕ) (s : Bytes)
      → IsLinked none ps.nodes
      → Has ps.nodes root a_table
      → Kept none ps.nodes (b ∷ s) (Target (b ∷ s)) (header max_depth ps (b ∷ s))
  unfolding header
  header-Kept max_depth ps b s tree has =
      Kept-bind (header_done max_depth) (try_header_fast-Kept ps (b ∷ s) tree has)
        (λ o ps' rest cursor tree' grows fast.
          header_done-Kept max_depth o b s ps' rest tree' (grows.keeps root a_table has) fast)

  still : (cur : ℕ) {ps ps' : State D} → Grows ps.nodes ps'.nodes → Ready cur ps → Ready cur ps'
  still cur grows ready = record {
    has_root = grows.keeps root a_table ready.has_root;
    has_cur = grows.keeps cur a_table ready.has_cur;
  }

module _ {D : Type 0} (c : Doubles D) (max_depth : ℕ) where
  -- The end of a line, behind which the loop goes on.
  finished-Kept :
      (cur : ℕ) (ps : State D) (s t : Bytes)
      → IsLinked none ps.nodes
      → Ready cur ps
      → length s < length t
      → Kept none ps.nodes s (GoesOn Ready t) ((lift finish_line >> return (some cur)) ps s)
  finished-Kept cur ps s t tree ready less =
      Kept-bind (λ _. return (some cur)) (Kept-lift ps tree (finish_line-Read s))
        (λ _ ps' rest cursor tree' grows (same, q).
          keeps (IsRest-refl rest) tree' (Grows-refl ps'.nodes)
            (omega (arith, less, IsRest-length cursor), still cur grows ready))

  comment_line :
      (cur : ℕ) (ps : State D) (b : ℕ) (s : Bytes)
      → IsLinked none ps.nodes
      → Ready cur ps
      → Kept none ps.nodes
          (b ∷ s)
          (GoesOn Ready (b ∷ s))
          ((lift skip_comment >> return (some cur)) ps (b ∷ s))
  unfolding skip_comment
  comment_line cur ps b s tree ready = Kept-Grows (Grows-refl ps.nodes) (IsRest-drop 1 (b ∷ s)) (
      Kept-bind (λ _. return (some cur)) (Kept-lift ps tree (comment_body-Read s))
        (λ _ ps' rest cursor tree' grows q.
          keeps (IsRest-refl rest) tree' (Grows-refl ps'.nodes)
            (omega (arith, IsRest-length cursor), still cur grows ready)))

  header_line :
      (ps : State D) (b : ℕ) (s : Bytes)
      → IsLinked none ps.nodes
      → Has ps.nodes root a_table
      → Kept none ps.nodes
          (b ∷ s)
          (GoesOn Ready (b ∷ s))
          ((header max_depth >>= λ target. lift finish_line >> return (some target)) ps (b ∷ s))
  header_line ps b s tree has =
      Kept-bind (λ target. lift finish_line >> return (some target))
        (header-Kept max_depth ps b s tree has)
        (λ target ps' rest cursor tree' grows (there, less).
          finished-Kept target ps' rest (b ∷ s) tree'
            (record { has_root = grows.keeps root a_table has; has_cur = there }) less)

  keyval_line :
      (cur : ℕ) (ps : State D) (b : ℕ) (s : Bytes)
      → IsLinked none ps.nodes
      → Ready cur ps
      → Kept none ps.nodes
          (b ∷ s)
          (GoesOn Ready (b ∷ s))
          ((parse_keyval c max_depth cur >> (lift finish_line >> return (some cur))) ps (b ∷ s))
  unfolding parse_keyval
  keyval_line cur ps b s tree ready =
      Kept-bind (λ _. lift finish_line >> return (some cur))
        (keyval-Kept c max_depth (value_within c max_depth max_depth)
          (value_within-Kept c max_depth max_depth) cur ps (b ∷ s) tree ready.has_cur)
        (λ _ ps' rest cursor tree' grows less.
          finished-Kept cur ps' rest (b ∷ s) tree' (still cur grows ready) less)

  line_at-Kept :
      (cur : ℕ) (ps : State D) (s : Bytes)
      → IsLinked none ps.nodes
      → Ready cur ps
      → Kept none ps.nodes s (GoesOn Ready s) (line_at c max_depth cur ps s)
  line_at-Kept cur ps [] tree ready = keeps (IsRest-refl []) tree (Grows-refl ps.nodes) tt
  line_at-Kept cur ps (b ∷ s) tree ready =
      Kept-if (b == b'\n')
        (keeps (IsRest-drop 1 (b ∷ s)) tree (Grows-refl ps.nodes) (omega arith, ready))
        (Kept-if (b == b'\r')
          (Kept-if (next_is b'\n' s)
            (keeps (IsRest-drop 2 (b ∷ s)) tree (Grows-refl ps.nodes) (adv_lt true b s, ready))
            fail_here)
          (Kept-if (b == b'#') (comment_line cur ps b s tree ready) (
            Kept-if (b == b'[') (header_line ps b s tree ready.has_root)
              (keyval_line cur ps b s tree ready))))

  line_round-Kept :
      (cur : ℕ) (ps : State D) (s : Bytes)
      → IsLinked none ps.nodes
      → Ready cur ps
      → Kept none ps.nodes s (GoesOn Ready s) (line_round c max_depth cur ps s)
  unfolding line_round
  line_round-Kept cur ps s tree ready =
      Kept-bind (λ _. line_at c max_depth cur) (Kept-lift ps tree (skip_ws-Read s))
        (λ _ ps' t cursor tree' grows q.
          Kept-map (λ o ps'' rest g. GoesOn-le Ready t s o ps'' rest (IsRest-length cursor) g)
            (line_at-Kept cur ps' t tree' (still cur grows ready)))

start-IsLinked : {D : Type 0} → IsLinked none (start {D = D}).nodes
start-IsLinked {D} =
    IsLinked-new_node none [] (new_table {D = D} tbl_explicit) (λ id n at. absurd (none_ne_some at))
      (empty_table-NodeOk none (start {D = D}).nodes 0 tbl_explicit)

-- A parse has ended: with the invariant of the document, or with a failure inside the text; or the
-- text is long enough to overrun `fbuf`.
abbrev pub Ended : {D : Type 0} → Bytes → Result (Unit {0} × State D) → Type 0
Ended s (ok (u, ps) rest) = IsRest rest s × IsLinked none ps.nodes × Has ps.nodes root a_table
Ended s (fail st why rest) = IsRest rest s
Ended s stuck = ⊥
Ended s overrun = overrun_least ≤ length s

behind_mark-IsRest : (s : Bytes) → IsRest (behind_mark s) s
behind_mark-IsRest [] = IsRest-refl []
behind_mark-IsRest (a ∷ []) = IsRest-refl (a ∷ [])
behind_mark-IsRest (a ∷ b ∷ []) = IsRest-refl (a ∷ b ∷ [])
behind_mark-IsRest (a ∷ b ∷ d ∷ s) =
    either (a == 0xEF && b == 0xBB && d == 0xBF) (IsRest-drop 3 (a ∷ b ∷ d ∷ s))
      (IsRest-refl (a ∷ b ∷ d ∷ s))

ended :
    {D : Type 0} (s t : Bytes) (r : Result (Unit {0} × State D))
    → IsRest t s
    → Kept none (start {D = D}).nodes t Any r
    → Ended s r
ended s t _ inside (keeps cursor linked grows q) = (
  IsRest-trans cursor inside,
  linked,
  grows.keeps root a_table (new_table tbl_explicit, refl, refl),
)
ended s t _ inside (fails cursor) = IsRest-trans cursor inside
ended s t _ inside (overruns long) = omega (arith, long, IsRest-length inside)

behind_validation :
    {D : Type 0} (c : Doubles D) (max_depth : ℕ) (s : Bytes) (o : Option Position)
    → Ended s (elim o [
      | some at ↦ fail err_encoding invalid_utf8 s
      | none ↦ rounds (line_round c (depth_of max_depth)) root start (behind_mark s)
    ])
behind_validation c max_depth s (some at) = IsRest-refl s
behind_validation {D} c max_depth s none =
    let ready : Ready root (start {D = D}) = record {
      has_root = (new_table tbl_explicit, refl, refl);
      has_cur = (new_table tbl_explicit, refl, refl);
    } in
    ended s (behind_mark s) _ (behind_mark-IsRest s) (
      rounds-Kept (line_round c (depth_of max_depth)) Ready (line_round-Kept c (depth_of max_depth))
        root (start {D = D}) (behind_mark s) start-IsLinked ready)

-- The parser runs for ever on no text. On every text of less than 1031 bytes, and on every longer one
-- in which no float is written past the end of `fbuf`, it ends with the cursor inside the text, and
-- where it succeeds, its document has a table at the root, each of its tables has a hash index that
-- fits its entries and no key twice, each entry and item is a node of the document, and the elements
-- of an array of tables are tables, of which there is one at least.
pub parser_run-Ended :
    {D : Type 0} (c : Doubles D) (max_depth : ℕ) (s : Bytes) → Ended s (parser_run c max_depth s)
unfolding parser_run
parser_run-Ended c max_depth s = behind_validation c max_depth s (validate_utf8 s)
