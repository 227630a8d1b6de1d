-- ===== src/Parse/Containers/Scalars.antt =====
-- The routines of the cursor alone that the parser of values calls.
use teptris.Base.{ℕ, Bool, true, false, List, [], ◌∷◌, Bytes, length, ◌==◌, sym, subst, ◌&&◌, ◌≤◌}
use teptris.Parse.Cursor.{adv, next_is, skip_ws_nl, skip_array_gap}
use teptris.Parse.Cursor.Gaps.{
  Skips, Gap-IsRest, Body-IsRest, skip_ws_nl-Skips, skip_array_gap-skip_ws_nl,
}
use teptris.Parse.Keys.{parse_key_path}
use teptris.Parse.Keys.Progress.{PathEnds, parse_key_path-PathEnds}
use teptris.Parse.Numbers.Progress.{either}
use teptris.Parse.Result.{
  Result, ok, fail, stuck, overrun, IsRest, IsRest-refl, IsRest-trans, IsRest-drop, Read, reads,
  gives_up, Any, Read-if, Read-trans, Ends→Read,
}
use teptris.Parse.Strings.Progress.{scan-Ends}
use teptris.Parse.Strings.Values.{
  scan_body, parse_string, skip_first_newline, opens_basic, opens_multiline,
}
use teptris.Parse.Strings.Values.Fast.{scan_body-basic, scan_body-literal, quoted_body-scan_body}

gap_Read : (s : Bytes) (r : Result (Unit {0})) → Skips s r → Read s Any r
gap_Read s (ok _ rest) (h, e) = reads (Gap-IsRest h) tt
gap_Read s (fail st why rest) h = gives_up (
    IsRest-trans (IsRest-trans (Body-IsRest h.inside) (IsRest-drop 1 (h.mark ∷ h.body)))
      (Gap-IsRest h.gap))
gap_Read s stuck h = absurd h
gap_Read s overrun h = absurd h

pub skip_array_gap-Read : (s : Bytes) → Read s Any (skip_array_gap s)
skip_array_gap-Read s =
    subst (Read s Any) (sym (skip_array_gap-skip_ws_nl s))
      (gap_Read s (skip_ws_nl s) (skip_ws_nl-Skips s))

-- The parts of a path: one at least.
abbrev pub SomeParts : List Bytes → Bytes → Type 0
SomeParts parts rest = 1 ≤ length parts

path_Read : (m : ℕ) (s : Bytes) (r : Result (List Bytes)) → PathEnds m s r → Read s SomeParts r
path_Read m s (ok parts rest) (h, many, few) = reads h many
path_Read m s (fail st why rest) h = gives_up h
path_Read m s stuck h = absurd h
path_Read m s overrun h = absurd h

pub parse_key_path-Read : (m : ℕ) (s : Bytes) → Read s SomeParts (parse_key_path m s)
parse_key_path-Read m s = path_Read m s (parse_key_path m s) (parse_key_path-PathEnds m s)

scan_body-Read : (basic ml : Bool) (s : Bytes) → Read s Any (scan_body basic ml s)
scan_body-Read true ml s =
    let (b, l) = scan-Ends ml s in subst (Read s Any) (sym (scan_body-basic ml s)) (Ends→Read s _ b)
scan_body-Read false ml s =
    let (b, l) = scan-Ends ml s in
    subst (Read s Any) (sym (scan_body-literal ml s)) (Ends→Read s _ l)

skip_first_newline-IsRest : (s : Bytes) → IsRest (skip_first_newline s) s
skip_first_newline-IsRest [] = IsRest-refl []
skip_first_newline-IsRest (c ∷ s) =
    either (c == b'\r' && next_is b'\n' s) (IsRest-drop 2 (c ∷ s))
      (either (c == b'\n') (IsRest-drop 1 (c ∷ s)) (IsRest-refl (c ∷ s)))

pub parse_string-Read : (s : Bytes) → Read s Any (parse_string s)
unfolding parse_string
parse_string-Read s =
    Read-if (opens_multiline s)
      (Read-trans (IsRest-trans (skip_first_newline-IsRest (adv 3 s)) (IsRest-drop 3 s))
        (scan_body-Read (opens_basic s) true (skip_first_newline (adv 3 s))))
      (Read-trans (IsRest-drop 1 s) (
        subst (Read (adv 1 s) Any) (sym (quoted_body-scan_body (opens_basic s) (adv 1 s)))
          (scan_body-Read (opens_basic s) false (adv 1 s))))
