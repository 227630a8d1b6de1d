-- ===== src/Parse/Strings/Progress.antt =====
-- The string scanners end, with the cursor inside the buffer.
use teptris.Base.{
  ℕ, zero, suc, ◌+◌, ◌*◌, ◌<◌, Bool, true, false, [], ◌∷◌, ◌≡◌, ◌≢◌, refl, sym, ◌∙◌, run, arith,
  Bytes, length, Bool-cases, inl, inr, ◌==◌, again, leave, Falls, run_inv,
}
use teptris.Common.Chartype.{is_hex}
use teptris.Parse.Result.{
  Result, ok, fail, stuck, overrun, IsRest, IsRest-refl, IsRest-cons, IsRest-length, IsRest-drop,
  Ends, Ends-trans,
}
use teptris.Parse.Strings.{
  Scan, Next, read_hex, hexval, quote_run, close_multiline, skip_lines, line_ending, code_point,
  escape_byte, escape, plain_byte, basic_at, literal_at, basic_turn, literal_turn, left, start,
  scan_basic, scan_literal,
}

-- A round leaves the cursor in `s`, or ends the scan there.
abbrev Within : Bytes → Next → Type 0
Within s (again v) = IsRest v.rest s
Within s (leave r) = Ends s r

Within-cons : (c : ℕ) (s : Bytes) (x : Next) → Within s x → Within (c ∷ s) x
Within-cons c s (again v) h = IsRest-cons c h
Within-cons c s (leave r) h = Ends-trans r (IsRest-cons c (IsRest-refl s)) h

-- A round at the byte `c` moves the cursor past it, or ends the scan.
abbrev Moves : ℕ → Bytes → Next → Type 0
Moves c s (again v) = IsRest v.rest s
Moves c s (leave r) = Ends (c ∷ s) r

Within→Moves : (c : ℕ) (s : Bytes) (x : Next) → Within s x → Moves c s x
Within→Moves c s (again v) h = h
Within→Moves c s (leave r) h = Ends-trans r (IsRest-cons c (IsRest-refl s)) h

read_hex-Ends : (n v : ℕ) (s : Bytes) → Ends s (read_hex n v s)
unfolding read_hex
read_hex-Ends zero v s = IsRest-refl s
read_hex-Ends (suc n) v [] = IsRest-refl []
read_hex-Ends (suc n) v (c ∷ s) = elim (Bool-cases (is_hex c)) [
  | inl e ↦ rw e (
      Ends-trans (read_hex n (v * 16 + hexval c) s) (IsRest-cons c (IsRest-refl s))
        (read_hex-Ends n (v * 16 + hexval c) s))
  | inr e ↦ rw e (IsRest-refl (c ∷ s))
]

skip_lines-IsRest : (s : Bytes) → IsRest (skip_lines s) s
unfolding skip_lines
skip_lines-IsRest [] = IsRest-refl []
skip_lines-IsRest (c ∷ []) = grind (arith, IsRest-refl (c ∷ []), IsRest-cons c (IsRest-refl []))
skip_lines-IsRest (c ∷ d ∷ s) = grind (
  arith,
  IsRest-refl (c ∷ d ∷ s),
  IsRest-cons c (skip_lines-IsRest (d ∷ s)),
  IsRest-cons c (IsRest-cons d (skip_lines-IsRest s)),
)

line_ending-Within : (s out : Bytes) → Within s (line_ending s out)
unfolding line_ending
line_ending-Within s out = grind (arith, IsRest-refl s, skip_lines-IsRest s)

code_point-Within :
    (b : Bool) (s out : Bytes) (r : Result ℕ) → Ends s r → Within s (code_point b out r)
unfolding code_point
code_point-Within b s out (ok cp t) h = grind arith
code_point-Within b s out (fail st why t) h = h
code_point-Within b s out stuck h = h
code_point-Within b s out overrun h = h

close_multiline-Moves :
    (q c : ℕ) (s out : Bytes) → (c == q) ≡ true → Moves c s (close_multiline q (c ∷ s) out)
unfolding close_multiline
close_multiline-Moves q c s out e = rw e (
    grind (
      arith,
      IsRest-refl (c ∷ s),
      IsRest-drop (quote_run q s) s,
      IsRest-cons c (IsRest-drop (quote_run q s) s),
    ))

-- The escapes `\xNN`, `\uNNNN` and `\UNNNNNNNN`.
hex_escape-Within :
    (e : ℕ) (s out : Bytes) (b : Bool) (n : ℕ) → Within (e ∷ s) (code_point b out (read_hex n 0 s))
hex_escape-Within e s out b n =
    Within-cons e s (code_point b out (read_hex n 0 s))
      (code_point-Within b s out (read_hex n 0 s) (read_hex-Ends n 0 s))

escape_byte-Within : (e : ℕ) (s out : Bytes) → Within (e ∷ s) (escape_byte e s out)
unfolding escape_byte
escape_byte-Within e s out = grind (
  arith,
  IsRest-refl (e ∷ s),
  IsRest-cons e (IsRest-refl s),
  hex_escape-Within e s out true 4,
  hex_escape-Within e s out true 8,
  hex_escape-Within e s out false 2,
)

escape-Within : (ml : Bool) (s out : Bytes) → Within s (escape ml s out)
unfolding escape
escape-Within ml [] out = IsRest-refl []
escape-Within ml (e ∷ s) out =
    grind (arith, line_ending-Within (e ∷ s) out, escape_byte-Within e s out)

plain_byte-Moves : (ml : Bool) (c : ℕ) (s out : Bytes) → Moves c s (plain_byte ml c s out)
unfolding plain_byte
plain_byte-Moves ml c s out = grind (arith, IsRest-refl (c ∷ s), IsRest-refl s, IsRest-drop 1 s)

basic_at-Moves : (ml : Bool) (c : ℕ) (s out : Bytes) → Moves c s (basic_at ml (c ∷ s) out)
unfolding basic_at
basic_at-Moves ml c s out = grind (
  arith,
  IsRest-cons c (IsRest-refl s),
  close_multiline-Moves b'"' c s out,
  Within→Moves c s (escape ml s out) (escape-Within ml s out),
  plain_byte-Moves ml c s out,
)

literal_at-Moves : (ml : Bool) (c : ℕ) (s out : Bytes) → Moves c s (literal_at ml (c ∷ s) out)
unfolding literal_at
literal_at-Moves ml c s out = grind (
  arith,
  IsRest-cons c (IsRest-refl s),
  close_multiline-Moves b'\'' c s out,
  plain_byte-Moves ml c s out,
)

-- What both scans need of a round.
module _ (at : Bytes → Bytes → Next) (body : Scan → Next) where
  record IsRound : Type 0 where
    body_at : (v : Scan) → body v ≡ at v.rest v.out
    ends : (out : Bytes) → Within [] (at [] out)
    stops : (out : Bytes) (v : Scan) → at [] out ≢ again v
    moves : (c : ℕ) (s out : Bytes) → Moves c s (at (c ∷ s) out)

  module _ (round : IsRound) where
    at-Falls : (s out : Bytes) (w : Scan) → at s out ≡ again w → length w.rest < length s
    at-Falls [] out w e = absurd (round.stops out w e)
    at-Falls (c ∷ s) out w e =
        let h : Moves c s (again w) = rw e at (round.moves c s out) in
        omega (arith, IsRest-length h)

    round-Falls : Falls stuck body left
    round-Falls v w e = at-Falls v.rest v.out w (sym (round.body_at v) ∙ e)

    at-Within : (s out : Bytes) → Within s (at s out)
    at-Within [] out = round.ends out
    at-Within (c ∷ s) out = widen (at (c ∷ s) out) (round.moves c s out)
      where
        widen : (x : Next) → Moves c s x → Within (c ∷ s) x
        widen (again v) h = IsRest-cons c h
        widen (leave r) h = h

    round-Ends : (v : Scan) → Ends v.rest (run stuck body left v)
    round-Ends =
        run_inv stuck body left (λ v r. Ends v.rest r) round-Falls
          (λ v r e. rw (sym (round.body_at v) ∙ e) at (at-Within v.rest v.out))
          (λ v w r e h. Ends-trans r (rw (sym (round.body_at v) ∙ e) at (at-Within v.rest v.out)) h)

basic_round : (ml : Bool) → IsRound (basic_at ml) (basic_turn ml)
unfolding basic_turn basic_at
basic_round ml = record {
  body_at = λ v. refl;
  ends = λ out. IsRest-refl [];
  stops = λ out v e. cc;
  moves = basic_at-Moves ml;
}

literal_round : (ml : Bool) → IsRound (literal_at ml) (literal_turn ml)
unfolding literal_turn literal_at
literal_round ml = record {
  body_at = λ v. refl;
  ends = λ out. IsRest-refl [];
  stops = λ out v e. cc;
  moves = literal_at-Moves ml;
}

pub basic-Falls : (ml : Bool) → Falls stuck (basic_turn ml) left
basic-Falls ml = round-Falls (basic_at ml) (basic_turn ml) (basic_round ml)

pub literal-Falls : (ml : Bool) → Falls stuck (literal_turn ml) left
literal-Falls ml = round-Falls (literal_at ml) (literal_turn ml) (literal_round ml)

-- Both string scanners end on every input, single-line and multi-line: on success and on failure
-- alike the cursor is inside the buffer.
pub scan-Ends : (ml : Bool) (s : Bytes) → Ends s (scan_basic ml s) × Ends s (scan_literal ml s)
scan-Ends ml s = (
  unfold scan_basic in round-Ends (basic_at ml) (basic_turn ml) (basic_round ml) (start s),
  unfold scan_literal in round-Ends (literal_at ml) (literal_turn ml) (literal_round ml) (start s),
)
