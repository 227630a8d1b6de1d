-- ===== src/Parse/Position.antt =====
-- The position that `tep_fail_at` and `validate_utf8` of src/teptris/parse/parser.c report.
use teptris.Base.{
  ℕ, zero, suc, ◌+◌, ◌-◌, [], ◌∷◌, ◌++◌, ◌≡◌, refl, sym, ◌∙◌, ap, Bytes, length, length-append,
  take, ◌==◌, Bool-cases, inl, inr, if◌then◌else◌, arith,
}
use teptris.Parse.Result.{IsRest}

-- The fields of `teptris_error` that say where.
pub record Position : Type 0 where
  pub line : ℕ
  pub column : ℕ
  pub start_offset : ℕ
  pub end_offset : ℕ

-- The loop's variables: `line`, and `bol` and `q` as offsets from the start of the input.
record Scan : Type 0 where
  line : ℕ
  bol : ℕ
  q : ℕ

scan_lines : Bytes → Scan → Scan
scan_lines [] v = v
scan_lines (c ∷ s) v = scan_lines s (
    if c == b'\n'
    then record { line = v.line + 1; bol = v.q + 1; q = v.q + 1 }
    else record v { q = v.q + 1 })

-- The position of the offset `pos` of `src`.
unfoldable pub position : Bytes → ℕ → Position
unfolding scan_lines
position src pos =
    let v = scan_lines (take pos src) (record { line = 1; bol = 0; q = 0 }) in
    record { line = v.line; column = pos - v.bol + 1; start_offset = pos; end_offset = pos }

-- `tep_fail_at` at the cursor that leaves `rest` of `src`.
unfoldable pub fail_position : Bytes → Bytes → Position
fail_position src rest = position src (length src - length rest)

abbrev pub newlines : Bytes → ℕ
newlines [] = 0
newlines (c ∷ s) = (if c == b'\n' then 1 else 0) + newlines s

-- The bytes behind the last newline, counted from `k` of them before.
abbrev pub tail_length : ℕ → Bytes → ℕ
tail_length k [] = k
tail_length k (c ∷ s) = tail_length (if c == b'\n' then 0 else k + 1) s

-- The offset at which the line behind `n` newlines begins.
abbrev line_start : Bytes → ℕ → ℕ
line_start s zero = 0
line_start [] (suc n) = 0
line_start (c ∷ s) (suc n) = 1 + line_start s (if c == b'\n' then n else suc n)

scan_lines_lem :
    (s : Bytes) (v : Scan) (k : ℕ)
    → v.bol + k ≡ v.q
    → ((scan_lines s v).line ≡ v.line + newlines s)
      × ((scan_lines s v).bol + tail_length k s ≡ v.q + length s)
unfolding scan_lines
scan_lines_lem [] v k h = omega arith
scan_lines_lem (c ∷ s) v k h = ground (
  arith,
  scan_lines_lem s
      (if c == b'\n'
        then record { line = v.line + 1; bol = v.q + 1; q = v.q + 1 }
        else record v { q = v.q + 1 })
      (if c == b'\n' then 0 else k + 1),
)

take-prefix : (a b : Bytes) → take (length a) (a ++ b) ≡ a
take-prefix [] b = refl
take-prefix (x ∷ a) b = ap (◌∷◌ x) (take-prefix a b)

-- The line is one more than the newlines read, and the column one more than the bytes read since
-- the last of them.
position_lem :
    (before rest : Bytes)
    → ((position (before ++ rest) (length before)).line ≡ 1 + newlines before)
      × ((position (before ++ rest) (length before)).column ≡ 1 + tail_length 0 before)
unfolding position
position_lem before rest =
    rw (take-prefix before rest)
      (omega (arith, scan_lines_lem before (record { line = 1; bol = 0; q = 0 }) 0 refl))

line_start-cons :
    (c : ℕ) (s : Bytes) (n : ℕ)
    → line_start (c ∷ s) n
      ≡ (if n == 0 then 0 else 1 + line_start s (if c == b'\n' then n - 1 else n))
line_start-cons c s zero = refl
line_start-cons c s (suc n) = ground arith

line_start_zero : (s : Bytes) → line_start s 0 ≡ 0
line_start_zero s = refl

tail-line_start :
    (a b : Bytes) (k : ℕ)
    → tail_length k a + line_start (a ++ b) (newlines a)
      ≡ length a + (if newlines a == 0 then k else 0)
tail-line_start [] b k = omega arith
tail-line_start (c ∷ a) b k = elim (Bool-cases (c == b'\n')) [
  | inl e ↦
      rw e (ground (arith, line_start-cons c (a ++ b) (1 + newlines a), tail-line_start a b 0, e))
  | inr e ↦ rw e (
      ground (
        arith,
        line_start-cons c (a ++ b) (0 + newlines a),
        tail-line_start a b (k + 1),
        line_start_zero (a ++ b),
        e,
      ))
]

position-line_start :
    (before rest : Bytes)
    → line_start (before ++ rest) ((position (before ++ rest) (length before)).line - 1)
        + (position (before ++ rest) (length before)).column
      ≡ length before + 1
position-line_start before rest =
    let (line, column) = position_lem before rest in
    let n : (position (before ++ rest) (length before)).line - 1 ≡ newlines before =
      omega (arith, line) in
    rw (n, column) (ground (arith, tail-line_start before rest 0))

offset_injective :
    (a b a' b' : Bytes)
    → a ++ b ≡ a' ++ b'
    → (position (a ++ b) (length a)).line ≡ (position (a' ++ b') (length a')).line
    → (position (a ++ b) (length a)).column ≡ (position (a' ++ b') (length a')).column
    → length a ≡ length a'
offset_injective a b a' b' same line column =
    let l = (position (a ++ b) (length a)).line in
    let e = ap (λ s. line_start s (l - 1)) same ∙ ap (λ n. line_start (a' ++ b') (n - 1)) line in
    omega (arith, e, column, position-line_start a b, position-line_start a' b')

fail_position_lem :
    (src rest : Bytes) (h : IsRest rest src)
    → fail_position src rest ≡ position (h.read ++ rest) (length h.read)
unfolding fail_position
fail_position_lem src rest h =
    let e : length src - length rest ≡ length h.read =
      omega (arith, ap (λ (t : Bytes). length t) h.splits, length-append h.read rest) in
    rw (e, h.splits)

-- A failure with the cursor inside the input is reported at one more than the newlines read, and
-- at one more than the bytes read since the last of them.
pub fail_position-line_column :
    (src rest : Bytes) (h : IsRest rest src)
    → ((fail_position src rest).line ≡ 1 + newlines h.read)
      × ((fail_position src rest).column ≡ 1 + tail_length 0 h.read)
fail_position-line_column src rest h = rw (fail_position_lem src rest h) (position_lem h.read rest)

-- The line and the column determine the byte: two failures in one input that report the same line
-- and column have the same cursor offset.
pub fail_position-injective :
    (src r r' : Bytes)
    → IsRest r src
    → IsRest r' src
    → (fail_position src r).line ≡ (fail_position src r').line
    → (fail_position src r).column ≡ (fail_position src r').column
    → length r ≡ length r'
fail_position-injective src r r' h h' line column =
    let p = fail_position_lem src r h in
    let p' = fail_position_lem src r' h' in
    let e =
      offset_injective h.read r h'.read r' (h.splits ∙ sym h'.splits)
        (ap (λ (x : Position). x.line) (sym p) ∙ line ∙ ap (λ (x : Position). x.line) p')
        (ap (λ (x : Position). x.column) (sym p) ∙ column ∙ ap (λ (x : Position). x.column) p') in
    omega (
      arith,
      e,
      ap (λ (t : Bytes). length t) h.splits,
      ap (λ (t : Bytes). length t) h'.splits,
      length-append h.read r,
      length-append h'.read r',
    )
