-- ===== src/Parse/Containers/Fast.antt =====
-- teptris_parse_value_fast reads what teptris_parse_value reads.
use teptris.Base.{
  ℕ, zero, suc, ◌≤◌, Bool, true, false, not, ◌||◌, [], ◌∷◌, Bytes, length, leb, ◌==◌, if◌then◌else◌,
  ◌≡◌, inl, inr, refl, sym, ap, ◌∙◌, arith, Bool-cases, pos,
}
use teptris.Common.Chartype.{is_dec, is_dec-eq}
use teptris.Parse.Containers.{
  is_plain_integer, number_leaf, datetime_leaf, plain_integer, plain_leaf, value_at, value_fast,
  value_within, parse_array, parse_inline, too_deep,
}
use teptris.Parse.Cursor.{next_is}
use teptris.Parse.Datetime.{datetime_lookahead}
use teptris.Parse.Floats.{Doubles, Numeric, whole, number_value}
use teptris.Parse.Floats
use teptris.Parse.Numbers.{
  Number, integer, dec_run, behind_dec_run, wrapping, begins_float, has_leading_zero, has_radix,
  plain_end, decimal, unsigned_number, parse_number,
}
use teptris.Parse.Result.{Result, ok, fail, stuck, overrun}
use teptris.Parse.Steps.{State, Action, make}
use teptris.Parse.Steps.Keeps.{bound, lifted}
use teptris.Dom.Document.{leaf, number, array, table, tbl_inline}
use teptris.Dom.Table.{empty}

lead : (b : ℕ) (ds : Bytes) → (b == b'0') ≡ false → has_leading_zero (b ∷ ds) ≡ false
lead b [] h = refl
lead b (d ∷ ds) h = h

is_dec-range : (b : ℕ) → is_dec b ≡ true → (48 ≤ b) × (b ≤ 57)
is_dec-range b h = let same = is_dec-eq b in (ground arith, ground arith)

no_radix : (b : ℕ) (s : Bytes) → (b == b'0') ≡ false → has_radix (b ∷ s) ≡ false
no_radix b [] h = refl
no_radix b (r ∷ s) h = ground arith

module _ (b : ℕ) (s : Bytes) (is_digit : is_dec b ≡ true)
    (plain : is_plain_integer (b ∷ s) ≡ true) where
  decimal_plain :
      decimal false (b ∷ s)
      ≡ ok (integer (pos (wrapping 0 (dec_run (b ∷ s))))) (behind_dec_run (b ∷ s))
  unfolding is_plain_integer decimal plain_end dec_run
  decimal_plain =
      let few : leb (length (dec_run (b ∷ s))) 18 ≡ true = ground arith in
      let no_zero : (b == b'0') ≡ false = ground arith in
      let no_bar : next_is b'_' (behind_dec_run (b ∷ s)) ≡ false = ground arith in
      let no_float : begins_float (behind_dec_run (b ∷ s)) ≡ false = ground arith in
      let lead_digit = lead b (dec_run s) no_zero in ground (arith, lead_digit)

  no_zero : (b == b'0') ≡ false
  unfolding is_plain_integer
  no_zero = ground arith

  to_decimal : parse_number false (b ∷ s) ≡ decimal false (b ∷ s)
  unfolding parse_number unsigned_number
  to_decimal =
      let (low, high) = is_dec-range b is_digit in
      let no_i : (b == b'i') ≡ false = ground arith in
      let no_n : (b == b'n') ≡ false = ground arith in
      let no_prefix = no_radix b s no_zero in
      rw (no_i, no_n, is_digit, no_prefix, parse_number, unsigned_number) refl

  parse_plain :
      parse_number false (b ∷ s)
      ≡ ok (integer (pos (wrapping 0 (dec_run (b ∷ s))))) (behind_dec_run (b ∷ s))
  parse_plain = to_decimal ∙ decimal_plain

  number_plain :
      {D : Type 0} (c : Doubles D) (m : ℕ)
      → Floats.number c false (b ∷ s) ≡ plain_integer c m (b ∷ s)
  unfolding plain_integer Floats.number
  number_plain c m =
      ap
        (λ (r : Result Number). elim r [
          | ok n rest ↦ number_value c false false n rest
          | fail st why rest ↦ fail st why rest
          | stuck ↦ stuck
          | overrun ↦ overrun
        ])
        parse_plain

module _ {D : Type 0} (c : Doubles D) (max_depth : ℕ) where
  leaf_plain :
      (b : ℕ) (ps : State D) (s : Bytes)
      → is_dec b ≡ true
      → is_plain_integer (b ∷ s) ≡ true
      → plain_leaf c max_depth ps (b ∷ s) ≡ number_leaf c max_depth false ps (b ∷ s)
  unfolding plain_leaf number_leaf
  leaf_plain b ps s digit plain =
      ap
        (λ (r : Result (Numeric D)).
          bound (λ (n : Numeric D). make (leaf (number n))) (lifted ps r))
        (sym (number_plain b s digit plain c max_depth))

  -- What the two do at a digit.
  value_at-digit :
      (arr tbl : Action D ℕ) (b : ℕ) (ps : State D) (s : Bytes)
      → is_dec b ≡ true
      → value_at c max_depth arr tbl ps (b ∷ s)
        ≡ (if datetime_lookahead (b ∷ s)
              then datetime_leaf c max_depth
              else number_leaf c max_depth false)
            ps
            (b ∷ s)
  unfolding value_at
  value_at-digit arr tbl b ps s digit =
      let (low, high) = is_dec-range b digit in
      let no_quote : (b == b'"' || b == b'\'') ≡ false = ground arith in
      let no_bracket : (b == b'[') ≡ false = ground arith in
      let no_brace : (b == b'{') ≡ false = ground arith in
      let no_word : (b == b't' || b == b'f') ≡ false = ground arith in
      let no_name : (b == b'i' || b == b'n') ≡ false = ground arith in
      let no_sign : (b == b'+' || b == b'-') ≡ false = ground arith in
      rw (no_quote, no_bracket, no_brace, no_word, no_name, no_sign, digit, value_at) refl

  chosen :
      (d : Bool) (pv other : Action D ℕ) (ps : State D) (s : Bytes)
      → d ≡ false
      → (if not d then pv else other) ps s ≡ pv ps s
  chosen true pv other ps s e = absurd (ground arith)
  chosen false pv other ps s e = refl

  choose :
      (l p d : Bool) (pv dt pl nl : Action D ℕ) (ps : State D) (s : Bytes)
      → d ≡ true
      → (p ≡ true → pl ps s ≡ nl ps s)
      → (if not d then pv else if l then dt else if p then pl else nl) ps s
        ≡ (if l then dt else nl) ps s
  choose l p false pv dt pl nl ps s digit same = absurd (ground arith)
  choose true p true pv dt pl nl ps s digit same = refl
  choose false true true pv dt pl nl ps s digit same = same refl
  choose false false true pv dt pl nl ps s digit same = refl

  nothing_there :
      (parse_value : Action D ℕ) (ps : State D)
      → value_fast c max_depth parse_value ps [] ≡ parse_value ps []
  unfolding value_fast
  nothing_there parse_value ps = refl

  -- Elsewhere the fast routine is the general one.
  no_digit :
      (parse_value : Action D ℕ) (b : ℕ) (ps : State D) (s : Bytes)
      → is_dec b ≡ false
      → value_fast c max_depth parse_value ps (b ∷ s) ≡ parse_value ps (b ∷ s)
  unfolding value_fast
  no_digit parse_value b ps s other = chosen (is_dec b) parse_value _ ps (b ∷ s) other

  value_fast-digit :
      (parse_value : Action D ℕ) (b : ℕ) (ps : State D) (s : Bytes)
      → is_dec b ≡ true
      → value_fast c max_depth parse_value ps (b ∷ s)
        ≡ (if datetime_lookahead (b ∷ s)
              then datetime_leaf c max_depth
              else number_leaf c max_depth false)
            ps
            (b ∷ s)
  unfolding value_fast
  value_fast-digit parse_value b ps s digit =
      choose (datetime_lookahead (b ∷ s)) (is_plain_integer (b ∷ s)) (is_dec b) parse_value
        (datetime_leaf c max_depth) (plain_leaf c max_depth) (number_leaf c max_depth false) ps
        (b ∷ s) digit (leaf_plain b ps s digit)

  any_value :
      (arr tbl : Action D ℕ) (ps : State D) (s : Bytes)
      → value_fast c max_depth (value_at c max_depth arr tbl) ps s
        ≡ value_at c max_depth arr tbl ps s
  any_value arr tbl ps [] = nothing_there (value_at c max_depth arr tbl) ps
  any_value arr tbl ps (b ∷ s) = elim (Bool-cases (is_dec b)) [
    | inl digit ↦
        value_fast-digit (value_at c max_depth arr tbl) b ps s digit
        ∙ sym (value_at-digit arr tbl b ps s digit)
    | inr other ↦ no_digit (value_at c max_depth arr tbl) b ps s other
  ]

  -- at every depth and on every text, teptris_parse_value_fast does what teptris_parse_value does: the
  -- value, the document, the cursor and the failures are the same
  pub value_fast-value_within :
      (levels : ℕ) (ps : State D) (s : Bytes)
      → value_fast c max_depth (value_within c max_depth levels) ps s
        ≡ value_within c max_depth levels ps s
  unfolding value_within
  value_fast-value_within zero ps s =
      any_value (too_deep c max_depth (array false []))
        (too_deep c max_depth (table tbl_inline empty)) ps s
  value_fast-value_within (suc levels) ps s =
      any_value (parse_array c max_depth (value_within c max_depth levels))
        (parse_inline c max_depth (value_within c max_depth levels)) ps s
