-- ===== src/Emit/Text/RoundTrip.antt =====
-- The parser reads back every string that the emitter writes.
use teptris.Base.{
  ℕ, ◌/◌, ◌%◌, ◌<◌, true, false, ◌&&◌, ◌||◌, [], ◌∷◌, ◌++◌, append-nil, append_assoc, ◌≡◌, refl,
  ◌∙◌, arith, Bytes, drop, ltb, ◌==◌, Bool-cases, inl, inr, again, run, run-again, All, passes,
  passes-at,
}
use teptris.Common.Chartype.{is_hex}
use teptris.Emit.Text.{
  hex_upper, unicode_escape, escaped, basic_spans, emit_basic_bytes, fits_literal,
  emit_string_value,
}
use teptris.Parse.Cursor.{next_is}
use teptris.Parse.Result.{Result, ok, stuck}
use teptris.Parse.Strings.{Scan, hexval, read_hex, escape, basic_turn, left, scan_basic}
use teptris.Parse.Strings.Progress.{basic-Falls}
use teptris.Parse.Strings.Values.Fast.{
  is_plain, run_basic-append, run_basic_close, scan_body_plain, scan_body-basic,
  quoted_body-scan_body,
}
use teptris.Parse.Strings.Values.{quoted_body, scan_body, parse_string, opens_multiline}
use teptris.Parse.Utf8.{utf8_put}

hex_digit_table : passes (λ d. is_hex (hex_upper d) && hexval (hex_upper d) == d) 16 ≡ true
unfolding passes is_hex hex_upper hexval
hex_digit_table = refl

hex_digit : (d : ℕ) → d < 16 → (is_hex (hex_upper d) ≡ true) × (hexval (hex_upper d) ≡ d)
hex_digit d h =
    let both =
      passes-at (λ d. is_hex (hex_upper d) && hexval (hex_upper d) == d) 16 d hex_digit_table h in
    (ground arith, ground arith)

zero_digit : (is_hex b'0' ≡ true) × (hexval b'0' ≡ 0)
unfolding is_hex hexval
zero_digit = (refl, refl)

-- `\u00XX` is read as the byte that it was written for.
pub read_hex-unicode :
    (c : ℕ) (t : Bytes)
    → c < 0x80
    → read_hex 4 0 (b'0' ∷ b'0' ∷ hex_upper (c / 16) ∷ hex_upper (c % 16) ∷ t) ≡ ok c t
unfolding read_hex
read_hex-unicode c t h =
    ground (arith, zero_digit, hex_digit (c / 16) (omega arith), hex_digit (c % 16) (omega arith))

pub utf8_put_ascii : (c : ℕ) → c < 0x80 → utf8_put c ≡ c ∷ []
unfolding utf8_put
utf8_put_ascii c h = ground arith

abbrev pub at : Bytes → Bytes → Scan
at s out = record { rest = s; out = out }

-- One escape is read back in one round.
pub unicode_escape_turn :
    (c : ℕ) (t out : Bytes)
    → c < 0x80
    → basic_turn false (at (unicode_escape c ++ t) out) ≡ again (at t (out ++ c ∷ []))
unfolding basic_turn escape unicode_escape
unicode_escape_turn c t out h = rw (read_hex-unicode c t h) (ground (arith, utf8_put_ascii c h))

escaped_turn :
    (c : ℕ) (t out : Bytes)
    → (c == b'"' || c == b'\\' || ltb c 0x20 || c == 0x7F) ≡ true
    → basic_turn false (at (escaped c ++ t) out) ≡ again (at t (out ++ c ∷ []))
unfolding basic_turn escape escaped
escaped_turn c t out h = ground (arith, unicode_escape_turn c t out)

-- A scan of a basic string in the middle.
abbrev pub scanning : Bytes → Bytes → Result Bytes
scanning s out = run stuck (basic_turn false) left (at s out)

pub run_escape :
    (escape_text : Bytes) (c : ℕ) (t out : Bytes)
    → basic_turn false (at (escape_text ++ t) out) ≡ again (at t (out ++ c ∷ []))
    → scanning (escape_text ++ t) out ≡ scanning t (out ++ c ∷ [])
run_escape escape_text c t out h = run-again stuck (basic_turn false) left (basic-Falls false) h

run_clean :
    (c : ℕ) (t out : Bytes)
    → (c == b'"' || c == b'\\' || ltb c 0x20 || c == 0x7F) ≡ false
    → scanning (c ∷ t) out ≡ scanning t (out ++ c ∷ [])
run_clean c t out h = run_basic-append (c ∷ []) t out (ground arith, tt)

run-basic_spans :
    (s rest out : Bytes) → scanning (basic_spans s ++ b'"' ∷ rest) out ≡ ok (out ++ s) rest
unfolding basic_spans
run-basic_spans [] rest out = run_basic_close rest out ∙ rw append-nil
run-basic_spans (c ∷ s) rest out =
    let more = run-basic_spans s rest (out ++ c ∷ []) ∙ rw append_assoc in
    elim (Bool-cases (c == b'"' || c == b'\\' || ltb c 0x20 || c == 0x7F)) [
      | inl e ↦ rw e (
          rw append_assoc (
            run_escape (escaped c) c (basic_spans s ++ b'"' ∷ rest) out (escaped_turn c _ out e)
            ∙ more))
      | inr e ↦ rw e (run_clean c (basic_spans s ++ b'"' ∷ rest) out e ∙ more)
    ]

scan_basic-spans : (s rest : Bytes) → scan_basic false (basic_spans s ++ b'"' ∷ rest) ≡ ok s rest
unfolding scan_basic
scan_basic-spans s rest = run-basic_spans s rest []

pub fits_literal→plain : (s : Bytes) → fits_literal s ≡ true → All (is_plain false) s
fits_literal→plain [] h = tt
fits_literal→plain (c ∷ s) h = (ground arith, fits_literal→plain s (ground arith))

opens_multiline-second :
    (a b : ℕ) (t : Bytes) → (b == a) ≡ false → opens_multiline (a ∷ b ∷ t) ≡ false
opens_multiline-second a b [] h = refl
opens_multiline-second a b (c ∷ t) h = rw h

parse_string-quoted_body :
    (q : ℕ) (s : Bytes)
    → opens_multiline (q ∷ s) ≡ false
    → parse_string (q ∷ s) ≡ scan_body (q == b'"') false s
parse_string-quoted_body q s h = direct ∙ quoted_body-scan_body (q == b'"') s
  where
    direct : parse_string (q ∷ s) ≡ quoted_body (q == b'"') s
    direct = unfold parse_string in rw h

literal_shut :
    (s rest : Bytes)
    → fits_literal s ≡ true
    → next_is b'\'' rest ≡ false
    → opens_multiline (b'\'' ∷ (s ++ b'\'' ∷ rest)) ≡ false
literal_shut [] [] h k = refl
literal_shut [] (c ∷ rest) h k = rw k
literal_shut (c ∷ s) rest h k = opens_multiline-second b'\'' c (s ++ b'\'' ∷ rest) (ground arith)

escaped_head :
    (c : ℕ)
    → (c == b'"' || c == b'\\' || ltb c 0x20 || c == 0x7F) ≡ true
    → (t : Bytes) × (escaped c ≡ b'\\' ∷ t)
unfolding escaped unicode_escape
escaped_head c h = (drop 1 (escaped c), ground arith)

spans_shut :
    (s rest : Bytes)
    → fits_literal s ≡ false
    → opens_multiline (b'"' ∷ (basic_spans s ++ b'"' ∷ rest)) ≡ false
unfolding basic_spans
spans_shut [] rest h = cc
spans_shut (c ∷ s) rest h = elim (Bool-cases (c == b'"' || c == b'\\' || ltb c 0x20 || c == 0x7F)) [
  | inl e ↦
      let (t, head) = escaped_head c e in
      rw e (rw head (opens_multiline-second b'"' b'\\' ((t ++ basic_spans s) ++ b'"' ∷ rest) refl))
  | inr e ↦ rw e (opens_multiline-second b'"' c (basic_spans s ++ b'"' ∷ rest) (ground arith))
]

-- The parser reads back every string that the emitter writes, whatever bytes it holds, and leaves
-- what follows, as long as that does not begin with `'`.
pub parse_string-emit_string_value :
    (s rest : Bytes)
    → next_is b'\'' rest ≡ false
    → parse_string (emit_string_value s ++ rest) ≡ ok s rest
unfolding emit_string_value emit_basic_bytes
parse_string-emit_string_value s rest k = elim (Bool-cases (fits_literal s)) [
  | inl e ↦ rw e (
      rw append_assoc (
        parse_string-quoted_body b'\'' (s ++ b'\'' ∷ rest) (literal_shut s rest e k)
        ∙ scan_body_plain false s rest (fits_literal→plain s e)))
  | inr e ↦ rw e (
      rw append_assoc (
        parse_string-quoted_body b'"' (basic_spans s ++ b'"' ∷ rest) (spans_shut s rest e)
        ∙ scan_body-basic false _
        ∙ scan_basic-spans s rest))
]
