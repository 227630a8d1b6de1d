-- ===== src/Emit/Text/KeyRoundTrip.antt =====
-- The parser reads back the keys that the emitter writes, unless they hold a DEL byte.
use teptris.Base.{
  ℕ, Bool, true, false, not, ◌||◌, [], ◌∷◌, ◌++◌, append-nil, append_assoc, ◌≡◌, refl, ◌∙◌, arith,
  Bytes, ◌==◌, Bool-cases, inl, inr, again, leave, All, all,
}
use teptris.Common.Chartype.{is_barekey, is_barekey-eq}
use teptris.Emit.Text.{fits_literal, key_escaped, key_spans, key_to_buf}
use teptris.Emit.Text.RoundTrip.{at, scanning, unicode_escape_turn, run_escape, fits_literal→plain}
use teptris.Parse.Keys.{bare_key, behind_bare_key, key_component}
use teptris.Parse.Result.{ok, fail, err_syntax, control_in_string}
use teptris.Parse.Strings.{escape, plain_byte, basic_turn, scan_basic}
use teptris.Parse.Strings.Values.Fast.{
  run_basic_close, scan_body_plain, scan_body-basic, quoted_body-scan_body,
}
use teptris.Parse.Strings.Values.{quoted_key}

-- A byte that `key_to_buf` writes and the parser reads.
abbrev pub is_key_byte : ℕ → Bool
is_key_byte c = not (c == 0x7F)

pub key_escaped_turn :
    (c : ℕ) (t out : Bytes)
    → is_key_byte c ≡ true
    → basic_turn false (at (key_escaped c ++ t) out) ≡ again (at t (out ++ c ∷ []))
unfolding basic_turn escape plain_byte key_escaped
key_escaped_turn c t out h = ground (arith, unicode_escape_turn c t out)

-- DEL is written as it stands, and stops the scan.
pub key_escaped_del :
    (t out : Bytes)
    → basic_turn false (at (key_escaped 0x7F ++ t) out)
      ≡ leave (fail err_syntax control_in_string (0x7F ∷ t))
unfolding basic_turn plain_byte key_escaped
key_escaped_del t out = refl

run-key_spans :
    (s rest out : Bytes)
    → All is_key_byte s
    → scanning (key_spans s ++ b'"' ∷ rest) out ≡ ok (out ++ s) rest
unfolding key_spans
run-key_spans [] rest out h = run_basic_close rest out ∙ rw append-nil
run-key_spans (c ∷ s) rest out h = rw append_assoc (
    run_escape (key_escaped c) c (key_spans s ++ b'"' ∷ rest) out (key_escaped_turn c _ out h.0)
    ∙ run-key_spans s rest (out ++ c ∷ []) h.1
    ∙ rw append_assoc)

pub quoted_key-basic : (s : Bytes) → quoted_key (b'"' ∷ s) ≡ scan_basic false s
unfolding quoted_key
quoted_key-basic s = quoted_body-scan_body true s ∙ scan_body-basic false s

quoted_key-literal :
    (s rest : Bytes) → fits_literal s ≡ true → quoted_key (b'\'' ∷ (s ++ b'\'' ∷ rest)) ≡ ok s rest
unfolding quoted_key
quoted_key-literal s rest h =
    quoted_body-scan_body false (s ++ b'\'' ∷ rest)
    ∙ scan_body_plain false s rest (fits_literal→plain s h)

-- A bare key cannot go on here.
abbrev pub stops_bare : Bytes → Bool
stops_bare [] = true
stops_bare (c ∷ s) = not (is_barekey c)

bare_key-append :
    (k rest : Bytes)
    → all is_barekey k ≡ true
    → stops_bare rest ≡ true
    → (bare_key (k ++ rest) ≡ k) × (behind_bare_key (k ++ rest) ≡ rest)
unfolding bare_key behind_bare_key
bare_key-append [] [] h e = (refl, refl)
bare_key-append [] (c ∷ rest) h e = (ground arith, ground arith)
bare_key-append (c ∷ k) rest h e =
    let (one, two) = bare_key-append k rest (ground arith) e in (ground arith, ground arith)

key_component-bare :
    (c : ℕ) (k rest : Bytes)
    → all is_barekey (c ∷ k) ≡ true
    → stops_bare rest ≡ true
    → key_component (c ∷ (k ++ rest)) ≡ ok (c ∷ k) rest
unfolding key_component
key_component-bare c k rest h e = ground (arith, is_barekey-eq c, bare_key-append (c ∷ k) rest h e)

pub key_component-quoted :
    (q : ℕ) (s : Bytes)
    → (q == b'"' || q == b'\'') ≡ true
    → key_component (q ∷ s) ≡ quoted_key (q ∷ s)
unfolding key_component
key_component-quoted q s h = rw h

-- Every key without a DEL byte is read back as it was, bare, literal or escaped, and what follows it
-- is left, as long as that is no bare key byte.
pub key_component-key_to_buf :
    (key rest : Bytes)
    → All is_key_byte key
    → stops_bare rest ≡ true
    → key_component (key_to_buf key ++ rest) ≡ ok key rest
unfolding key_to_buf
key_component-key_to_buf [] rest h e =
    key_component-quoted b'\'' (b'\'' ∷ rest) refl ∙ quoted_key-literal [] rest refl
key_component-key_to_buf (c ∷ k) rest h e = elim (Bool-cases (all is_barekey (c ∷ k))) [
  | inl bare ↦ rw bare (key_component-bare c k rest bare e)
  | inr other ↦ rw other (elim (Bool-cases (fits_literal (c ∷ k))) [
    | inl lit ↦
        rw lit (
          rw append_assoc (key_component-quoted b'\'' _ refl ∙ quoted_key-literal (c ∷ k) rest lit))
    | inr esc ↦ rw esc (
        rw append_assoc (
          key_component-quoted b'"' _ refl
          ∙ quoted_key-basic _
          ∙ unfold scan_basic in run-key_spans (c ∷ k) rest [] h))
  ])
]
