-- ===== src/Emit/Text/KeyLimits.antt =====
-- The size of a written key, and the key that cannot be read back.
use teptris.Base.{
  ℕ, ◌*◌, ◌≤◌, false, [], ◌∷◌, ◌++◌, append_assoc, ◌≡◌, refl, ◌∙◌, arith, Bytes, length,
  length-append, run-leave, All, all,
}
use teptris.Common.Chartype.{is_barekey, is_barekey-eq}
use teptris.Emit.Text.KeyRoundTrip.{
  is_key_byte, key_escaped_turn, key_escaped_del, quoted_key-basic, key_component-quoted,
}
use teptris.Emit.Text.RoundTrip.{scanning, run_escape}
use teptris.Emit.Text.{
  unicode_escape, fits_literal, key_escaped, key_spans, is_bare, key_to_buf, key_buf_cap,
}
use teptris.Parse.Keys.{key_component}
use teptris.Parse.Result.{fail, stuck, err_syntax, control_in_string}
use teptris.Parse.Strings.{basic_turn, left, scan_basic}

length-key_escaped : (c : ℕ) → length (key_escaped c) ≤ 6
unfolding key_escaped unicode_escape
length-key_escaped c = ground arith

length-key_spans : (s : Bytes) → length (key_spans s) ≤ 6 * length s
unfolding key_spans
length-key_spans [] = omega arith
length-key_spans (c ∷ s) =
    omega
      (arith, length-append (key_escaped c) (key_spans s), length-key_escaped c, length-key_spans s)

-- Every written key fits into the buffer that `emit_key` sizes for it.
pub length-key_to_buf : (key : Bytes) → length (key_to_buf key) ≤ key_buf_cap key
unfolding key_to_buf key_buf_cap
length-key_to_buf key = ground (
  arith,
  length-append key (b'\'' ∷ []),
  length-append (key_spans key) (b'"' ∷ []),
  length-key_spans key,
)

del_ne_bare : (a b : Bytes) → all is_barekey (a ++ 0x7F ∷ b) ≡ false
del_ne_bare [] b = ground (arith, is_barekey-eq 0x7F)
del_ne_bare (c ∷ a) b = ground (arith, del_ne_bare a b)

del_ne_literal : (a b : Bytes) → fits_literal (a ++ 0x7F ∷ b) ≡ false
del_ne_literal [] b = refl
del_ne_literal (c ∷ a) b = ground (arith, del_ne_literal a b)

is_bare-del : (a b : Bytes) → is_bare (a ++ 0x7F ∷ b) ≡ false
is_bare-del [] b = del_ne_bare [] b
is_bare-del (c ∷ a) b = del_ne_bare (c ∷ a) b

run-del :
    (a b rest out : Bytes)
    → All is_key_byte a
    → scanning (key_spans (a ++ 0x7F ∷ b) ++ b'"' ∷ rest) out
      ≡ fail err_syntax control_in_string (0x7F ∷ (key_spans b ++ b'"' ∷ rest))
unfolding key_spans
run-del [] b rest out h =
    rw append_assoc
      (run-leave stuck (basic_turn false) left (key_escaped_del (key_spans b ++ b'"' ∷ rest) out))
run-del (c ∷ a) b rest out h = rw append_assoc (
    run_escape (key_escaped c) c (key_spans (a ++ 0x7F ∷ b) ++ b'"' ∷ rest) out
      (key_escaped_turn c _ out h.0)
    ∙ run-del a b rest (out ++ c ∷ []) h.1)

-- A key that holds a DEL byte is written so that the parser rejects it, at that byte.
pub key_component-del :
    (a b rest : Bytes)
    → All is_key_byte a
    → key_component (key_to_buf (a ++ 0x7F ∷ b) ++ rest)
      ≡ fail err_syntax control_in_string (0x7F ∷ (key_spans b ++ b'"' ∷ rest))
unfolding key_to_buf
key_component-del a b rest h = rw (is_bare-del a b) (
    rw (del_ne_literal a b) (
      rw append_assoc (
        key_component-quoted b'"' _ refl
        ∙ quoted_key-basic _
        ∙ unfold scan_basic in run-del a b rest [] h)))
