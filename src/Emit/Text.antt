-- ===== src/Emit/Text.antt =====
-- Strings and keys of src/teptris/emit/emit_shared.h, as the bytes that they append to the buffer.
-- The buffer is taken to have room (`eb_reserve` succeeds).
pub mod RoundTrip
pub mod KeyRoundTrip
pub mod KeyLimits
use teptris.Base.{
  ℕ, length, ◌*◌, ◌+◌, ◌-◌, ◌/◌, ◌%◌, Bool, true, false, not, ◌&&◌, ◌||◌, List, [], ◌∷◌, ◌++◌,
  Bytes, ltb, ◌==◌, if◌then◌else◌, all,
}
use teptris.Common.Chartype.{is_barekey}
use teptris.Parse.Cursor.{is_control}

-- A digit of `%04X`, and of the table `hex`.
unfoldable pub hex_upper : ℕ → ℕ
hex_upper d = if ltb d 10 then b'0' + d else b'A' + d - 10

unfoldable pub unicode_escape : ℕ → Bytes
unicode_escape c = b'\\' ∷ b'u' ∷ b'0' ∷ b'0' ∷ hex_upper (c / 16) ∷ hex_upper (c % 16) ∷ []

-- The `switch` of `emit_basic_bytes`.
unfoldable pub escaped : ℕ → Bytes
escaped c =
    if c == b'"'
    then b'\\' ∷ b'"' ∷ []
    else if c == b'\\'
    then b'\\' ∷ b'\\' ∷ []
    else if c == 0x08
    then b'\\' ∷ b'b' ∷ []
    else if c == b'\t'
    then b'\\' ∷ b't' ∷ []
    else if c == b'\n'
    then b'\\' ∷ b'n' ∷ []
    else if c == 0x0C
    then b'\\' ∷ b'f' ∷ []
    else if c == b'\r'
    then b'\\' ∷ b'r' ∷ []
    else if ltb c 0x20 || c == 0x7F
    then unicode_escape c
    else []

-- The loop: clean bytes go out as they stand, in runs.
unfoldable pub basic_spans : Bytes → Bytes
basic_spans [] = []
basic_spans (c ∷ s) =
    let rest = basic_spans s in
    if c == b'"' || c == b'\\' || ltb c 0x20 || c == 0x7F then escaped c ++ rest else c ∷ rest

unfoldable pub emit_basic_bytes : Bytes → Bytes
unfolding basic_spans escaped unicode_escape hex_upper
emit_basic_bytes s = b'"' ∷ (basic_spans s ++ b'"' ∷ [])

abbrev pub fits_literal : Bytes → Bool
fits_literal s = all (λ c. not (c == b'\'' || is_control c)) s

abbrev pub in_quotes : Bytes → Bytes
in_quotes s = b'\'' ∷ (s ++ b'\'' ∷ [])

unfoldable pub emit_string_value : Bytes → Bytes
unfolding emit_basic_bytes
emit_string_value s = if fits_literal s then in_quotes s else emit_basic_bytes s

-- The `switch` of `key_to_buf`.
unfoldable pub key_escaped : ℕ → Bytes
key_escaped c =
    if c == b'"'
    then b'\\' ∷ b'"' ∷ []
    else if c == b'\\'
    then b'\\' ∷ b'\\' ∷ []
    else if ltb c 0x20
    then unicode_escape c
    else c ∷ []

unfoldable pub key_spans : Bytes → Bytes
key_spans [] = []
key_spans (c ∷ s) = key_escaped c ++ key_spans s

-- The size of the buffer for a key.
unfoldable pub key_buf_cap : Bytes → ℕ
key_buf_cap key = length key * 6 + 4

abbrev pub is_bare : Bytes → Bool
is_bare [] = false
is_bare (c ∷ s) = all is_barekey (c ∷ s)

unfoldable pub key_to_buf : Bytes → Bytes
unfolding key_spans key_escaped unicode_escape hex_upper is_barekey
key_to_buf key =
    if is_bare key
    then key
    else if fits_literal key
    then in_quotes key
    else b'"' ∷ (key_spans key ++ b'"' ∷ [])
