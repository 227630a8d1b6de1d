-- ===== src/Examples/Scanning.antt =====
-- Runs of the cursor, the UTF-8 check and the positions.
use teptris.Base.{
  ◌+◌, run, loop, [], ◌∷◌, ◌++◌, none, some, ◌≡◌, ◌≢◌, ◌↔◌, refl, arith, Bytes, codes, length,
}
use teptris.Common.Chartype.{
  is_barekey, is_ws, is_dec, is_hex, in_barekey, in_ws, in_dec, in_hex, chartype_ranges,
}
use teptris.Parse.Cursor.Gaps.{Skips, skip_ws_nl-Skips, skip_array_gap-skip_ws_nl}
use teptris.Parse.Cursor.{skip_ws, skip_comment, skip_ws_nl, skip_array_gap, finish_line}
use teptris.Parse.Position.{
  position, fail_position, fail_position-line_column, fail_position-injective, newlines,
  tail_length,
}
use teptris.Parse.Result.{ok, fail, err_syntax, newline_after_value, IsRest}
use teptris.Parse.Utf8.Valid.{IsUtf8, Unreadable, validate_utf8_iff, validate_utf8-position}
use teptris.Parse.Utf8.{validate_utf8}

chartype_ranges_example :
    (is_barekey b'x' ≡ in_barekey b'x')
    × (is_ws b'x' ≡ in_ws b'x')
    × (is_dec b'x' ≡ in_dec b'x')
    × (is_hex b'x' ≡ in_hex b'x')
chartype_ranges_example = chartype_ranges b'x'

-- A comment, a CRLF line end and blanks, up to the value.
abbrev gap : Bytes
gap = codes " # one\n\t" ++ b'\r' ∷ b'\n' ∷ codes " 42, "

gap_run : skip_ws_nl gap ≡ ok tt (codes "42, ")
unfolding skip_ws_nl run loop is_ws skip_comment
gap_run = refl

finish_line_run : finish_line (codes "  7") ≡ fail err_syntax newline_after_value (codes "7")
unfolding finish_line skip_ws is_ws
finish_line_run = refl

skip_ws_nl-Skips_example : Skips gap (skip_ws_nl gap)
skip_ws_nl-Skips_example = skip_ws_nl-Skips gap

skip_array_gap-skip_ws_nl_example : skip_array_gap gap ≡ skip_ws_nl gap
skip_array_gap-skip_ws_nl_example = skip_array_gap-skip_ws_nl gap

abbrev source : Bytes
source = codes "a=1\nb=?"

abbrev at_mark : IsRest (codes "?") source
at_mark = record { read = codes "a=1\nb="; splits = refl }

position_run :
    fail_position source (codes "?")
    ≡ record { line = 2; column = 3; start_offset = 6; end_offset = 6 }
unfolding fail_position position
position_run = refl

fail_position-line_column_example :
    ((fail_position source (codes "?")).line ≡ 1 + newlines (codes "a=1\nb="))
    × ((fail_position source (codes "?")).column ≡ 1 + tail_length 0 (codes "a=1\nb="))
fail_position-line_column_example = fail_position-line_column source (codes "?") at_mark

fail_position-injective_example : length (codes "?") ≡ length (codes "?")
fail_position-injective_example =
    fail_position-injective source (codes "?") (codes "?") at_mark at_mark refl refl

-- U+20AC, then a byte that begins nothing.
abbrev euro : Bytes
euro = 0xE2 ∷ 0x82 ∷ 0xAC ∷ []

abbrev broken : Bytes
broken = codes "12345678\n" ++ euro ++ 0xFF ∷ []

validate_utf8_iff_example : (validate_utf8 euro ≡ none) ↔ IsUtf8 euro
validate_utf8_iff_example = validate_utf8_iff euro (refl, (refl, (refl, tt)))

broken_run :
    validate_utf8 broken
    ≡ some (record { line = 2; column = 4; start_offset = 12; end_offset = 12 })
unfolding validate_utf8 run loop
broken_run = refl

validate_utf8-position_example :
    (before : Bytes) × (rest : Bytes) × (before ++ rest ≡ broken)
    × IsUtf8 before
    × Unreadable rest
    × (rest ≢ [])
    × (record { line = 2; column = 4; start_offset = 12; end_offset = 12 }
        ≡ position broken (length before))
validate_utf8-position_example = validate_utf8-position broken (ground arith) broken_run
