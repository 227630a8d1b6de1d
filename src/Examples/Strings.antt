-- ===== src/Examples/Strings.antt =====
-- Runs of the string scanners, the keys and the emitter of strings.
use teptris.Base.{◌≤◌, true, false, [], ◌∷◌, ◌++◌, ◌≡◌, refl, Bytes, codes, length}
use teptris.Common.Chartype.{is_barekey, is_ws}
use teptris.Emit.Text.KeyLimits.{length-key_to_buf, key_component-del}
use teptris.Emit.Text.KeyRoundTrip.{key_component-key_to_buf}
use teptris.Emit.Text.RoundTrip.{parse_string-emit_string_value}
use teptris.Emit.Text.{emit_string_value, key_to_buf, key_buf_cap, key_spans, key_escaped}
use teptris.Parse.Keys.Progress.{PathEnds, parse_key_path-PathEnds}
use teptris.Parse.Keys.{key_component, parse_key_path}
use teptris.Parse.Result.{
  ok, fail, err_syntax, err_depth, key_path_too_deep, invalid_escape, control_in_string, Ends,
}
use teptris.Parse.Strings.Progress.{scan-Ends}
use teptris.Parse.Strings.Values.Fast.{quoted_body-scan_body}
use teptris.Parse.Strings.Values.{quoted_body, scan_body, parse_string, quoted_key}
use teptris.Parse.Strings.{scan_basic, scan_literal}

-- An escape, then the closing quotes of a multi-line string with one more quote before them.
abbrev body : Bytes
body = codes "a\\u0041\"" ++ codes "\"\"\"x"

body_run : scan_basic true body ≡ ok (codes "aA\"") (codes "x")
unfolding scan_basic
body_run = refl

bad_escape_run : scan_basic false (codes "a\\q") ≡ fail err_syntax invalid_escape (codes "q")
unfolding scan_basic
bad_escape_run = refl

scan-Ends_example : Ends body (scan_basic true body) × Ends body (scan_literal true body)
scan-Ends_example = scan-Ends true body

-- More than 32 bytes, so the two passes for long bodies.
abbrev long_body : Bytes
long_body = codes "0123456789 0123456789 0123456789 ' tail"

long_run :
    quoted_body false long_body ≡ ok (codes "0123456789 0123456789 0123456789 ") (codes " tail")
unfolding quoted_body
long_run = refl

quoted_body-scan_body_example : quoted_body false long_body ≡ scan_body false false long_body
quoted_body-scan_body_example = quoted_body-scan_body false long_body

-- A quote and a newline, so that the basic form is written.
abbrev text : Bytes
text = codes "it's\n"

text_run : emit_string_value text ≡ codes "\"it's\\n\""
unfolding emit_string_value
text_run = refl

parse_string-emit_string_value_example :
    parse_string (emit_string_value text ++ codes ", ") ≡ ok text (codes ", ")
parse_string-emit_string_value_example = parse_string-emit_string_value text (codes ", ") refl

abbrev path : Bytes
path = codes "a . \"b c\".d = 1"

path_run : parse_key_path 3 path ≡ ok (codes "a" ∷ codes "b c" ∷ codes "d" ∷ []) (codes "= 1")
unfolding parse_key_path is_ws is_barekey quoted_key
path_run = refl

deep_run : parse_key_path 2 path ≡ fail err_depth key_path_too_deep (codes " = 1")
unfolding parse_key_path is_ws is_barekey quoted_key
deep_run = refl

parse_key_path-PathEnds_example : PathEnds 3 path (parse_key_path 3 path)
parse_key_path-PathEnds_example = parse_key_path-PathEnds 3 path

abbrev key : Bytes
key = codes "it's a\\b"

key_component-key_to_buf_example :
    key_component (key_to_buf key ++ codes " = 1") ≡ ok key (codes " = 1")
unfolding is_barekey
key_component-key_to_buf_example =
    key_component-key_to_buf key (codes " = 1")
      (refl, (refl, (refl, (refl, (refl, (refl, (refl, (refl, tt)))))))) refl

length-key_to_buf_example : length (key_to_buf key) ≤ key_buf_cap key
length-key_to_buf_example = length-key_to_buf key

key_component-del_example :
    key_component (key_to_buf (codes "a" ++ 0x7F ∷ codes "b") ++ codes "=")
    ≡ fail err_syntax control_in_string (0x7F ∷ codes "b\"=")
unfolding key_spans key_escaped
key_component-del_example = key_component-del (codes "a") (codes "b") (codes "=") (refl, tt)
