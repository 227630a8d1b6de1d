-- ===== src/Lib.antt =====
-- teptris, a TOML library in C: the parser reads a text into a document, the emitter writes one.
--
-- The text is checked as a whole for UTF-8, then read from left to right by routines that share one
-- cursor, `ps->p`, up to `ps->end`. A routine moves the cursor past what it has read and gives back a
-- status; the first failure ends the parse, and its line and column are counted from the cursor.
-- Here a routine is a function of the bytes that are left. It gives back what it has read and the
-- bytes that it leaves, or the status, the message and the cursor of a failure (Parse/Result). Bytes
-- are native numbers; a theorem that needs them below 256 says so.
--
-- What stands where (paths from the root of the repository):
--   Base, Base/*           tests on numbers, lists, loops with a measure, signed integers.
--   Common/Chartype        src/teptris/common/chartype.c and chartype.h: the character classes.
--   Memory/Arena           src/teptris/memory/arena.c and arena.h: the document's allocator.
--   Parse/Cursor           src/teptris/parse/parser.c: tep_adv, tep_skip_ws, skip_comment,
--                          tep_skip_ws_nl, tep_at_eol, tep_finish_line, skip_array_gap.
--   Parse/Position         parser.c: the line and column of tep_fail_at and of validate_utf8.
--   Parse/Utf8             parser.c: utf8_invalid_at, validate_utf8; scalars.c: utf8_put.
--   Parse/Strings          src/teptris/parse/scalars.c: tep_scan_basic, tep_scan_literal, read_hex.
--   Parse/Strings/Values   scalars.c: teptris_try_plain_body, parse_string; keys.c: quoted_key;
--                          src/teptris/common/simd.h: tep_simd_str_stop, its portable loop.
--   Parse/Keys             src/teptris/parse/keys.c: teptris_parse_key_path.
--   Parse/Numbers          scalars.c: scan_run, mag_from, teptris_parse_number up to a float's point.
--   Parse/Floats           scalars.c: teptris_parse_number where a float follows.
--   Parse/Datetime         src/teptris/parse/datetime.c: the lookahead and teptris_parse_datetime.
--   Parse/Steps            src/teptris/parse/parse.h and dom.c: the state, and what is done to it.
--   Parse/Paths            src/teptris/parse/parser.c: insert_dotted, resolve_header.
--   Parse/Containers       scalars.c: teptris_parse_value, teptris_parse_value_fast; parser.c:
--                          try_keyval_fast, teptris_parse_array, teptris_parse_inline.
--   Parse/Document         parser.c: try_header_fast, parse_header, teptris_parser_run.
--   Dom/Table              src/teptris/dom/dom.c and dom.h: the tables with their hash index.
--   Dom/Document           dom.h: the nodes of a document.
--   Emit/Buffer            src/teptris/emit/emit_shared.h: ebuf, eb_reserve, eb_put, eb_c, eb_sep2. The
--                          loop that doubles the capacity has fuel for 63 rounds, which is enough for
--                          up to 2 ^ 63 bytes.
--   Emit/Text              src/teptris/emit/emit_shared.h: emit_basic_bytes, emit_string_value,
--                          key_buf_cap, key_to_buf.
--   Emit/Numbers           emit_shared.h: emit_i64. Its loop has fuel for 20 digits; any 64 bits need
--                          no more.
--   Emit/Datetime          emit_shared.h: put_digits2, put_digits4, emit_dt.
--   Examples/*             runs on concrete inputs.
-- A folder beside a file holds what is proved of that file's definitions, and the parts of a file
-- that has parts.
--
-- From the values upwards a routine also has the document at hand, a list of nodes; where the code has
-- the address of a node, the model has its number (Parse/Steps). `ps->depth` is the number of levels
-- that are left, and `ps->cur` is a variable of the main loop.
--
-- A loop of the code is a function of one round: `again` with the new variables, or `leave` with the
-- result (Base/Loop). `run` takes as many rounds as a measure of the variables says, in most cases
-- the number of bytes left, and one more. Each round is shown to lower the measure, so that this is
-- enough and the answer `stuck` never comes. Other loops are recursions over the bytes.
-- The answer `overrun` stands for a write past the end of the buffer of the general path for floats,
-- from where nothing is known of the program. Sums of `size_t` and the values of digits wrap as in C;
-- the slots of the hash index, which have 32 bits, do not: a table is taken to have fewer than 2 ^ 32
-- entries.
--
-- Left out:
--   - memory, in the parser and the emitter. There the arena and the output buffer are taken to have
--     room, so no routine fails with TEPTRIS_ERR_ALLOC, and values stand for the bytes that the
--     pointers lead to; how the array of key parts grows is not modelled. The arena and the output
--     buffer have models of their own, with `malloc` and `realloc` as parameters.
--   - the vector code of simd.h. Its loops for one byte at a time are modelled.
--   - `memchr` of the C library is the search for the first such byte.
--   - the emitter of documents, the streaming writer, the builder, the editor, the plans and the
--     schema validator. src/teptris/common/ryu is third-party: what it and the arithmetic of `double`
--     do is a parameter (Parse/Floats).
pub mod Base
pub mod Common
pub mod Memory
pub mod Dom
pub mod Parse
pub mod Emit
pub mod Examples
