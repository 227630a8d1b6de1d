-- ===== src/Parse/Result.antt =====
-- What a parsing routine of src/teptris/parse answers. The cursor `ps->p` is the list of the bytes
-- from it to `ps->end`, so a routine takes the bytes that are left and returns those that it leaves.
use teptris.Base.{
  ℕ, zero, suc, ◌≤◌, Bool, true, false, if◌then◌else◌, drop, [], ◌∷◌, ◌++◌, ◌≡◌, refl, ◌∙◌, ap,
  append_assoc, Bytes, length, length-append, arith,
}

-- `teptris_status`, but for `TEPTRIS_OK`.
pub data Status : Type 0 where
  err_alloc err_syntax err_semantic err_encoding err_depth err_arg err_state : Status

-- The message that goes with a failure, a constructor for each text.
pub data Reason : Type 0 where
  lone_cr_in_comment control_in_comment newline_after_value : Reason
  unterminated_string unterminated_escape too_many_quotes invalid_escape control_in_string : Reason
  invalid_unicode_escape invalid_unicode_scalar : Reason
  invalid_value invalid_number number_too_long underscore_between trailing_underscore : Reason
  expected_digits sign_on_radix out_of_range leading_zero : Reason
  invalid_month invalid_day invalid_hour invalid_minute invalid_second invalid_offset : Reason
  expected_fraction : Reason
  expected_key expected_bare_or_quoted key_path_too_deep : Reason
  not_a_table inline_table_is_fixed header_table_is_fixed duplicate_key duplicate_key_in_table :
      Reason
  plain_array_is_fixed corrupt_array_of_tables not_an_array_of_tables table_defined_twice : Reason
  expected_close expected_double_close expected_equals expected_value nesting_too_deep : Reason
  unterminated_array expected_comma_or_bracket unterminated_inline expected_comma_or_brace : Reason
  lone_cr invalid_utf8 : Reason

-- `fail` is `tep_fail_at(ps, NULL, ...)`: it holds the cursor at which the routine gave up.
-- `stuck` is a loop of the model that ran out of fuel, or an access to a node that is not
-- there or of another kind.
-- `overrun` is a write past the end of a buffer; nothing is known of what the program does from there.
pub data Result {ℓ} (A : Type ℓ) : Type ℓ where
  ok : A → Bytes → Result A
  fail : Status → Reason → Bytes → Result A
  stuck : Result A
  overrun : Result A

-- A routine, as a function of the cursor.
abbrev pub Parser {ℓ} : Type ℓ → Type ℓ
Parser A = Bytes → Result A

infixl 5 ◌>>=◌ ◌>>◌
abbrev pub ◌>>=◌ {ℓ κ} : {A : Type ℓ} {B : Type κ} → Parser A → (A → Parser B) → Parser B
◌>>=◌ m k s = elim (m s) [
  | ok a rest ↦ k a rest
  | fail st why rest ↦ fail st why rest
  | stuck ↦ stuck
  | overrun ↦ overrun
]

abbrev pub ◌>>◌ {ℓ} : {B : Type ℓ} → Parser (Unit {0}) → Parser B → Parser B
m >> k = m >>= λ _. k

abbrev pub syntax {ℓ} : {A : Type ℓ} → Reason → Parser A
syntax why rest = fail err_syntax why rest

-- `rest` is what is left of `s`: the cursor has moved forward, inside the buffer.
pub record IsRest (rest s : Bytes) : Type 0 where
  pub read : Bytes
  pub splits : read ++ rest ≡ s

pub IsRest-refl : (s : Bytes) → IsRest s s
IsRest-refl s = record { read = []; splits = refl }

pub IsRest-cons : (c : ℕ) {rest s : Bytes} → IsRest rest s → IsRest rest (c ∷ s)
IsRest-cons c h = record { read = c ∷ h.read; splits = ap (◌∷◌ c) h.splits }

pub IsRest-trans : {a b c : Bytes} → IsRest a b → IsRest b c → IsRest a c
IsRest-trans {a} h k = record {
  read = k.read ++ h.read;
  splits = append_assoc k.read h.read a ∙ ap (λ t. k.read ++ t) h.splits ∙ k.splits;
}

pub IsRest-length : {rest s : Bytes} → IsRest rest s → length rest ≤ length s
IsRest-length {rest} h =
    omega (arith, length-append h.read rest, ap (λ (t : Bytes). length t) h.splits)

-- The routine ends, on success or failure, with the cursor inside the buffer.
abbrev pub Ends {ℓ} : {A : Type ℓ} → Bytes → Result A → Type 0
Ends s (ok a rest) = IsRest rest s
Ends s (fail st why rest) = IsRest rest s
Ends s stuck = ⊥
Ends s overrun = ⊥

pub Ends-trans {ℓ} : {A : Type ℓ} {s t : Bytes} (r : Result A) → IsRest s t → Ends s r → Ends t r
Ends-trans (ok a rest) h e = IsRest-trans e h
Ends-trans (fail st why rest) h e = IsRest-trans e h
Ends-trans stuck h e = e
Ends-trans overrun h e = e

-- A text has this many bytes at least where a buffer of 1032 bytes is overrun: all that is copied comes
-- from the text, but for a NUL, and a `-` of it may stand before what is given here.
abbrev pub overrun_least : ℕ
overrun_least = 1031

-- The outcome of a routine: it has read something and `Q` holds, or it has given up, with the cursor
-- inside the buffer; or the text is long enough to overrun a buffer.
pub data Read {A : Type 0} (s : Bytes) (Q : A → Bytes → Type 0) : Result A → Type 0 where
  reads : {a : A} {rest : Bytes} → IsRest rest s → Q a rest → Read s Q (ok a rest)
  gives_up :
      {st : Status} {why : Reason} {rest : Bytes} → IsRest rest s → Read s Q (fail st why rest)
  overruns : overrun_least ≤ length s → Read s Q overrun

abbrev pub Any : {A : Type 0} → A → Bytes → Type 0
Any a rest = Unit

pub Ends→Read : {A : Type 0} (s : Bytes) (r : Result A) → Ends s r → Read s Any r
Ends→Read s (ok a rest) h = reads h tt
Ends→Read s (fail st why rest) h = gives_up h
Ends→Read s stuck h = absurd h
Ends→Read s overrun h = absurd h

module _ {A : Type 0} {Q : A → Bytes → Type 0} where
  pub Read-if :
      {s : Bytes} {x y : Result A} (b : Bool)
      → Read s Q x
      → Read s Q y
      → Read s Q (if b then x else y)
  Read-if true h k = h
  Read-if false h k = k

  -- Inside a text that began before.
  pub Read-trans : {s t : Bytes} {r : Result A} → IsRest s t → Read s Q r → Read t Q r
  Read-trans h (reads e q) = reads (IsRest-trans e h) q
  Read-trans h (gives_up e) = gives_up (IsRest-trans e h)
  Read-trans h (overruns long) = overruns (omega (arith, long, IsRest-length h))

pub Read-map :
    {A : Type 0} {s : Bytes} {P Q : A → Bytes → Type 0} {r : Result A}
    → ((a : A) (rest : Bytes) → P a rest → Q a rest)
    → Read s P r
    → Read s Q r
Read-map f (reads {a} {rest} e p) = reads e (f a rest p)
Read-map f (gives_up e) = gives_up e
Read-map f (overruns long) = overruns long

pub Read-bind :
    {A B : Type 0} {s : Bytes} {P : A → Bytes → Type 0} {Q : B → Bytes → Type 0} {r : Result A}
    (k : A → Parser B)
    → Read s P r
    → ((a : A) (rest : Bytes) → IsRest rest s → P a rest → Read s Q (k a rest))
    → Read s Q (elim r [
      | ok a rest ↦ k a rest
      | fail st why rest ↦ fail st why rest
      | stuck ↦ stuck
      | overrun ↦ overrun
    ])
Read-bind k (reads {a} {rest} e p) later = later a rest e p
Read-bind k (gives_up e) later = gives_up e
Read-bind k (overruns long) later = overruns long

pub IsRest-drop : (n : ℕ) (s : Bytes) → IsRest (drop n s) s
IsRest-drop zero s = IsRest-refl s
IsRest-drop (suc n) [] = IsRest-refl []
IsRest-drop (suc n) (c ∷ s) = IsRest-cons c (IsRest-drop n s)
