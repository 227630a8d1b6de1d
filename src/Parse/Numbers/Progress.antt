-- ===== src/Parse/Numbers/Progress.antt =====
-- The integer part of teptris_parse_number ends, with the cursor inside the buffer.
use teptris.Base.{
  ℕ, ◌+◌, ◌≤◌, arith, length-append, Bool, true, false, not, ◌&&◌, [], ◌∷◌, ◌++◌, Option, none,
  some, Bytes, codes, length, ltb, leb, ◌==◌, if◌then◌else◌, ◌≡◌, refl, sym, ap, subst, inl, inr,
  Bool-cases,
}
use teptris.Common.Chartype.{is_dec}
use teptris.Parse.Cursor.{adv, next_is}
use teptris.Parse.Numbers.{
  Number, integer, infinity, not_a_number, plain_float, slow_float, is_word, expect_word, digit_for,
  digits_max, run_end, run_loop, scan_run, mag_from, magnitude_limit, in_range, radix_of,
  radix_integer, begins_float, has_leading_zero, decimal_end, slow_decimal, dec_run, behind_dec_run,
  plain_end, decimal, has_radix, second_byte, unsigned_number, parse_number,
}
use teptris.Parse.Result.{
  ok, IsRest, IsRest-refl, IsRest-cons, IsRest-drop, IsRest-length, Read, reads, gives_up, Any,
  Read-if, Read-trans, Read-map, Read-bind,
}

pub here : {A : Type 0} {s : Bytes} {Q : A → Bytes → Type 0} {a : A} → Q a s → Read s Q (ok a s)
here {s = s} q = reads (IsRest-refl s) q

pub expect_word-Read : (w s : Bytes) → Read s Any (expect_word w s)
unfolding expect_word
expect_word-Read w s =
    Read-if (is_word w s) (reads (IsRest-drop (length w) s) tt) (gives_up (IsRest-refl s))

-- What is copied and what is left of a text are `n` bytes at most.
abbrev pub Copied : ℕ → Bytes → Bytes → Type 0
Copied n buf rest = length buf + length rest ≤ n

run_end-Read :
    (n : ℕ) (buf : Bytes) (prev : Bool) (s : Bytes)
    → Copied n buf s
    → Read s (Copied n) (run_end buf prev s)
unfolding run_end
run_end-Read n buf prev s h =
    Read-if (length buf == 0) (gives_up (IsRest-refl s))
      (Read-if (not prev) (gives_up (IsRest-refl s)) (here h))

Copied-digit :
    (n : ℕ) (is_digit : Bool) (buf : Bytes) (c : ℕ) (s : Bytes)
    → Copied n buf (c ∷ s)
    → Copied n (if is_digit then buf ++ c ∷ [] else buf) s
Copied-digit n true buf c s h = omega (arith, h, length-append buf (c ∷ []))
Copied-digit n false buf c s h = omega (arith, h)

run_loop-Read :
    (n radix : ℕ) (buf : Bytes) (prev : Bool) (s : Bytes)
    → Copied n buf s
    → Read s (Copied n) (run_loop radix buf prev s)
unfolding run_loop
run_loop-Read n radix buf prev [] h = run_end-Read n buf prev [] h
run_loop-Read n radix buf prev (c ∷ s) h =
    let is_digit = digit_for c radix in
    let rest = Read-trans (IsRest-cons c (IsRest-refl s)) (
      run_loop-Read n radix (if is_digit then buf ++ c ∷ [] else buf) is_digit s
        (Copied-digit n is_digit buf c s h)) in
    Read-if is_digit (Read-if (length buf == digits_max) (gives_up (IsRest-refl (c ∷ s))) rest) (
      Read-if (c == b'_') (Read-if prev rest (gives_up (IsRest-refl (c ∷ s))))
        (run_end-Read n buf prev (c ∷ s) h))

pub scan_run-Read : (radix : ℕ) (s : Bytes) → Read s (Copied (length s)) (scan_run radix s)
unfolding scan_run
scan_run-Read radix s = run_loop-Read (length s) radix [] false s (omega arith)

-- Behind `slow_decimal`: an integer, or the digits of a float.
abbrev pub IsSlow : ℕ → Number → Bytes → Type 0
IsSlow n (integer i) s = Unit
IsSlow n (slow_float buf) s = Copied n buf s
IsSlow n (plain_float digits) s = ⊥
IsSlow n (infinity neg) s = ⊥
IsSlow n not_a_number s = ⊥

in_range-Read :
    (n : ℕ) (neg : Bool) (o : Option ℕ) (s : Bytes) → Read s (IsSlow n) (in_range neg o s)
in_range-Read n neg none s = gives_up (IsRest-refl s)
in_range-Read n neg (some mag) s =
    Read-if (ltb (magnitude_limit neg) mag) (gives_up (IsRest-refl s)) (here tt)

decimal_end-Read :
    (n : ℕ) (neg : Bool) (buf s : Bytes)
    → Copied n buf s
    → Read s (IsSlow n) (decimal_end neg buf s)
unfolding decimal_end
decimal_end-Read n neg buf s h =
    Read-if (has_leading_zero buf) (gives_up (IsRest-refl s))
      (Read-if (begins_float s) (here h) (in_range-Read n neg (mag_from 10 0 buf) s))

pub slow_decimal-Read : (neg : Bool) (s : Bytes) → Read s (IsSlow (length s)) (slow_decimal neg s)
unfolding slow_decimal
slow_decimal-Read neg s =
    Read-bind (decimal_end neg) (scan_run-Read 10 s)
      (λ buf rest inside q. Read-trans inside (decimal_end-Read (length s) neg buf rest q))

pub either : {s t u : Bytes} (b : Bool) → IsRest t s → IsRest u s → IsRest (if b then t else u) s
either true h k = h
either false h k = k

pub behind_dec_run-IsRest : (s : Bytes) → IsRest (behind_dec_run s) s
unfolding behind_dec_run
behind_dec_run-IsRest [] = IsRest-refl []
behind_dec_run-IsRest (c ∷ s) =
    either (is_dec c) (IsRest-cons c (behind_dec_run-IsRest s)) (IsRest-refl (c ∷ s))

dec_run-behind_dec_run : (s : Bytes) → dec_run s ++ behind_dec_run s ≡ s
unfolding dec_run behind_dec_run
dec_run-behind_dec_run [] = refl
dec_run-behind_dec_run (c ∷ s) = elim (Bool-cases (is_dec c)) [
  | inl e ↦ rw e (ap (◌∷◌ c) (dec_run-behind_dec_run s))
  | inr e ↦ rw e refl
]

-- Where a float follows on the fast path, its digits are in front of the cursor.
abbrev pub PlainIn : Bytes → Number → Bytes → Type 0
PlainIn top (plain_float digits) rest = IsRest (digits ++ rest) top
PlainIn top (integer i) rest = Unit
PlainIn top (slow_float buf) rest = Copied (length top) buf rest
PlainIn top (infinity neg) rest = Unit
PlainIn top not_a_number rest = Unit

slow_PlainIn :
    (top s : Bytes)
    → IsRest s top
    → (n : Number) (rest : Bytes) → IsSlow (length s) n rest
    → PlainIn top n rest
slow_PlainIn top s h (integer i) rest q = tt
slow_PlainIn top s h (slow_float buf) rest q = omega (arith, q, IsRest-length h)
slow_PlainIn top s h (plain_float digits) rest q = absurd q
slow_PlainIn top s h (infinity neg) rest q = absurd q
slow_PlainIn top s h not_a_number rest q = absurd q

module _ (top : Bytes) where
  plain_end-Read :
      (neg : Bool) (digits s : Bytes)
      → IsRest (digits ++ s) top
      → Read s (PlainIn top) (plain_end neg digits s)
  unfolding plain_end
  plain_end-Read neg digits s inside =
      Read-if (has_leading_zero digits) (gives_up (IsRest-refl s))
        (Read-if (begins_float s) (here inside) (here tt))

  decimal-Read : (neg : Bool) (s : Bytes) → IsRest s top → Read s (PlainIn top) (decimal neg s)
  unfolding decimal
  decimal-Read neg s inside =
      Read-if
        (ltb 0 (length (dec_run s))
          && leb (length (dec_run s)) 18
          && not (next_is b'_' (behind_dec_run s)))
        (Read-trans (behind_dec_run-IsRest s) (
          plain_end-Read neg (dec_run s) (behind_dec_run s)
            (subst (λ (t : Bytes). IsRest t top) (sym (dec_run-behind_dec_run s)) inside)))
        (Read-map (slow_PlainIn top s inside) (slow_decimal-Read neg s))

  radix_integer-Read : (radix : ℕ) (s : Bytes) → Read s (PlainIn top) (radix_integer radix s)
  unfolding radix_integer
  radix_integer-Read radix s =
      Read-bind (λ (buf : Bytes). in_range false (mag_from radix 0 buf)) (scan_run-Read radix s)
        (λ buf rest inside q. Read-trans inside (
          Read-map (slow_PlainIn top top (IsRest-refl top))
            (in_range-Read (length top) false (mag_from radix 0 buf) rest)))

  unsigned_number-Read :
      (signed_input neg : Bool) (s : Bytes)
      → IsRest s top
      → Read s (PlainIn top) (unsigned_number signed_input neg s)
  unfolding unsigned_number
  unsigned_number-Read signed_input neg [] inside = gives_up (IsRest-refl [])
  unsigned_number-Read signed_input neg (c ∷ s) inside =
      Read-if (c == b'i')
        (Read-bind (λ (_ : Unit {0}). ok (infinity neg)) (expect_word-Read (codes "inf") (c ∷ s))
          (λ _ rest e q. reads e tt))
        (Read-if (c == b'n')
          (Read-bind (λ (_ : Unit {0}). ok not_a_number) (expect_word-Read (codes "nan") (c ∷ s))
            (λ _ rest e q. reads e tt))
          (Read-if (not (is_dec c)) (gives_up (IsRest-refl (c ∷ s))) (
            Read-if (has_radix (c ∷ s))
              (Read-if signed_input (gives_up (IsRest-refl (c ∷ s))) (
                Read-trans (IsRest-drop 2 (c ∷ s))
                  (radix_integer-Read (radix_of (second_byte (c ∷ s))) (adv 2 (c ∷ s)))))
              (decimal-Read neg (c ∷ s) inside))))

-- The integer, or the integer part of a float.
pub parse_number-Read :
    (signed_input : Bool) (s : Bytes) → Read s (PlainIn s) (parse_number signed_input s)
unfolding parse_number
parse_number-Read signed_input s =
    Read-if signed_input
      (Read-trans (IsRest-drop 1 s)
        (unsigned_number-Read s true (next_is b'-' s) (adv 1 s) (IsRest-drop 1 s)))
      (unsigned_number-Read s false false s (IsRest-refl s))
