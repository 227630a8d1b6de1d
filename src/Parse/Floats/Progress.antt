-- ===== src/Parse/Floats/Progress.antt =====
-- teptris_parse_number ends on floats too, with the cursor inside the buffer, or the text is long
-- enough to overrun `fbuf`.
use teptris.Base.{
  ◌+◌, ◌||◌, arith, length-append, Bool-cases, inl, inr, ℕ, Bool, true, false, not, ◌&&◌, [], ◌∷◌,
  ◌++◌, Option, none, some, Bytes, length, ltb, ◌==◌, if◌then◌else◌, refl,
}
use teptris.Parse.Cursor.{adv, next_is}
use teptris.Parse.Floats.{
  Doubles, Numeric, float, filled, Peek, digits_there, peek_fraction, is_sign, behind_sign,
  has_exponent, peek_exponent, is_exact, text_of, fbuf_size, copy_digits, sign_of, copy_fraction,
  copy_exponent, scan_fraction, scan_exponent, minus_sign, slow_tail, slow_number, restart,
  exponent_done, fraction_done, copied, peeked, peek, plain_tail, number_value, number,
}
use teptris.Parse.Numbers.{
  Number, integer, infinity, not_a_number, plain_float, slow_float, dec_run, wrapping,
}
use teptris.Parse.Numbers.Progress.{
  here, Copied, either, scan_run-Read, IsSlow, PlainIn, slow_decimal-Read, behind_dec_run-IsRest,
  parse_number-Read,
}
use teptris.Parse.Result.{
  Result, ok, ◌>>=◌, IsRest, IsRest-refl, IsRest-trans, IsRest-drop, Read, reads, gives_up,
  overruns, Any, Read-if, Read-trans, Read-bind,
}

behind_sign-IsRest : (s : Bytes) → IsRest (behind_sign s) s
behind_sign-IsRest s = either (is_sign s) (IsRest-drop 1 s) (IsRest-refl s)

copy_digits-Read : (room : ℕ) (fbuf s : Bytes) → Read s Any (copy_digits room fbuf s)
unfolding copy_digits
copy_digits-Read room fbuf s =
    Read-if (length (dec_run s) == 0) (gives_up (IsRest-refl s))
      (reads (behind_dec_run-IsRest s) tt)

copy_fraction-Read : (fbuf s : Bytes) → Read s Any (copy_fraction fbuf s)
unfolding copy_fraction
copy_fraction-Read fbuf s =
    Read-if (next_is b'.' s)
      (Read-trans (IsRest-drop 1 s) (
        Read-bind (λ (b : Bytes) s'. ok (if next_is b'_' s' then none else some b) s')
          (copy_digits-Read 24 (fbuf ++ b'.' ∷ []) (adv 1 s)) (λ b rest inside q. reads inside tt)))
      (here tt)

copy_exponent-Read : (fbuf s : Bytes) → Read s Any (copy_exponent fbuf s)
unfolding copy_exponent
copy_exponent-Read fbuf s =
    Read-if (has_exponent s)
      (Read-trans (IsRest-trans (behind_sign-IsRest (adv 1 s)) (IsRest-drop 1 s)) (
        Read-bind (λ (b : Bytes) s'. ok (if next_is b'_' s' then none else some b) s')
          (copy_digits-Read 8 (fbuf ++ b'e' ∷ sign_of (adv 1 s)) (behind_sign (adv 1 s)))
          (λ b rest inside q. reads inside tt)))
      (here tt)

-- All that is copied into `fbuf` comes from the text.
scan_fraction-Read :
    (n : ℕ) (fbuf s : Bytes) → Copied n fbuf s → Read s (Copied n) (scan_fraction fbuf s)
unfolding scan_fraction
scan_fraction-Read n fbuf [] h = here h
scan_fraction-Read n fbuf (c ∷ s) h =
    Read-if (c == b'.')
      (Read-trans (IsRest-drop 1 (c ∷ s)) (
        Read-bind (λ (frac : Bytes). ok (fbuf ++ b'.' ∷ frac)) (scan_run-Read 10 s)
          (λ frac rest inside q.
            reads inside (omega (arith, h, q, length-append fbuf (b'.' ∷ frac))))))
      (here h)

sign_of-Copied : (s : Bytes) → Copied (length s) (sign_of s) (behind_sign s)
sign_of-Copied [] = omega arith
sign_of-Copied (c ∷ s) = elim (Bool-cases (c == b'+' || c == b'-')) [
  | inl e ↦ rw e (omega arith)
  | inr e ↦ rw e (omega arith)
]

scan_exponent-Read :
    (n : ℕ) (fbuf s : Bytes) → Copied n fbuf s → Read s (Copied n) (scan_exponent fbuf s)
unfolding scan_exponent
scan_exponent-Read n fbuf [] h = here h
scan_exponent-Read n fbuf (c ∷ s) h =
    Read-if (c == b'e' || c == b'E')
      (Read-trans (IsRest-trans (behind_sign-IsRest s) (IsRest-drop 1 (c ∷ s))) (
        Read-bind (λ (ex : Bytes). ok (fbuf ++ b'e' ∷ (sign_of s ++ ex)))
          (scan_run-Read 10 (behind_sign s))
          (λ ex rest inside q. reads inside (
            omega (
              arith,
              h,
              q,
              sign_of-Copied s,
              length-append fbuf (b'e' ∷ (sign_of s ++ ex)),
              length-append (sign_of s) ex,
            )))))
      (here h)

-- What the zero-copy path sees ends inside the buffer.
data Seen (s : Bytes) : Option Peek → Type 0 where
  blind : Seen s none
  sees : {k : Peek} → IsRest k.q s → Seen s (some k)

Seen-if :
    {s : Bytes} {x y : Option Peek} (b : Bool) → Seen s x → Seen s y → Seen s (if b then x else y)
Seen-if true h k = h
Seen-if false h k = k

peek_fraction-Seen : (mag : ℕ) (s : Bytes) → Seen s (peek_fraction mag s)
unfolding peek_fraction
peek_fraction-Seen mag s =
    Seen-if (next_is b'.' s)
      (Seen-if (digits_there (adv 1 s))
        (sees (IsRest-trans (behind_dec_run-IsRest (adv 1 s)) (IsRest-drop 1 s))) blind)
      (sees (IsRest-refl s))

peek_exponent-Seen : (k : Peek) (s : Bytes) → IsRest k.q s → Seen s (peek_exponent k)
unfolding peek_exponent
peek_exponent-Seen k s h =
    let behind = behind_sign (adv 1 k.q) in
    let inside =
      IsRest-trans (behind_dec_run-IsRest behind)
        (IsRest-trans (behind_sign-IsRest (adv 1 k.q)) (IsRest-trans (IsRest-drop 1 k.q) h)) in
    Seen-if (has_exponent k.q) (Seen-if (digits_there behind) (sees inside) blind) (sees h)

both :
    {s : Bytes} {o : Option Peek}
    → Seen s o
    → Seen s (elim o [ none ↦ none | some k ↦ peek_exponent k ])
both blind = blind
both {s = s} (sees {k} h) = peek_exponent-Seen k s h

peek-Seen : (digits s : Bytes) → Seen s (peek digits s)
peek-Seen digits s = both (peek_fraction-Seen (wrapping 0 digits) s)

module _ {D : Type 0} (c : Doubles D) where
  -- The sign is not of the text `t`.
  filled-Read :
      (fbuf s t : Bytes) → IsRest s t → Copied (1 + length t) fbuf s → Read t Any (filled c fbuf s)
  filled-Read fbuf s t inside h = elim (Bool-cases (ltb (length fbuf) fbuf_size)) [
    | inl fits ↦ rw fits (reads inside tt)
    | inr full ↦ rw full (overruns (ground arith))
  ]

  minus_sign-Copied :
      (n : ℕ) (neg : Bool) (buf s : Bytes)
      → Copied n buf s
      → Copied (1 + n) (minus_sign neg ++ buf) s
  minus_sign-Copied n true buf s h = omega arith
  minus_sign-Copied n false buf s h = omega arith

  slow_tail-Read :
      (neg : Bool) (buf s t : Bytes)
      → IsRest s t
      → Copied (length t) buf s
      → Read t Any (slow_tail c neg buf s)
  unfolding slow_tail
  slow_tail-Read neg buf s t inside h =
      let n = 1 + length t in
      Read-bind (λ fbuf. scan_exponent fbuf >>= filled c)
        (Read-trans inside (
          scan_fraction-Read n (minus_sign neg ++ buf) s
            (minus_sign-Copied (length t) neg buf s h)))
        (λ fbuf rest inside' q.
          Read-bind (filled c) (Read-trans inside' (scan_exponent-Read n fbuf rest q))
            (λ fbuf' rest' inside'' q'. filled-Read fbuf' rest' t inside'' q'))

  slow_number-Read :
      (neg : Bool) (n : Number) (s t : Bytes)
      → IsRest s t
      → IsSlow (length t) n s
      → Read t Any (slow_number c neg n s)
  slow_number-Read neg (integer i) s t inside q = reads inside tt
  slow_number-Read neg (slow_float buf) s t inside q = slow_tail-Read neg buf s t inside q
  slow_number-Read neg (plain_float digits) s t inside q = absurd q
  slow_number-Read neg (infinity n) s t inside q = absurd q
  slow_number-Read neg not_a_number s t inside q = absurd q

  restart-Read : (neg : Bool) (digits s : Bytes) → Read (digits ++ s) Any (restart c neg digits s)
  unfolding restart
  restart-Read neg digits s =
      Read-bind (slow_number c neg) (slow_decimal-Read neg (digits ++ s))
        (λ n rest inside q. slow_number-Read neg n rest (digits ++ s) inside q)

  exponent_done-Read :
      (neg : Bool) (digits s : Bytes) (o : Option Bytes) (s' : Bytes)
      → IsRest s' (digits ++ s)
      → Read (digits ++ s) Any (exponent_done c neg digits s o s')
  exponent_done-Read neg digits s none s' inside = restart-Read neg digits s
  exponent_done-Read neg digits s (some fbuf) s' inside = reads inside tt

  fraction_done-Read :
      (neg : Bool) (digits s : Bytes) (o : Option Bytes) (s' : Bytes)
      → IsRest s' (digits ++ s)
      → Read (digits ++ s) Any (fraction_done c neg digits s o s')
  fraction_done-Read neg digits s none s' inside = restart-Read neg digits s
  fraction_done-Read neg digits s (some fbuf) s' inside =
      Read-bind (exponent_done c neg digits s) (Read-trans inside (copy_exponent-Read fbuf s'))
        (λ o rest within q. exponent_done-Read neg digits s o rest within)

  copied-Read : (neg : Bool) (digits s : Bytes) → Read (digits ++ s) Any (copied c neg digits s)
  unfolding copied
  copied-Read neg digits s =
      let within : IsRest s (digits ++ s) = record { read = digits; splits = refl } in
      Read-bind (fraction_done c neg digits s)
        (Read-trans within (copy_fraction-Read (minus_sign neg ++ digits) s))
        (λ o rest inside q. fraction_done-Read neg digits s o rest inside)

  converted :
      {s q : Bytes} {r : Result (Numeric D)} (o : Option D)
      → Read s Any r
      → IsRest q s
      → Read s Any (elim o [ none ↦ r | some d ↦ ok (float d) q ])
  converted none h inside = h
  converted (some d) h inside = reads inside tt

  peeked-Read :
      (neg : Bool) (digits s : Bytes) (o : Option Peek)
      → Seen s o
      → Read (digits ++ s) Any (peeked c neg digits s o)
  peeked-Read neg digits s _ blind = copied-Read neg digits s
  peeked-Read neg digits s _ (sees {k} h) =
      let inside : IsRest k.q (digits ++ s) =
        IsRest-trans h (record { read = digits; splits = refl }) in
      Read-if (is_exact (length digits) k) (reads inside tt) (
        converted (c.s2d (text_of (minus_sign neg ++ (digits ++ s)) k.q)) (copied-Read neg digits s)
          inside)

  number_value-Read :
      (s : Bytes) (signed_input neg : Bool) (n : Number) (rest : Bytes)
      → IsRest rest s
      → PlainIn s n rest
      → Read s Any (number_value c signed_input neg n rest)
  unfolding plain_tail
  number_value-Read s signed_input neg (integer i) rest inside q = reads inside tt
  number_value-Read s signed_input neg (infinity n) rest inside q = reads inside tt
  number_value-Read s signed_input neg not_a_number rest inside q = reads inside tt
  number_value-Read s signed_input neg (slow_float buf) rest inside q =
      slow_tail-Read neg buf rest s inside q
  number_value-Read s signed_input neg (plain_float digits) rest inside q = Read-trans q (
      Read-if (signed_input && not neg) (copied-Read neg digits rest)
        (peeked-Read neg digits rest (peek digits rest) (peek-Seen digits rest)))

  -- On success, what follows the number is left.
  pub number-Read : (signed_input : Bool) (s : Bytes) → Read s Any (number c signed_input s)
  unfolding number
  number-Read signed_input s =
      Read-bind (number_value c signed_input (signed_input && next_is b'-' s))
        (parse_number-Read signed_input s)
        (λ n rest inside q.
          number_value-Read s signed_input (signed_input && next_is b'-' s) n rest inside q)
