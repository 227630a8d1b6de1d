-- ===== src/Parse/Utf8/Valid.antt =====
-- What `validate_utf8` accepts, and where it reports the first error.
use Prim.Native.Nat.{bit_and}
use teptris.Base.{
  ℕ, ◌-◌, ◌≤◌, ◌<◌, Bool, true, List, [], ◌∷◌, ◌++◌, append-nil, append_assoc, none, some, ◌≡◌, ◌≢◌,
  ◌↔◌, inl, inr, refl, sym, ap, ◌∙◌, arith, Bytes, length, length-append, ltb, ◌==◌, ==_iff,
  Bool-cases, again, leave, Falls, run_inv, All,
}
use teptris.Parse.Position.{Position, position}
use teptris.Parse.Utf8.{
  utf8_put, word, high_bits, skip_words, utf8_at, utf8_turn, utf8_invalid, utf8_invalid_at,
  validate_utf8,
}
use teptris.Parse.Utf8.Sequences.{is_scalar, utf8_at-utf8_put, again-IsPut, point}
use teptris.Parse.Utf8.Words.{word_ascii}

abbrev pub is_byte : ℕ → Bool
is_byte c = ltb c 256

-- The UTF-8 text of a list of code points.
unfoldable pub encode : List ℕ → Bytes
encode [] = []
encode (cp ∷ cps) = utf8_put cp ++ encode cps

-- `s` is the text of some scalar values, followed by `rest`.
pub record Encoded (s rest : Bytes) : Type 0 where
  pub points : List ℕ
  pub scalars : All is_scalar points
  pub text : encode points ++ rest ≡ s

-- No scalar value's text begins `rest`.
abbrev pub Unreadable : Bytes → Type 0
Unreadable rest = (cp : ℕ) (t : Bytes) → is_scalar cp ≡ true → utf8_put cp ++ t ≢ rest

Encoded-nil : (s : Bytes) → Encoded s s
unfolding encode
Encoded-nil s = record { points = []; scalars = tt; text = refl }

Encoded-cons :
    (cp : ℕ) (u : Bytes) {s t : Bytes}
    → is_scalar cp ≡ true
    → utf8_put cp ++ u ≡ s
    → Encoded u t
    → Encoded s t
unfolding encode
Encoded-cons cp u {s} {t} h e k = record {
  points = cp ∷ k.points;
  scalars = (h, k.scalars);
  text = append_assoc (utf8_put cp) (encode k.points) t ∙ ap (λ v. utf8_put cp ++ v) k.text ∙ e;
}

All-drop : (a b : Bytes) → All is_byte (a ++ b) → All is_byte b
All-drop [] b h = h
All-drop (x ∷ a) b h = All-drop a b h.1

utf8_put_ascii : (c : ℕ) → c < 128 → utf8_put c ≡ c ∷ []
unfolding utf8_put
utf8_put_ascii c h = ground arith

Encoded-ascii : (c : ℕ) {s t : Bytes} → c < 128 → Encoded s t → Encoded (c ∷ s) t
Encoded-ascii c {s} h k = Encoded-cons c s (ground arith) (ap (λ v. v ++ s) (utf8_put_ascii c h)) k

skip_words-Encoded : (s : Bytes) → All is_byte s → Encoded s (skip_words s)
unfolding skip_words
skip_words-Encoded (a ∷ b ∷ c ∷ d ∷ e ∷ f ∷ g ∷ h ∷ s)
      (pa, (pb, (pc, (pd, (pe, (pf, (pg, (ph, ps)))))))) =
    elim (Bool-cases (bit_and (word a b c d e f g h) high_bits == 0)) [
      | inl z ↦ rw z (
          let (ha, hb, hc, hd, he, hf, hg, hh) =
            word_ascii a b c d e f g h (ground arith) (ground arith) (ground arith) (ground arith)
              (ground arith) (ground arith) (ground arith) (ground arith) ((==_iff _ 0).0 z) in
          Encoded-ascii a ha (
            Encoded-ascii b hb (
              Encoded-ascii c hc (
                Encoded-ascii d hd (
                  Encoded-ascii e he (
                    Encoded-ascii f hf
                      (Encoded-ascii g hg (Encoded-ascii h hh (skip_words-Encoded s ps)))))))))
      | inr z ↦ rw z (Encoded-nil _)
    ]
skip_words-Encoded s h = Encoded-nil s

skip_words-le : (s : Bytes) → length (skip_words s) ≤ length s
unfolding skip_words
skip_words-le (a ∷ b ∷ c ∷ d ∷ e ∷ f ∷ g ∷ h ∷ s) = ground (arith, skip_words-le s)
skip_words-le s = omega arith

utf8_put_pos : (cp : ℕ) → 0 < length (utf8_put cp)
unfolding utf8_put
utf8_put_pos cp = ground arith

again-lt : (s t : Bytes) → utf8_at s ≡ again t → length t < length s
again-lt s t h =
    let (_, e) = again-IsPut s t h in
    omega (
      arith,
      utf8_put_pos (point s),
      length-append (utf8_put (point s)) t,
      ap (λ (v : Bytes). length v) e,
    )

utf8_turn-Falls : Falls (0xFF ∷ []) utf8_turn length
unfolding utf8_turn
utf8_turn-Falls s t h = omega (arith, skip_words-le s, again-lt (skip_words s) t h)

leave_lem : (s r : Bytes) → utf8_at s ≡ leave r → r ≡ s
unfolding utf8_at
leave_lem [] r h = ground arith
leave_lem (c ∷ []) r h = ground arith
leave_lem (c ∷ x ∷ []) r h = ground arith
leave_lem (c ∷ x ∷ y ∷ []) r h = ground arith
leave_lem (c ∷ x ∷ y ∷ z ∷ s) r h = ground arith

utf8_at-leave : (s r : Bytes) → utf8_at s ≡ leave r → Unreadable r
utf8_at-leave s r h cp t scalar e =
    let reads : utf8_at r ≡ again t = rw (← e) (utf8_at-utf8_put cp t scalar) in
    let stops : utf8_at r ≡ leave r = ap utf8_at (leave_lem s r h) ∙ h in cc

Encoded-append :
    (cps : List ℕ) (t : Bytes) {u : Bytes}
    → All is_scalar cps
    → Encoded t u
    → Encoded (encode cps ++ t) u
unfolding encode
Encoded-append [] t h k = k
Encoded-append (cp ∷ cps) t h k =
    Encoded-cons cp (encode cps ++ t) h.0 (sym (append_assoc (utf8_put cp) (encode cps) t))
      (Encoded-append cps t h.1 k)

Encoded-trans : {s t u : Bytes} → Encoded s t → Encoded t u → Encoded s u
Encoded-trans {s} {t} {u} h k = rw h.text at (Encoded-append h.points t h.scalars k)

Encoded-All : {s t : Bytes} → Encoded s t → All is_byte s → All is_byte t
Encoded-All {s} {t} h b = All-drop (encode h.points) t (rw h.text b)

abbrev Stops : Bytes → Bytes → Type 0
Stops s r = All is_byte s → Encoded s r × Unreadable r

Stops-leave : (s r : Bytes) → utf8_turn s ≡ leave r → Stops s r
unfolding utf8_turn
Stops-leave s r e b =
    (rw (leave_lem (skip_words s) r e) (skip_words-Encoded s b), utf8_at-leave (skip_words s) r e)

Stops-again : (s t r : Bytes) → utf8_turn s ≡ again t → Stops t r → Stops s r
unfolding utf8_turn
Stops-again s t r e h b =
    let words = skip_words-Encoded s b in
    let (scalar, text) = again-IsPut (skip_words s) t e in
    let reach =
      Encoded-trans words (Encoded-cons (point (skip_words s)) t scalar text (Encoded-nil t)) in
    let (rest, stop) = h (Encoded-All reach b) in (Encoded-trans reach rest, stop)

-- `utf8_invalid_at` reads scalar values, eight ASCII bytes at a time where it can, and stops at the
-- first byte where none is encoded.
utf8_invalid-Stops : (s : Bytes) → Stops s (utf8_invalid s)
unfolding utf8_invalid
utf8_invalid-Stops =
    run_inv (0xFF ∷ []) utf8_turn length Stops utf8_turn-Falls Stops-leave Stops-again

-- Two ways to read one text agree.
Encoded-Unreadable :
    (cps dps : List ℕ) (r : Bytes)
    → All is_scalar cps
    → All is_scalar dps
    → Unreadable r
    → encode cps ++ r ≡ encode dps
    → r ≡ []
unfolding encode
Encoded-Unreadable [] [] r h k stop e = e
Encoded-Unreadable [] (d ∷ dps) r h k stop e = absurd (stop d (encode dps) k.0 (sym e))
Encoded-Unreadable (c ∷ cps) [] r h k stop e = absurd (
    omega (
      arith,
      utf8_put_pos c,
      length-append (utf8_put c) (encode cps),
      length-append (utf8_put c ++ encode cps) r,
      ap (λ (v : Bytes). length v) e,
    ))
Encoded-Unreadable (c ∷ cps) (d ∷ dps) r h k stop e =
    let one = utf8_at-utf8_put c (encode cps ++ r) h.0 in
    let two = utf8_at-utf8_put d (encode dps) k.0 in
    let whole = sym (append_assoc (utf8_put c) (encode cps) r) ∙ e in
    let same : encode cps ++ r ≡ encode dps = cc (ap utf8_at whole) in
    Encoded-Unreadable cps dps r h.1 k.1 stop same

utf8_invalid-le : (s : Bytes) → All is_byte s → length (utf8_invalid s) ≤ length s
utf8_invalid-le s b =
    let (h, _) = utf8_invalid-Stops s b in
    omega
      (arith, ap (λ (v : Bytes). length v) h.text, length-append (encode h.points) (utf8_invalid s))

length-zero : (s : Bytes) → length s ≡ 0 → s ≡ []
length-zero [] h = refl
length-zero (c ∷ s) h = absurd (omega arith)

-- `s` is the UTF-8 text of some scalar values.
abbrev pub IsUtf8 : Bytes → Type 0
IsUtf8 s = Encoded s []

ends→none : (s : Bytes) → utf8_invalid s ≡ [] → validate_utf8 s ≡ none
unfolding validate_utf8 utf8_invalid_at
ends→none s e = rw e (ground arith)

stops→some :
    (s : Bytes) {p : Position}
    → All is_byte s
    → validate_utf8 s ≡ some p
    → (utf8_invalid s ≢ []) × (p ≡ position s (length s - length (utf8_invalid s)))
unfolding validate_utf8 utf8_invalid_at
stops→some s b e = (λ z. cc (ends→none s z, e), ground arith)

none→ends : (s : Bytes) → All is_byte s → validate_utf8 s ≡ none → utf8_invalid s ≡ []
unfolding validate_utf8 utf8_invalid_at
none→ends s b e = length-zero (utf8_invalid s) (ground (arith, utf8_invalid-le s b))

-- `validate_utf8` succeeds exactly on the texts that `utf8_put` writes for Unicode scalar values.
pub validate_utf8_iff : (s : Bytes) → All is_byte s → (validate_utf8 s ≡ none) ↔ IsUtf8 s
validate_utf8_iff s b =
    let (h, stop) = utf8_invalid-Stops s b in
    (
      λ e. rw (none→ends s b e) at h,
      λ k. ends→none s (
          Encoded-Unreadable h.points k.points (utf8_invalid s) h.scalars k.scalars stop
            (h.text ∙ sym k.text ∙ append-nil (encode k.points))),
    )

-- Where `validate_utf8` fails, the position that it reports is behind a prefix that is UTF-8, and no
-- scalar value can be read from the bytes that follow, of which there are some.
pub validate_utf8-position :
    (s : Bytes) {p : Position}
    → All is_byte s
    → validate_utf8 s ≡ some p
    → (before : Bytes) × (rest : Bytes) × (before ++ rest ≡ s)
      × IsUtf8 before
      × Unreadable rest
      × (rest ≢ [])
      × (p ≡ position s (length before))
validate_utf8-position s {p} b e =
    let (h, stop) = utf8_invalid-Stops s b in
    let (some_left, where_is) = stops→some s b e in
    let k : length s - length (utf8_invalid s) ≡ length (encode h.points) = omega (
      arith,
      ap (λ (v : Bytes). length v) h.text,
      length-append (encode h.points) (utf8_invalid s),
    ) in
    (
      encode h.points,
      utf8_invalid s,
      h.text,
      record { points = h.points; scalars = h.scalars; text = append-nil (encode h.points) },
      stop,
      some_left,
      where_is ∙ ap (position s) k,
    )
