-- ===== src/Emit/Buffer.antt =====
-- src/teptris/emit/emit_shared.h: ebuf, the buffer that both emitters write to. `size_t` has 64 bits,
-- and its sums and products wrap as written. `realloc` is a parameter that says which sizes it grants.
pub mod Growth
use teptris.Base.{
  ℕ, zero, suc, ◌+◌, ◌*◌, ◌%◌, Bool, true, false, not, ◌&&◌, [], ◌∷◌, ◌++◌, Option, none, some,
  Bytes, codes, length, ltb, leb, ◌==◌, if◌then◌else◌,
}
use teptris.Memory.Arena.{size_range}

-- `text` is the `len` bytes at `p`; where `failed` (`st` is TEPTRIS_ERR_ALLOC), `p` is NULL and only
-- the length of `text` has a meaning.
pub record Ebuf : Type 0 where
  pub text : Bytes
  pub cap : ℕ
  pub failed : Bool

-- `b->len + extra + 1`
abbrev pub need : ℕ → Ebuf → ℕ
need extra b = (length b.text + extra + 1) % size_range

-- The loop that doubles the size; `none` where the fuel does not suffice.
unfoldable pub doubled : ℕ → ℕ → ℕ → Option ℕ
doubled zero wanted ncap = if ltb ncap wanted then none else some ncap
doubled (suc fuel) wanted ncap =
    let next = doubled fuel wanted ((ncap * 2) % size_range) in
    if ltb ncap wanted then next else some ncap

abbrev pub first_cap : ℕ → ℕ
first_cap cap = if cap == 0 then 256 else cap

-- `realloc` to the new size.
abbrev pub grown : (ℕ → Bool) → Ebuf → ℕ → Ebuf
grown realloc b ncap = if realloc ncap then record b { cap = ncap } else record b { failed = true }

-- `none` where the loop does not end in 63 rounds.
unfoldable pub eb_reserve : (ℕ → Bool) → ℕ → Ebuf → Option Ebuf
unfolding doubled
eb_reserve realloc extra b =
    if b.failed
    then some b
    else if leb (need extra b) b.cap
    then some b
    else elim (doubled 63 (need extra b) (first_cap b.cap)) [
      | none ↦ none
      | some ncap ↦ some (grown realloc b ncap)
    ]

-- The copy to `b->p + b->len`.
abbrev pub append : Bytes → Ebuf → Ebuf
append s b = record b { text = b.text ++ s }

unfoldable pub eb_put : (ℕ → Bool) → Bytes → Ebuf → Option Ebuf
unfolding eb_reserve
eb_put realloc s b =
    if b.failed
    then some b
    else if leb (need (length s) b) b.cap
    then some (append s b)
    else elim (eb_reserve realloc (length s) b) [
      | none ↦ none
      | some b' ↦ some (if b'.failed then b' else append s b')
    ]

unfoldable pub eb_c : (ℕ → Bool) → ℕ → Ebuf → Option Ebuf
unfolding eb_put
eb_c realloc c b =
    if not b.failed && leb ((length b.text + 2) % size_range) b.cap
    then some (append (c ∷ []) b)
    else eb_put realloc (c ∷ []) b

unfoldable pub eb_sep2 : (ℕ → Bool) → Ebuf → Option Ebuf
unfolding eb_put
eb_sep2 realloc b =
    if not b.failed && leb ((length b.text + 3) % size_range) b.cap
    then some (append (codes ", ") b)
    else eb_put realloc (codes ", ") b
