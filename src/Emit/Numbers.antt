-- ===== src/Emit/Numbers.antt =====
-- src/teptris/emit/emit_shared.h: emit_i64.
pub mod RoundTrip
use teptris.Base.{
  ℕ, suc, zero, ◌+◌, ◌*◌, ◌/◌, ◌%◌, Bool, [], ◌∷◌, Bytes, ◌==◌, if◌then◌else◌, ℤ, pos, negsuc,
}

-- The `do` loop, which writes from the back: `tail` is what it has written. The fuel is the number of
-- digits that it may write; 20 are enough for any 64 bits.
unfoldable pub digits : ℕ → ℕ → Bytes → Bytes
digits zero mag tail = tail
digits (suc fuel) mag tail =
    let rest = digits fuel (mag / 10) ((b'0' + mag % 10) ∷ tail) in
    if mag / 10 == 0 then (b'0' + mag % 10) ∷ tail else rest

unfoldable pub emit_i64 : ℤ → Bytes
emit_i64 (pos n) = digits 20 n []
emit_i64 (negsuc n) = b'-' ∷ digits 20 (n + 1) []
