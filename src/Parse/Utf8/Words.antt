-- ===== src/Parse/Utf8/Words.antt =====
-- The eight-byte test of `utf8_invalid_at` is true of ASCII words only.
use Prim.Native.Nat.{digits, bit_and, bit_and-bitwise, min}
use teptris.Base.{ℕ, zero, suc, ◌+◌, ◌*◌, ◌/◌, ◌%◌, ◌≤◌, ◌<◌, ◌≡◌, refl, arith}
use teptris.Parse.Utf8.{word, high_bits}

abbrev ands : ℕ → ℕ → ℕ → ℕ
ands fuel a b = digits (λ _. zero) min fuel a b

-- Fuel beyond the first number changes nothing.
ands_fuel : (a b f g : ℕ) → a ≤ f → a ≤ g → ands f a b ≡ ands g a b
ands_fuel a b zero zero h k = refl
ands_fuel zero b zero (suc g) h k = refl
ands_fuel (suc a) b zero (suc g) h k = absurd (omega arith)
ands_fuel zero b (suc f) zero h k = refl
ands_fuel (suc a) b (suc f) zero h k = absurd (omega arith)
ands_fuel zero b (suc f) (suc g) h k = refl
ands_fuel (suc a) b (suc f) (suc g) h k =
    let half = ands_fuel (suc a / 2) (b / 2) f g (omega arith) (omega arith) in omega (arith, half)

bit_and_halves : (a b : ℕ) → bit_and a b ≡ bit_and (a / 2) (b / 2) * 2 + min (a % 2) (b % 2)
bit_and_halves zero b = omega (arith, bit_and-bitwise 0 b, bit_and-bitwise 0 (b / 2))
bit_and_halves (suc a) b =
    let deep = ands_fuel (suc a / 2) (b / 2) a (suc a / 2) (omega arith) (omega arith) in
    omega (arith, bit_and-bitwise (suc a) b, bit_and-bitwise (suc a / 2) (b / 2), deep)

even : (x y m : ℕ) → y ≡ 2 * m → bit_and x y ≡ bit_and (x / 2) m * 2
even x y m e =
    let half : y / 2 ≡ m = omega arith in
    let h = rw half at (bit_and_halves x y) in omega (arith, h)

odd : (x y m : ℕ) → y ≡ 2 * m + 1 → bit_and x y ≡ bit_and (x / 2) m * 2 + x % 2
odd x y m e =
    let half : y / 2 ≡ m = omega arith in
    let h = rw half at (bit_and_halves x y) in omega (arith, h)

-- The high bit of the lowest byte, and the rest of the mask.
high_bit :
    (x y m : ℕ) → y ≡ 128 + 256 * m → bit_and x y ≡ bit_and (x / 256) m * 256 + x / 128 % 2 * 128
high_bit x y m e =
    let e0 = even x y (64 + 128 * m) (omega arith) in
    let e1 = even (x / 2) (64 + 128 * m) (32 + 64 * m) (omega arith) in
    let e2 = even (x / 2 / 2) (32 + 64 * m) (16 + 32 * m) (omega arith) in
    let e3 = even (x / 2 / 2 / 2) (16 + 32 * m) (8 + 16 * m) (omega arith) in
    let e4 = even (x / 2 / 2 / 2 / 2) (8 + 16 * m) (4 + 8 * m) (omega arith) in
    let e5 = even (x / 2 / 2 / 2 / 2 / 2) (4 + 8 * m) (2 + 4 * m) (omega arith) in
    let e6 = even (x / 2 / 2 / 2 / 2 / 2 / 2) (2 + 4 * m) (1 + 2 * m) (omega arith) in
    let e7 = odd (x / 2 / 2 / 2 / 2 / 2 / 2 / 2) (1 + 2 * m) m (omega arith) in
    let q : x / 2 / 2 / 2 / 2 / 2 / 2 / 2 / 2 ≡ x / 256 = omega arith in
    let e8 = rw q at e7 in omega (arith, e0, e1, e2, e3, e4, e5, e6, e8)

-- One byte in front of a word.
ascii_byte :
    (a r y m : ℕ)
    → a < 256
    → y ≡ 128 + 256 * m
    → bit_and (a + 256 * r) y ≡ 0
    → (a < 128) × (bit_and r m ≡ 0)
ascii_byte a r y m h e z =
    let q : (a + 256 * r) / 256 ≡ r = omega arith in
    let k = rw q at (high_bit (a + 256 * r) y m e) in (omega (arith, k), omega (arith, k))

pub word_ascii :
    (a b c d e f g h : ℕ)
    → a < 256
    → b < 256
    → c < 256
    → d < 256
    → e < 256
    → f < 256
    → g < 256
    → h < 256
    → bit_and (word a b c d e f g h) high_bits ≡ 0
    → (a < 128) × (b < 128) × (c < 128) × (d < 128) × (e < 128) × (f < 128) × (g < 128) × (h < 128)
word_ascii a b c d e f g h pa pb pc pd pe pf pg ph z0 =
    let (ha, z1) = ascii_byte a _ high_bits 0x80808080808080 pa refl z0 in
    let (hb, z2) = ascii_byte b _ 0x80808080808080 0x808080808080 pb refl z1 in
    let (hc, z3) = ascii_byte c _ 0x808080808080 0x8080808080 pc refl z2 in
    let (hd, z4) = ascii_byte d _ 0x8080808080 0x80808080 pd refl z3 in
    let (he, z5) = ascii_byte e _ 0x80808080 0x808080 pe refl z4 in
    let (hf, z6) = ascii_byte f _ 0x808080 0x8080 pf refl z5 in
    let (hg, z7) = ascii_byte g h 0x8080 0x80 pg refl z6 in
    let q : h + 256 * 0 ≡ h = omega arith in
    let last = ascii_byte h 0 0x80 0 ph refl (rw q z7) in (ha, hb, hc, hd, he, hf, hg, last.0)
