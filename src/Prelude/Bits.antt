-- ===== src/Prelude/Bits.antt =====
-- The bitwise or: its lowest digit, that it loses no digit, and that of separate fields it is a sum.
use Prim.Native.Nat.{
  ℕ, zero, suc, ◌+◌, ◌*◌, ◌/◌, ◌%◌, ◌^◌, ◌≤◌, ◌<◌, max, digits, bit_or, bit_or-bitwise,
}
use mathlib.Core.Path.{◌≡◌, refl, ap}
use native.Mathlib.Nat.{pow-suc}
use native.Mathlib.Omega.{arith}

abbrev or_digits : ℕ → ℕ → ℕ → ℕ
or_digits = digits (λ y. y) max

-- Any two counts that are large enough give the same digits.
or_digits_enough : (i j a b : ℕ) → a ≤ i → a ≤ j → or_digits i a b ≡ or_digits j a b
or_digits_enough zero zero a b low high = refl
or_digits_enough zero (suc j) zero b low high = refl
or_digits_enough (suc i) zero zero b low high = refl
or_digits_enough (suc i) (suc j) zero b low high = refl
or_digits_enough zero j (suc a) b low high = absurd (omega arith)
or_digits_enough (suc i) zero (suc a) b low high = absurd (omega arith)
or_digits_enough (suc i) (suc j) (suc a) b low high =
    rw (or_digits_enough i j (suc a / 2) (b / 2) (omega arith) (omega arith))

pub bit_or_low : (a b : ℕ) → bit_or a b ≡ max (a % 2) (b % 2) + 2 * bit_or (a / 2) (b / 2)
bit_or_low zero b = simp bit_or-bitwise (omega arith)
bit_or_low (suc a) b =
    let same = or_digits_enough a (suc a / 2) (suc a / 2) (b / 2) (omega arith) (omega arith) in
    simp bit_or-bitwise (omega (arith, same))

bit_or-ge-upto : (n a b : ℕ) → a ≤ n → (a ≤ bit_or a b) × (b ≤ bit_or a b)
bit_or-ge-upto n zero b h = simp bit_or-bitwise (omega arith, omega arith)
bit_or-ge-upto zero (suc a) b h = absurd (omega arith)
bit_or-ge-upto (suc n) (suc a) b h =
    let half = bit_or-ge-upto n (suc a / 2) (b / 2) (omega arith) in
    let low = bit_or_low (suc a) b in (omega (arith, half.0, low), omega (arith, half.1, low))

-- A digit of either number is one of the result.
pub bit_or-ge : (a b : ℕ) → (a ≤ bit_or a b) × (b ≤ bit_or a b)
bit_or-ge a b = bit_or-ge-upto a a b (omega arith)

bit_or_zero-upto : (n a : ℕ) → a ≤ n → bit_or a 0 ≡ a
bit_or_zero-upto n zero h = refl
bit_or_zero-upto zero (suc a) h = absurd (omega arith)
bit_or_zero-upto (suc n) (suc a) h =
    omega (arith, bit_or_low (suc a) 0, bit_or_zero-upto n (suc a / 2) (omega arith))

pub bit_or_zero : (a : ℕ) → bit_or a 0 ≡ a
bit_or_zero a = bit_or_zero-upto a a (omega arith)

-- The digits from the k-th on and those below it do not meet.
pub bit_or_split :
    (k a r b s : ℕ)
    → r < 2 ^ k
    → s < 2 ^ k
    → bit_or (a * 2 ^ k + r) (b * 2 ^ k + s) ≡ bit_or a b * 2 ^ k + bit_or r s
bit_or_split zero a r b s low low' =
    let r0 : r ≡ 0 = omega arith in
    let s0 : s ≡ 0 = omega arith in ground (arith, r0, s0, bit_or_zero 0)
bit_or_split (suc k) a r b s low low' =
    let doubled = λ (t : ℕ). ap (λ (u : ℕ). t * u) (pow-suc 2 k) in
    ground (
      arith,
      bit_or_low (a * 2 ^ suc k + r) (b * 2 ^ suc k + s),
      bit_or_low r s,
      doubled a,
      doubled b,
      doubled (bit_or a b),
      bit_or_split k a (r / 2) b (s / 2) (omega (arith, pow-suc 2 k)) (omega (arith, pow-suc 2 k)),
    )

-- Fields that do not share a bit: the lower has k bits and the upper is above them.
pub bit_or_above :
    (k upper lower : ℕ) → lower < 2 ^ k → bit_or (upper * 2 ^ k) lower ≡ upper * 2 ^ k + lower
bit_or_above zero upper lower fits = ground (arith, bit_or_zero upper)
bit_or_above (suc k) upper lower fits =
    let doubled : upper * 2 ^ suc k ≡ upper * (2 ^ k * 2) =
      ap (λ (t : ℕ). upper * t) (pow-suc 2 k) in
    ground (
      arith,
      bit_or_low (upper * 2 ^ suc k) lower,
      doubled,
      bit_or_above k upper (lower / 2) (omega (arith, pow-suc 2 k)),
    )

pub bit_or_zero_left : (b : ℕ) → bit_or 0 b ≡ b
bit_or_zero_left b = simp bit_or-bitwise refl
