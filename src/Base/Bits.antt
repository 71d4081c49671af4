-- ===== src/Base/Bits.antt =====
-- `&` and `|` at variables: the law of the lowest digit, and splitting at a digit.
use Prim.Native.Nat.{ℕ, zero, suc, ◌+◌, ◌-◌, ◌*◌, ◌/◌, ◌%◌, ◌^◌, ◌≤◌, ◌<◌, min, max}
use Prim.Native.Nat.{bit_and, bit_or, digits, bit_and-bitwise, bit_or-bitwise}
use mathlib.Core.Path.{◌≡◌, refl, ap, ap₂}
use native.Mathlib.Nat.{pow-suc, one-le-pow}
use native.Mathlib.Omega.{arith}

-- The recursion on binary digits behind both operations needs no more fuel than its argument.
module _ (end : ℕ → ℕ) (digit : ℕ → ℕ → ℕ) where
  enough_fuel : (f g a b : ℕ) → a ≤ f → a ≤ g → digits end digit f a b ≡ digits end digit g a b
  enough_fuel zero zero a b p q = refl
  enough_fuel f g zero b p q = at_zero f g
    where
      at_zero : (f g : ℕ) → digits end digit f zero b ≡ digits end digit g zero b
      at_zero zero zero = refl
      at_zero zero (suc g) = refl
      at_zero (suc f) zero = refl
      at_zero (suc f) (suc g) = refl
  enough_fuel zero (suc g) (suc a) b p q = absurd (omega arith)
  enough_fuel (suc f) zero (suc a) b p q = absurd (omega arith)
  enough_fuel (suc f) (suc g) (suc a) b p q =
      ap (λ (t : ℕ). t * 2 + digit (suc a % 2) (b % 2))
        (enough_fuel f g (suc a / 2) (b / 2) (omega arith) (omega arith))

pub bit_and_lowest : (a b : ℕ) → bit_and a b ≡ bit_and (a / 2) (b / 2) * 2 + min (a % 2) (b % 2)
bit_and_lowest zero b = omega (arith, bit_and-bitwise 0 b, bit_and-bitwise 0 (b / 2))
bit_and_lowest (suc a) b = omega (
  arith,
  bit_and-bitwise (suc a) b,
  bit_and-bitwise (suc a / 2) (b / 2),
  enough_fuel (λ _. 0) min a (suc a / 2) (suc a / 2) (b / 2) (omega arith) (omega arith),
)

pub bit_or_lowest : (a b : ℕ) → bit_or a b ≡ bit_or (a / 2) (b / 2) * 2 + max (a % 2) (b % 2)
bit_or_lowest zero b = omega (arith, bit_or-bitwise 0 b, bit_or-bitwise 0 (b / 2))
bit_or_lowest (suc a) b = omega (
  arith,
  bit_or-bitwise (suc a) b,
  bit_or-bitwise (suc a / 2) (b / 2),
  enough_fuel (λ t. t) max a (suc a / 2) (suc a / 2) (b / 2) (omega arith) (omega arith),
)

-- `x * 2 ^ k + y` one digit further up.
shifted_digit : (x k : ℕ) → x * 2 ^ suc k ≡ 2 * (x * 2 ^ k)
shifted_digit x k = omega (arith, ap (λ (t : ℕ). x * t) (pow-suc 2 k))

-- Both operations work on the digits above and below place `k` apart.
pub bit_and_split :
    (k q r p s : ℕ)
    → r < 2 ^ k
    → s < 2 ^ k
    → bit_and (q * 2 ^ k + r) (p * 2 ^ k + s) ≡ bit_and q p * 2 ^ k + bit_and r s
bit_and_split zero q r p s hr hs =
    let hr' : r ≡ 0 = omega arith in
    let hs' : s ≡ 0 = omega arith in
    let hq : q * 2 ^ 0 + r ≡ q = omega arith in
    let hp : p * 2 ^ 0 + s ≡ p = omega arith in rw (hq, hp, hr', hs') (omega arith)
bit_and_split (suc k) q r p s hr hs = omega (
  arith,
  bit_and_lowest (q * 2 ^ suc k + r) (p * 2 ^ suc k + s),
  bit_and_lowest r s,
  halves,
  ap (λ (t : ℕ). t * 2)
      (bit_and_split k q (r / 2) p (s / 2) (omega (arith, pow-suc 2 k))
        (omega (arith, pow-suc 2 k))),
  shifted_digit q k,
  shifted_digit p k,
  shifted_digit (bit_and q p) k,
)
  where
    halves :
        bit_and ((q * 2 ^ suc k + r) / 2) ((p * 2 ^ suc k + s) / 2)
        ≡ bit_and (q * 2 ^ k + r / 2) (p * 2 ^ k + s / 2)
    halves = ap₂ bit_and (omega (arith, shifted_digit q k)) (omega (arith, shifted_digit p k))

pub bit_or_split :
    (k q r p s : ℕ)
    → r < 2 ^ k
    → s < 2 ^ k
    → bit_or (q * 2 ^ k + r) (p * 2 ^ k + s) ≡ bit_or q p * 2 ^ k + bit_or r s
bit_or_split zero q r p s hr hs =
    let hr' : r ≡ 0 = omega arith in
    let hs' : s ≡ 0 = omega arith in
    let hq : q * 2 ^ 0 + r ≡ q = omega arith in
    let hp : p * 2 ^ 0 + s ≡ p = omega arith in rw (hq, hp, hr', hs') (omega arith)
bit_or_split (suc k) q r p s hr hs = omega (
  arith,
  bit_or_lowest (q * 2 ^ suc k + r) (p * 2 ^ suc k + s),
  bit_or_lowest r s,
  halves,
  ap (λ (t : ℕ). t * 2)
      (bit_or_split k q (r / 2) p (s / 2) (omega (arith, pow-suc 2 k))
        (omega (arith, pow-suc 2 k))),
  shifted_digit q k,
  shifted_digit p k,
  shifted_digit (bit_or q p) k,
)
  where
    halves :
        bit_or ((q * 2 ^ suc k + r) / 2) ((p * 2 ^ suc k + s) / 2)
        ≡ bit_or (q * 2 ^ k + r / 2) (p * 2 ^ k + s / 2)
    halves = ap₂ bit_or (omega (arith, shifted_digit q k)) (omega (arith, shifted_digit p k))

module _ where
  zero_fuel : (f a : ℕ) → a ≤ f → (bit_and a 0 ≡ 0) × (bit_or a 0 ≡ a)
  zero_fuel f zero h = (refl, refl)
  zero_fuel zero (suc a) h = absurd (omega arith)
  zero_fuel (suc f) (suc a) h = omega (
    arith,
    bit_and_lowest (suc a) 0,
    bit_or_lowest (suc a) 0,
    zero_fuel f (suc a / 2) (omega arith),
  )

pub bit_and-zero : (a : ℕ) → bit_and a 0 ≡ 0
bit_and-zero a = (zero_fuel a a (omega arith)).0

pub bit_or-zero : (a : ℕ) → bit_or a 0 ≡ a
bit_or-zero a = (zero_fuel a a (omega arith)).1

pub zero-bit_or : (a : ℕ) → bit_or 0 a ≡ a
zero-bit_or a = bit_or-bitwise 0 a

-- A mask of `k` low ones keeps what fits into it.
pub bit_and_ones : (k a : ℕ) → a < 2 ^ k → bit_and a (2 ^ k - 1) ≡ a
bit_and_ones zero a h = let e : a ≡ 0 = omega arith in rw e refl
bit_and_ones (suc k) a h = omega (
  arith,
  bit_and_lowest a (2 ^ suc k - 1),
  ap (λ (t : ℕ). bit_and (a / 2) t) below,
  bit_and_ones k (a / 2) (omega (arith, pow-suc 2 k)),
  pow-suc 2 k,
  one-le-pow k 2,
)
  where
    below : (2 ^ suc k - 1) / 2 ≡ 2 ^ k - 1
    below = omega (arith, pow-suc 2 k, one-le-pow k 2)

-- `|` of two numbers of `k` bits has `k` bits.
pub bit_or-lt : (k a b : ℕ) → a < 2 ^ k → b < 2 ^ k → bit_or a b < 2 ^ k
bit_or-lt zero a b ha hb =
    let ea : a ≡ 0 = omega arith in let eb : b ≡ 0 = omega arith in rw (ea, eb) (omega arith)
bit_or-lt (suc k) a b ha hb = omega (
  arith,
  bit_or_lowest a b,
  bit_or-lt k (a / 2) (b / 2) (omega (arith, pow-suc 2 k)) (omega (arith, pow-suc 2 k)),
  pow-suc 2 k,
)
