-- ===== src/Base/Bits.antt =====
-- The laws of `&` and `|` on unsigned words that the packing and the rights masks rest on.
use Prim.Native.Nat.{
  ℕ, zero, suc, ◌+◌, ◌*◌, ◌/◌, ◌%◌, ◌^◌, ◌≤◌, ◌<◌, ◌-◌, min, max, bit_and, bit_or, digits,
  bit_and-bitwise, bit_or-bitwise,
}
use mathlib.Core.Path.{◌≡◌, refl, ◌∙◌}
use native.Mathlib.Nat.{pow-suc}
use native.Mathlib.Omega.{arith}

-- `digits` reads one bit of its first number a round, so rounds beyond that number change nothing.
-- `base` is what it gives once the first number is used up, `op` what it does to two bits.
module _ (base : ℕ → ℕ) (op : ℕ → ℕ → ℕ) where
  digits_enough : (a b k l : ℕ) → a ≤ k → a ≤ l → digits base op k a b ≡ digits base op l a b
  digits_enough zero b zero zero h g = refl
  digits_enough zero b zero (suc l) h g = refl
  digits_enough zero b (suc k) zero h g = refl
  digits_enough zero b (suc k) (suc l) h g = refl
  digits_enough (suc a) b zero l h g = absurd (omega (arith, h))
  digits_enough (suc a) b (suc k) zero h g = absurd (omega (arith, g))
  digits_enough (suc a) b (suc k) (suc l) h g =
      let same = digits_enough (suc a / 2) (b / 2) k l (omega (arith, h)) (omega (arith, g)) in
      omega (arith, same)

pub zero-bit_and : (b : ℕ) → bit_and 0 b ≡ 0
zero-bit_and b = bit_and-bitwise zero b

-- The lowest bit of `&` apart from the bits above it, and the same for `|`.
pub bit_and-low_bit : (a b : ℕ) → bit_and a b ≡ min (a % 2) (b % 2) + 2 * bit_and (a / 2) (b / 2)
bit_and-low_bit zero b = omega (arith, zero-bit_and b, zero-bit_and (b / 2))
bit_and-low_bit (suc a) b =
    let half = suc a / 2 in
    let rounds = digits_enough (λ x. zero) min half (b / 2) a half (omega arith) (omega arith) in
    omega (arith, rounds, bit_and-bitwise (suc a) b, bit_and-bitwise half (b / 2))

zero-bit_or : (b : ℕ) → bit_or 0 b ≡ b
zero-bit_or b = bit_or-bitwise zero b

bit_or-low_bit : (a b : ℕ) → bit_or a b ≡ max (a % 2) (b % 2) + 2 * bit_or (a / 2) (b / 2)
bit_or-low_bit zero b = omega (arith, zero-bit_or b, zero-bit_or (b / 2))
bit_or-low_bit (suc a) b =
    let half = suc a / 2 in
    let rounds = digits_enough (λ x. x) max half (b / 2) a half (omega arith) (omega arith) in
    omega (arith, rounds, bit_or-bitwise (suc a) b, bit_or-bitwise half (b / 2))

bit_or-zero_fuel : (n a : ℕ) → a ≤ n → bit_or a 0 ≡ a
bit_or-zero_fuel n zero h = refl
bit_or-zero_fuel zero (suc a) h = absurd (omega arith)
bit_or-zero_fuel (suc n) (suc a) h =
    omega (arith, bit_or-low_bit (suc a) 0, bit_or-zero_fuel n (suc a / 2) (omega arith))

halve_shifted : (k a : ℕ) → (a * 2 ^ suc k ≡ (a * 2 ^ k) * 2)
halve_shifted k a = rw (pow-suc 2 k) (omega arith)

-- Or of a field shifted above another one is their sum.
pub bit_or-shifted : (k a b : ℕ) → b < 2 ^ k → bit_or (a * 2 ^ k) b ≡ a * 2 ^ k + b
bit_or-shifted zero a zero h = bit_or-zero_fuel (a * 1) (a * 1) (omega arith) ∙ omega arith
bit_or-shifted zero a (suc b) h = absurd (omega arith)
bit_or-shifted (suc k) a b h =
    rw (halve_shifted k a)
      (omega (arith, bit_or-low_bit (a * 2 ^ k * 2) b, halved, bit_or-shifted k a (b / 2) small))
  where
    small : b / 2 < 2 ^ k
    small = omega (arith, pow-suc 2 k)

    halved : bit_or (a * 2 ^ k * 2 / 2) (b / 2) ≡ bit_or (a * 2 ^ k) (b / 2)
    halved = let e : a * 2 ^ k * 2 / 2 ≡ a * 2 ^ k = omega arith in rw e

pub bit_or-add : (k a x b : ℕ) → x ≡ a * 2 ^ k → b < 2 ^ k → bit_or x b ≡ x + b
bit_or-add k a x b e h = rw e (bit_or-shifted k a b h)

bit_and_half : (a b : ℕ) → bit_and a b / 2 ≡ bit_and (a / 2) (b / 2)
bit_and_half a b = omega (arith, bit_and-low_bit a b)

bit_and_comm_fuel : (n a b : ℕ) → a ≤ n → b ≤ n → bit_and a b ≡ bit_and b a
bit_and_comm_fuel zero zero zero p q = refl
bit_and_comm_fuel zero (suc a) b p q = absurd (omega arith)
bit_and_comm_fuel zero zero (suc b) p q = absurd (omega arith)
bit_and_comm_fuel (suc n) a b p q = omega (
  arith,
  bit_and-low_bit a b,
  bit_and-low_bit b a,
  bit_and_comm_fuel n (a / 2) (b / 2) (omega arith) (omega arith),
)

pub bit_and_comm : (a b : ℕ) → bit_and a b ≡ bit_and b a
bit_and_comm a b = bit_and_comm_fuel (a + b) a b (omega arith) (omega arith)

bit_and_self_fuel : (n a : ℕ) → a ≤ n → bit_and a a ≡ a
bit_and_self_fuel n zero h = refl
bit_and_self_fuel zero (suc a) h = absurd (omega arith)
bit_and_self_fuel (suc n) (suc a) h =
    omega (arith, bit_and-low_bit (suc a) (suc a), bit_and_self_fuel n (suc a / 2) (omega arith))

pub bit_and_self : (a : ℕ) → bit_and a a ≡ a
bit_and_self a = bit_and_self_fuel a a (omega arith)

bit_and-le_fuel : (n a b : ℕ) → a ≤ n → bit_and a b ≤ a
bit_and-le_fuel n zero b h = omega (arith, zero-bit_and b)
bit_and-le_fuel zero (suc a) b h = absurd (omega arith)
bit_and-le_fuel (suc n) (suc a) b h =
    omega (arith, bit_and-low_bit (suc a) b, bit_and-le_fuel n (suc a / 2) (b / 2) (omega arith))

pub bit_and-le : (a b : ℕ) → bit_and a b ≤ a
bit_and-le a b = bit_and-le_fuel a a b (omega arith)

bit_and_assoc_fuel : (n a b c : ℕ) → a ≤ n → bit_and (bit_and a b) c ≡ bit_and a (bit_and b c)
bit_and_assoc_fuel n zero b c h = rw (zero-bit_and b, zero-bit_and c, zero-bit_and (bit_and b c))
bit_and_assoc_fuel zero (suc a) b c h = absurd (omega arith)
bit_and_assoc_fuel (suc n) (suc a) b c h = omega (
  arith,
  bit_and-low_bit (bit_and (suc a) b) c,
  bit_and-low_bit (suc a) (bit_and b c),
  bit_and-low_bit (suc a) b,
  bit_and-low_bit b c,
  left,
  right,
  bit_and_assoc_fuel n (suc a / 2) (b / 2) (c / 2) (omega arith),
)
  where
    left : bit_and (bit_and (suc a) b / 2) (c / 2) ≡ bit_and (bit_and (suc a / 2) (b / 2)) (c / 2)
    left = rw (bit_and_half (suc a) b)

    right : bit_and (suc a / 2) (bit_and b c / 2) ≡ bit_and (suc a / 2) (bit_and (b / 2) (c / 2))
    right = rw (bit_and_half b c)

pub bit_and_assoc : (a b c : ℕ) → bit_and (bit_and a b) c ≡ bit_and a (bit_and b c)
bit_and_assoc a b c = bit_and_assoc_fuel a a b c (omega arith)

pow-pos : (k : ℕ) → 0 < 2 ^ k
pow-pos zero = omega arith
pow-pos (suc k) = omega (arith, pow-suc 2 k, pow-pos k)

-- And with a mask of k ones keeps the k low bits.
bit_and-low : (k q r : ℕ) → r < 2 ^ k → bit_and (q * 2 ^ k + r) (2 ^ k - 1) ≡ r
bit_and-low zero q r h = bit_and_comm (q * 1 + r) 0 ∙ zero-bit_and (q * 1 + r) ∙ omega arith
bit_and-low (suc k) q r h = omega (
  arith,
  bit_and-low_bit (q * 2 ^ suc k + r) (2 ^ suc k - 1),
  halves,
  halve_shifted k q,
  bit_and-low k q (r / 2) (omega (arith, pow-suc 2 k)),
  pow-suc 2 k,
  pow-pos k,
)
  where
    halves :
        bit_and ((q * 2 ^ suc k + r) / 2) ((2 ^ suc k - 1) / 2)
        ≡ bit_and (q * 2 ^ k + r / 2) (2 ^ k - 1)
    halves =
        let e : (q * 2 ^ suc k + r) / 2 ≡ q * 2 ^ k + r / 2 = omega (arith, halve_shifted k q) in
        let f : (2 ^ suc k - 1) / 2 ≡ 2 ^ k - 1 = omega (arith, pow-suc 2 k, pow-pos k) in rw (e, f)

-- `x & 0xFFFF`.
pub bit_and_u16 : (x : ℕ) → bit_and x 0xffff ≡ x % 2 ^ 16
bit_and_u16 x =
    let e : x ≡ x / 2 ^ 16 * 2 ^ 16 + x % 2 ^ 16 = omega arith in
    (λ i. bit_and (e i) 0xffff) ∙ bit_and-low 16 (x / 2 ^ 16) (x % 2 ^ 16) (omega arith)
