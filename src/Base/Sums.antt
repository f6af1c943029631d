-- ===== src/Base/Sums.antt =====
-- Totals over the first numbers, and lengths of lists.
use Prim.Native.Nat.{ℕ, zero, suc, ◌+◌, ◌≤◌, ◌<◌}
use mathlib.Core.Path.{◌≡◌, refl}
use mathlib.Core.Logic.{◌≢◌}
use mathlib.Core.List.{List, [], ◌∷◌}
use native.Mathlib.Omega.{arith}
use native.Mathlib.Decide.{ℕ_discrete}

unfoldable pub length {ℓ} : {A : Type ℓ} → List A → ℕ
length [] = 0
length (x ∷ xs) = suc (length xs)

unfoldable pub total : (ℕ → ℕ) → ℕ → ℕ
total f zero = 0
total f (suc n) = f n + total f n

pub total-same : (f g : ℕ → ℕ) (n : ℕ) → ((i : ℕ) → i < n → f i ≡ g i) → total f n ≡ total g n
unfolding total
total-same f g zero same = refl
total-same f g (suc n) same =
    let rest = total-same f g n (λ i below. same i (omega (arith, below))) in
    omega (arith, rest, same n (omega arith))

-- A change at one place moves the total by as much.
pub total-change :
    (f g : ℕ → ℕ) (i n : ℕ)
    → i < n
    → ((j : ℕ) → i ≢ j → f j ≡ g j)
    → total g n + f i ≡ total f n + g i
unfolding total
total-change f g i zero h same = absurd (omega (arith, h))
total-change f g i (suc n) h same = elim (ℕ_discrete i n) [
  | yes e ↦
      let rest = total-same f g n (λ j below. same j (λ z. omega (arith, z, e, below))) in
      rw e (omega (arith, rest))
  | no ne ↦
      let rest = total-change f g i n (omega (arith, h, ne)) same in omega (arith, rest, same n ne)
]

pub le-total : (f : ℕ → ℕ) (i n : ℕ) → i < n → f i ≤ total f n
unfolding total
le-total f i zero h = absurd (omega (arith, h))
le-total f i (suc n) h = elim (ℕ_discrete i n) [
  | yes e ↦ rw e (omega arith)
  | no ne ↦ omega (arith, le-total f i n (omega (arith, h, ne)))
]

pub total_zero : (f : ℕ → ℕ) (n : ℕ) → ((i : ℕ) → i < n → f i ≡ 0) → total f n ≡ 0
unfolding total
total_zero f zero off = refl
total_zero f (suc n) off =
    omega (arith, total_zero f n (λ i below. off i (omega (arith, below))), off n (omega arith))

pub total_le : (f : ℕ → ℕ) (n : ℕ) → ((i : ℕ) → f i ≤ 1) → total f n ≤ n
unfolding total
total_le f zero one = omega arith
total_le f (suc n) one = omega (arith, total_le f n one, one n)
