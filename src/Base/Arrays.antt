-- ===== src/Base/Arrays.antt =====
-- Arrays and memories as functions from the index or the address.
use Prim.Native.Nat.{ℕ}
use native.Mathlib.Decide.{ℕ_discrete}
use mathlib.Core.Path.{◌≡◌, subst}
use mathlib.Core.Logic.{◌≢◌}
use zxfoundation.Base.Tests.{◌==◌, if◌then◌else◌, ==_refl, ==_ne}

abbrev pub update {ℓ} : {A : Type ℓ} → (ℕ → A) → ℕ → A → ℕ → A
update f i v j = if i == j then v else f j

pub update_self {ℓ} : {A : Type ℓ} (f : ℕ → A) (i : ℕ) (v : A) → update f i v i ≡ v
update_self f i v = rw (==_refl i)

pub update_ne {ℓ} : {A : Type ℓ} (f : ℕ → A) (i j : ℕ) (v : A) → i ≢ j → update f i v j ≡ f j
update_ne f i j v h = rw (==_ne i j h)

pub update_same {ℓ} : {A : Type ℓ} (f : ℕ → A) (i : ℕ) → update f i (f i) ≡ f
update_same {A = A} f i =
    let at : (j : ℕ) → update f i (f i) j ≡ f j = λ j. elim (ℕ_discrete i j) [
      | yes e ↦ subst (λ x. update f i (f i) x ≡ f x) e (update_self f i (f i))
      | no ne ↦ update_ne f i j (f i) ne
    ] in
    λ k j. at j k
