-- ===== src/Dgp/Cap/Held.antt =====
-- How many references the capability slots stand for.
use zxfoundation.Base.{
  ℕ, zero, suc, ◌+◌, ◌≤◌, ◌<◌, ◌≡◌, refl, sym, subst, arith, if◌then◌else◌, ℕ_discrete,
}
use zxfoundation.Base.Arrays.{update, update_self, update_ne}
use zxfoundation.Scoms.Robject.Balance.{points}
use zxfoundation.Dgp.Cap.Slots.{Slot, empty_slot}

-- The references to `p` that a slot stands for: one, if it is active and refers to `p`.
abbrev pub slot_points : Slot → ℕ → ℕ
slot_points slot p = if slot.active then points slot.target p else 0

-- The references to `p` that the first `n` slots stand for.
pub held : (ℕ → Slot) → ℕ → ℕ → ℕ
held slots p zero = 0
held slots p (suc n) = slot_points (slots n) p + held slots p n

held-update_above :
    (slots : ℕ → Slot) (i : ℕ) (v : Slot) (p n : ℕ)
    → n ≤ i
    → held (update slots i v) p n ≡ held slots p n
unfolding held
held-update_above slots i v p zero h = refl
held-update_above slots i v p (suc n) h = ground (arith, held-update_above slots i v p n)

held-update_last :
    (slots : ℕ → Slot) (v : Slot) (p n : ℕ)
    → held (update slots n v) p (suc n) + slot_points (slots n) p
      ≡ held slots p (suc n) + slot_points v p
unfolding held
held-update_last slots v p n =
    rw (update_self slots n v) (omega (arith, held-update_above slots n v p n (omega arith)))

-- Writing a slot moves the total by what the old and the new value stand for.
pub held-update :
    (slots : ℕ → Slot) (i : ℕ) (v : Slot) (p n : ℕ)
    → i < n
    → held (update slots i v) p n + slot_points (slots i) p ≡ held slots p n + slot_points v p
unfolding held
held-update slots i v p zero h = elim h [ ]
held-update slots i v p (suc n) h = elim (ℕ_discrete i n) [
  | yes e ↦
      subst
        (λ j.
          held (update slots j v) p (suc n) + slot_points (slots j) p
          ≡ held slots p (suc n) + slot_points v p)
        (sym e) (held-update_last slots v p n)
  | no ne ↦ rw (update_ne slots i n v ne) (omega (arith, held-update slots i v p n (omega arith)))
]

pub slot_points-le-held :
    (slots : ℕ → Slot) (i p n : ℕ) → i < n → slot_points (slots i) p ≤ held slots p n
unfolding held
slot_points-le-held slots i p zero h = elim h [ ]
slot_points-le-held slots i p (suc n) h = elim (ℕ_discrete i n) [
  | yes e ↦ rw e (omega arith)
  | no ne ↦ omega (arith, slot_points-le-held slots i p n (omega arith))
]

pub held-empty : (p n : ℕ) → held (λ i. empty_slot) p n ≡ 0
unfolding held
held-empty p zero = refl
held-empty p (suc n) = omega (arith, held-empty p n)
