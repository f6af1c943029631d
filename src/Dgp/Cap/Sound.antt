-- ===== src/Dgp/Cap/Sound.antt =====
-- The invariant of the capability table: every active slot holds a reference to its target.
use zxfoundation.Base.{
  ℕ, ◌+◌, ◌^◌, ◌≤◌, ◌<◌, ◌≡◌, ◌≢◌, subst, inl, inr, true, Option, none, some, done, arith,
  ℕ_discrete, Option-cases,
}
use zxfoundation.Base.Arrays.{update}
use zxfoundation.Scoms.Kobject.{Heap, Finalizer, put}
use zxfoundation.Scoms.Kobject.Counting.{Confined, AreWords, Put, put-Put}
use zxfoundation.Dgp.Cap.Slots.{Slot, CapState, max_capabilities, empty_slot, retired, put_target}
use zxfoundation.Dgp.Cap.Held.{held, held-empty, held-update, slot_points, slot_points-le-held}

pub record IsSound (h : Heap) (slots : ℕ → Slot) : Type 0 where
  pub words : AreWords h
  pub stamps : (i : ℕ) → (slots i).generation < 2 ^ 16
  pub targets : (i : ℕ) → (slots i).active ≡ true → (slots i).target ≢ none
  pub counted : (p : ℕ) → held slots p max_capabilities ≤ (h p).count

-- Before the first issue there are no slots.
pub record IsValid (s : CapState) : Type 0 where
  pub confined : Confined s.finalizer
  pub heap_words : AreWords s.heap
  pub sound : (slots : ℕ → Slot) → s.capabilities ≡ some slots → IsSound s.heap slots

slot_points_self :
    (slot : Slot) (p : ℕ) → slot.active ≡ true → slot.target ≡ some p → slot_points slot p ≡ 1
slot_points_self slot p on e = ground arith

target_counted :
    (h : Heap) (slots : ℕ → Slot) (i p : ℕ)
    → IsSound h slots
    → i < max_capabilities
    → (slots i).active ≡ true
    → (slots i).target ≡ some p
    → 0 < (h p).count
target_counted h slots i p v below on e = omega (
  arith,
  v.counted p,
  slot_points-le-held slots i p max_capabilities below,
  slot_points_self (slots i) p on e,
)

-- An active slot of a sound table has a target, and that object is live.
pub target_live :
    (h : Heap) (slots : ℕ → Slot) (i : ℕ)
    → IsSound h slots
    → i < max_capabilities
    → (slots i).active ≡ true
    → (p : ℕ) × ((slots i).target ≡ some p) × (0 < (h p).count)
target_live h slots i v below on = elim (Option-cases (slots i).target) [
  | inl e ↦ absurd (v.targets i on e)
  | inr (p, e) ↦ (p, e, target_counted h slots i p v below on e)
]

retired-counted :
    (h h' : Heap) (slots : ℕ → Slot) (i p : ℕ)
    → IsSound h slots
    → i < max_capabilities
    → (slots i).active ≡ true
    → (slots i).target ≡ some p
    → Put h p h'
    → (q : ℕ) → held (update slots i (retired (slots i))) q max_capabilities ≤ (h' q).count
retired-counted h h' slots i p v below on e put q = elim (ℕ_discrete p q) [
  | yes at ↦
      subst (λ x. held (update slots i (retired (slots i))) x max_capabilities ≤ (h' x).count) at
        (omega (
          arith,
          held-update slots i (retired (slots i)) p max_capabilities below,
          slot_points_self (slots i) p on e,
          v.counted p,
          last_or_more,
        ))
  | no ne ↦ omega (
    arith,
    held-update slots i (retired (slots i)) q max_capabilities below,
    v.counted q,
    put.elsewhere q ne,
  )
]
  where
    last_or_more : (h p).count ≤ (h' p).count + 1
    last_or_more = ground (arith, put.lowered)

pub put_target-Put :
    (f : Option Finalizer) (h : Heap) (target : Option ℕ) (p : ℕ) {h' : Heap}
    → Confined f
    → AreWords h
    → target ≡ some p
    → put_target f h target ≡ done h'
    → Put h p h'
unfolding put_target
put_target-Put f h none p c w at e = cc
put_target-Put f h (some p') p c w at e = put-Put f h p c w (cc)

-- Retiring an active slot, whose target is then put, keeps the table sound.
pub retired-IsSound :
    (f : Option Finalizer) (h : Heap) (slots : ℕ → Slot) (i : ℕ) {h' : Heap}
    → Confined f
    → IsSound h slots
    → i < max_capabilities
    → (slots i).active ≡ true
    → put_target f h (slots i).target ≡ done h'
    → IsSound h' (update slots i (retired (slots i)))
retired-IsSound f h slots i {h'} c v below on e =
    let (p, at, live) = target_live h slots i v below on in
    let put = put_target-Put f h (slots i).target p c v.words at e in
    record {
      words = put.words;
      stamps = λ j. ground (arith, v.stamps j, v.stamps i);
      targets = λ j. ground (arith, v.targets j);
      counted = retired-counted h h' slots i p v below on at put;
    }

pub empty-IsSound : (h : Heap) → AreWords h → IsSound h (λ i. empty_slot)
empty-IsSound h w = record {
  words = w;
  stamps = λ i. omega arith;
  targets = λ i off. cc;
  counted = λ p. omega (arith, held-empty p max_capabilities);
}
