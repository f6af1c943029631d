-- ===== src/Dgp/Cap/Authority.antt =====
-- What a capability lets its holder do.
use zxfoundation.Base.{
  ℕ, ◌<◌, ◌≡◌, ◌≢◌, ◌↔◌, refl, ap, subst, ◌∙◌, ◌⊎◌, inl, inr, Bool, true, false, some, ok, err,
  from_memory, capability_invalid, arith, Bool-cases, Option-cases,
}
use zxfoundation.Base.Bits.{bit_and_comm, zero-bit_and}
use zxfoundation.Scoms.Kobject.{Heap, LifecycleState, dying, destroyed, is_state}
use zxfoundation.Dgp.Cap.Token.{CapToken, token_type, object_id, generation, token_rights, is_valid}
use zxfoundation.Dgp.Cap.Token.Laws.{Subset}
use zxfoundation.Dgp.Cap.Slots.{
  Slot, CapState, max_capabilities, slot_for, check_rights, validate_target, validate_slot,
}

-- The token names the slot: every field agrees.
pub record Names (slots : ℕ → Slot) (t : CapToken) : Type 0 where
  pub index_pos : 0 < object_id t
  pub index_lt : object_id t < max_capabilities
  pub on : (slots (object_id t)).active ≡ true
  pub generation_eq : (slots (object_id t)).generation ≡ generation t
  pub type_eq : (slots (object_id t)).type ≡ token_type t
  pub rights_eq : (slots (object_id t)).rights ≡ token_rights t

pub slot_for-Names :
    (slots : ℕ → Slot) (t : CapToken) {i : ℕ}
    → slot_for (some slots) t ≡ some i
    → (i ≡ object_id t) × Names slots t
unfolding slot_for
slot_for-Names slots t e = ground arith

pub slot_for_of_Names :
    (slots : ℕ → Slot) (t : CapToken)
    → is_valid t ≡ true
    → Names slots t
    → slot_for (some slots) t ≡ some (object_id t)
unfolding slot_for
slot_for_of_Names slots t valid n = ground arith

-- What a successful validation has established about the target `ko`.
pub record Authorized (s : CapState) (slots : ℕ → Slot) (t : CapToken) (needed ko : ℕ)
    : Type 0 where
  pub valid : is_valid t ≡ true
  pub present : s.capabilities ≡ some slots
  pub names : Names slots t
  pub target : (slots (object_id t)).target ≡ some ko
  pub same_object : (s.heap ko).generation ≡ (slots (object_id t)).target_generation
  pub not_dying : (s.heap ko).state ≢ dying
  pub not_destroyed : (s.heap ko).state ≢ destroyed
  pub enough : Subset needed (token_rights t)

check_rights-Subset :
    (t : CapToken) (needed : ℕ) → (check_rights t needed ≡ true) ↔ Subset needed (token_rights t)
unfolding check_rights
check_rights-Subset t needed = (
  λ e. ground (arith, bit_and_comm needed (token_rights t), zero-bit_and (token_rights t)),
  λ h. ground (arith, bit_and_comm needed (token_rights t)),
)

validate_target-ok :
    (h : Heap) (slot : Slot) (t : CapToken) (needed owner : ℕ) (check : Bool) {ko : ℕ}
    → validate_target h slot t needed owner check ≡ ok ko
    → (slot.target ≡ some ko)
      × ((h ko).generation ≡ slot.target_generation)
      × (is_state (h ko).state dying ≡ false)
      × (is_state (h ko).state destroyed ≡ false)
      × (check ≡ true → slot.owner_domain ≡ owner)
      × (check_rights t needed ≡ true)
unfolding validate_target
validate_target-ok h slot t needed owner check e =
    (ground arith, ground arith, ground arith, ground arith, λ on. ground arith, ground arith)

validate_slot-split :
    (s : CapState) (t : CapToken) (needed owner : ℕ) (check : Bool) {ko : ℕ}
    → validate_slot s t needed owner check ≡ ok ko
    → (slots : ℕ → Slot) × (s.capabilities ≡ some slots)
      × (slot_for (some slots) t ≡ some (object_id t))
      × Names slots t
      × (validate_target s.heap (slots (object_id t)) t needed owner check ≡ ok ko)
unfolding validate_slot
validate_slot-split s t needed owner check {ko} e = elim (Option-cases s.capabilities) [
  | inl z ↦ absurd (ground arith)
  | inr (slots, z) ↦ elim (Option-cases (slot_for (some slots) t)) [
    | inl y ↦ absurd (ground arith)
    | inr (i, y) ↦
        let (at, names) = slot_for-Names slots t y in
        let here : validate_target s.heap (slots i) t needed owner check ≡ ok ko = ground arith in
        (
          slots,
          z,
          y ∙ ap some at,
          names,
          subst (λ j. validate_target s.heap (slots j) t needed owner check ≡ ok ko) at here,
        )
  ]
]

pub slot_for-valid :
    (slots : ℕ → Slot) (t : CapToken) {i : ℕ} → slot_for (some slots) t ≡ some i → is_valid t ≡ true
unfolding slot_for
slot_for-valid slots t e = ground arith

state-ne : (a b : LifecycleState) → is_state a b ≡ false → a ≢ b
state-ne a b e h = ground arith

state-eq : (a b : LifecycleState) → is_state a b ≡ true → a ≡ b
state-eq a b e = ground arith

is_state-ne : (a b : LifecycleState) → a ≢ b → is_state a b ≡ false
is_state-ne a b h = elim (Bool-cases (is_state a b)) [
  | inl e ↦ absurd (h (state-eq a b e))
  | inr e ↦ e
]

pub accepted-Authorized :
    (s : CapState) (t : CapToken) (needed owner : ℕ) (check : Bool) (ko : ℕ)
    → validate_slot s t needed owner check ≡ ok ko
    → (slots : ℕ → Slot) × Authorized s slots t needed ko
      × (check ≡ true → (slots (object_id t)).owner_domain ≡ owner)
accepted-Authorized s t needed owner check ko e =
    let (slots, present, found, names, rest) = validate_slot-split s t needed owner check e in
    let (at, same, alive, kept, owned, enough) =
      validate_target-ok s.heap (slots (object_id t)) t needed owner check rest in
    (
      slots,
      record {
        valid = slot_for-valid slots t found;
        present = present;
        names = names;
        target = at;
        same_object = same;
        not_dying = state-ne (s.heap ko).state dying alive;
        not_destroyed = state-ne (s.heap ko).state destroyed kept;
        enough = (check_rights-Subset t needed).0 enough;
      },
      owned,
    )

Authorized-accepted :
    (s : CapState) (slots : ℕ → Slot) (t : CapToken) (needed owner : ℕ) (check : Bool) (ko : ℕ)
    → Authorized s slots t needed ko
    → (check ≡ true → (slots (object_id t)).owner_domain ≡ owner)
    → validate_slot s t needed owner check ≡ ok ko
unfolding validate_slot validate_target
Authorized-accepted s slots t needed owner check ko a owned = ground (
  arith,
  slot_for_of_Names slots t a.valid a.names,
  is_state-ne (s.heap ko).state dying a.not_dying,
  is_state-ne (s.heap ko).state destroyed a.not_destroyed,
  (check_rights-Subset t needed).1 a.enough,
)

unchecked_or : {P : Type 0} (check : Bool) → (check ≡ true → P) → (check ≡ false) ⊎ P
unchecked_or true h = inr (h refl)
unchecked_or false h = inl refl

checked : {P : Type 0} (check : Bool) → (check ≡ false) ⊎ P → check ≡ true → P
checked check (inl off) on = cc
checked check (inr p) on = p

-- A capability is accepted exactly when it names a live slot of the table, the object behind it is
-- the one it was issued for and is not being torn down, the rights asked for are within the
-- token's, and, where the owner is checked, the slot belongs to the caller.
pub validate_slot-Authorized :
    (s : CapState) (t : CapToken) (needed owner : ℕ) (check : Bool) (ko : ℕ)
    → (validate_slot s t needed owner check ≡ ok ko) ↔ (
        (slots : ℕ → Slot) × Authorized s slots t needed ko
        × ((check ≡ false) ⊎ ((slots (object_id t)).owner_domain ≡ owner)))
validate_slot-Authorized s t needed owner check ko = (
  λ e.
      let (slots, a, owned) = accepted-Authorized s t needed owner check ko e in
      (slots, a, unchecked_or check owned),
  λ (slots, a, owned). Authorized-accepted s slots t needed owner check ko a (checked check owned),
)

-- The owner is checked before the rights.
pub foreign-refused :
    (s : CapState) (slots : ℕ → Slot) (t : CapToken) (needed owner ko : ℕ)
    → Authorized s slots t needed ko
    → (slots (object_id t)).owner_domain ≢ owner
    → validate_slot s t needed owner true ≡ err (from_memory capability_invalid)
unfolding validate_slot validate_target
foreign-refused s slots t needed owner ko a ne = ground (
  arith,
  slot_for_of_Names slots t a.valid a.names,
  is_state-ne (s.heap ko).state dying a.not_dying,
  is_state-ne (s.heap ko).state destroyed a.not_destroyed,
)
