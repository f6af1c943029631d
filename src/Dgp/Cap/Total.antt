-- ===== src/Dgp/Cap/Total.antt =====
-- Giving capabilities up does not stop the kernel.
use zxfoundation.Base.{
  ℕ, zero, suc, ◌+◌, ◌-◌, ◌%◌, ◌^◌, ◌≤◌, ◌<◌, ◌≡◌, refl, inl, inr, true, Option, none, some,
  Outcome, done, fault, Result, ok, err, from_generic, invalid_arg, not_found, arith, Bool-cases,
  Option-cases,
}
use zxfoundation.Base.Arrays.{update}
use zxfoundation.Scoms.Kobject.{Heap, Finalizer}
use zxfoundation.Scoms.Kobject.Totality.{Runs, put_total}
use zxfoundation.Scoms.Kobject.Counting.{Confined, put-counts}
use zxfoundation.Dgp.Cap.Token.{CapToken, is_valid}
use zxfoundation.Dgp.Cap.Slots.{Slot, CapState, max_capabilities, retired, put_target, slot_for}
use zxfoundation.Dgp.Cap.Sound.{IsSound, IsValid, target_live}
use zxfoundation.Dgp.Cap.Preserve.{slot_for-active}
use zxfoundation.Dgp.Cap.Sweeps.{
  SoundSweep, is_target-eq, start, concerns-active, revoke_domain_slot-SoundSweep,
  revoke_target_slot-SoundSweep,
}
use zxfoundation.Dgp.Cap.Ops.{
  Sweep, each_slot, concerns, revoke_domain_slot, revoke_target_slot, cap_revoke_for_domain,
  cap_revoke_target, retire_at, cap_release,
}

-- The target of an active slot of a sound table can be put.
slot_put_total :
    (f : Option Finalizer) (h : Heap) (slots : ℕ → Slot) (i : ℕ)
    → Runs f
    → IsSound h slots
    → i < max_capabilities
    → (slots i).active ≡ true
    → (p : ℕ) × (h' : Heap) × ((slots i).target ≡ some p) × (put_target f h (some p) ≡ done h')
unfolding put_target
slot_put_total f h slots i r v below on =
    let (p, at, live) = target_live h slots i v below on in
    let (h', e) = put_total f h p r live (v.words p) in (p, h', at, e)

-- In a valid state, and where the object of the capability that is released has a reference elsewhere
-- too, a release returns, whatever token it is given.
pub cap_release_total :
    (s : CapState) (t : CapToken)
    → IsValid s
    → ((slots : ℕ → Slot) (i p : ℕ)
        → s.capabilities ≡ some slots
        → slot_for (some slots) t ≡ some i
        → (slots i).target ≡ some p
        → 1 < (s.heap p).count)
    → (r : Result (Unit {0})) × (s' : CapState) × (cap_release s t ≡ done (r, s'))
unfolding cap_release retire_at put_target
cap_release_total s t v shared = elim (Bool-cases (is_valid t)) [
  | inr null ↦ (err (from_generic invalid_arg), s, ground arith)
  | inl valid ↦ elim (Option-cases s.capabilities) [
    | inl z ↦ (err (from_generic not_found), s, ground arith)
    | inr (slots, z) ↦ elim (Option-cases (slot_for (some slots) t)) [
      | inl y ↦ (err (from_generic not_found), s, ground arith)
      | inr (i, y) ↦
          let (on, pos, below) = slot_for-active slots t y in
          let sound = v.sound slots z in
          let (p, at, live) = target_live s.heap slots i sound below on in
          let (h, e, _) =
            put-counts s.finalizer s.heap p (shared slots i p z y at) (sound.words p) in
          (
            ok tt,
            record s { heap = h; capabilities = some (update slots i (retired (slots i))) },
            ground arith,
          )
    ]
  ]
]

-- A loop ends if every round ends where the invariant holds.
each_slot_total {ℓ} :
    (P : ℕ → Sweep → Type ℓ) (body : ℕ → Sweep → Outcome Sweep)
    → ((i : ℕ) (w : Sweep)
        → i < max_capabilities
        → P i w
        → (w' : Sweep) × (body i w ≡ done w') × P (i + 1) w')
    → (n i : ℕ) (w : Sweep) → i + n ≤ max_capabilities
    → P i w
    → (w' : Sweep) × (each_slot n i body w ≡ done w')
unfolding each_slot
each_slot_total P body ends zero i w h p = (w, refl)
each_slot_total P body ends (suc n) i w h p =
    let (w1, e, p1) = ends i w (omega (arith, h)) p in
    let (w', f) = each_slot_total P body ends n (i + 1) w1 (omega (arith, h)) p1 in (w', rw e f)

abbrev taken : Sweep → ℕ → Heap → Sweep
taken w i h = record {
  heap = h;
  slots = update w.slots i (retired (w.slots i));
  revoked = (w.revoked + 1) % 2 ^ 32;
}

module _ (f : Option Finalizer) (confined : Confined f) (run : Runs f) where
  revoke_target_slot_ends :
      (target i : ℕ) (w : Sweep)
      → i < max_capabilities
      → SoundSweep i w
      → (w' : Sweep) × (revoke_target_slot f target i w ≡ done w')
  unfolding revoke_target_slot
  revoke_target_slot_ends target i w h v = elim (Bool-cases (w.slots i).active) [
    | inr off ↦ (w, ground arith)
    | inl on ↦ elim (is_target-eq (w.slots i).target target) [
      | inr (miss, ne) ↦ (w, ground arith)
      | inl (hit, here) ↦
          let (p, h', at, e) = slot_put_total f w.heap w.slots i run v h on in
          let same : p ≡ target = cc in
          let e' : put_target f w.heap (some target) ≡ done h' = cc in (taken w i h', ground arith)
    ]
  ]

  revoke_domain_slot_ends :
      (domain_id i : ℕ) (w : Sweep)
      → i < max_capabilities
      → SoundSweep i w
      → (w' : Sweep) × (revoke_domain_slot f domain_id i w ≡ done w')
  unfolding revoke_domain_slot
  revoke_domain_slot_ends domain_id i w h v =
      elim (Bool-cases (concerns w.heap domain_id (w.slots i))) [
        | inr off ↦ (w, ground arith)
        | inl hit ↦
            let on = concerns-active w.heap domain_id (w.slots i) hit in
            let (p, h', at, e) = slot_put_total f w.heap w.slots i run v h on in
            (taken w i h', ground arith)
      ]

  target_sweep_ends :
      (target : ℕ) (w : Sweep)
      → IsSound w.heap w.slots
      → (w' : Sweep) × (each_slot (max_capabilities - 1) 1 (revoke_target_slot f target) w
          ≡ done w')
  target_sweep_ends target w v =
      each_slot_total SoundSweep (revoke_target_slot f target)
        (λ i w h p.
          let (w', e) = revoke_target_slot_ends target i w h p in
          (w', e, revoke_target_slot-SoundSweep f target i w w' confined h p e))
        (max_capabilities - 1) 1 w (omega arith) v

  domain_sweep_ends :
      (domain_id : ℕ) (w : Sweep)
      → IsSound w.heap w.slots
      → (w' : Sweep) × (each_slot (max_capabilities - 1) 1 (revoke_domain_slot f domain_id) w
          ≡ done w')
  domain_sweep_ends domain_id w v =
      each_slot_total SoundSweep (revoke_domain_slot f domain_id)
        (λ i w h p.
          let (w', e) = revoke_domain_slot_ends domain_id i w h p in
          (w', e, revoke_domain_slot-SoundSweep f domain_id i w w' confined h p e))
        (max_capabilities - 1) 1 w (omega arith) v

-- In a valid state, and if the finalizer returns, revoking everything of a domain returns a
-- number.
cap_revoke_for_domain_total :
    (s : CapState) (domain_id : ℕ)
    → IsValid s
    → Runs s.finalizer
    → (n : ℕ) × (s' : CapState) × (cap_revoke_for_domain s domain_id ≡ done (ok n, s'))
unfolding cap_revoke_for_domain
cap_revoke_for_domain_total s domain_id v run = elim (Option-cases s.capabilities) [
  | inl z ↦ (0, s, ground arith)
  | inr (slots, z) ↦
      let (w, e) =
        domain_sweep_ends s.finalizer v.confined run domain_id (start s slots) (v.sound slots z) in
      (w.revoked, record s { heap = w.heap; capabilities = some w.slots }, ground arith)
]

-- In a valid state whose array is allocated, and if the finalizer returns, revoking every
-- capability to an object returns a number.
cap_revoke_target_total :
    (s : CapState) (slots : ℕ → Slot) (target : ℕ)
    → IsValid s
    → Runs s.finalizer
    → s.capabilities ≡ some slots
    → (n : ℕ) × (s' : CapState) × (cap_revoke_target s target ≡ done (ok n, s'))
unfolding cap_revoke_target
cap_revoke_target_total s slots target v run z =
    let (w, e) =
      target_sweep_ends s.finalizer v.confined run target (start s slots) (v.sound slots z) in
    (w.revoked, record s { heap = w.heap; capabilities = some w.slots }, ground arith)

-- Before the first issue `cap_revoke_target` dereferences the null array, for every target, where
-- `cap_revoke_for_domain` returns 0 and changes nothing.
cap_revoke_target_unallocated :
    (s : CapState) (target : ℕ)
    → s.capabilities ≡ none
    → (cap_revoke_target s target ≡ fault) × (cap_revoke_for_domain s target ≡ done (ok 0, s))
unfolding cap_revoke_target cap_revoke_for_domain
cap_revoke_target_unallocated s target z = (ground arith, ground arith)
