-- ===== src/Dgp/Cap/Sweeps.antt =====
-- The revocation loops of the capability table.
use zxfoundation.Base.{
  ℕ, zero, suc, ◌+◌, ◌-◌, ◌%◌, ◌^◌, ◌≤◌, ◌<◌, ◌≡◌, ◌≢◌, refl, sym, ap, subst, ◌⊎◌, inl, inr, true,
  false, Option, none, some, Outcome, done, Result, arith, ℕ_discrete, Bool-cases, Option-cases,
  Outcome-cases,
}
use zxfoundation.Base.Arrays.{update}
use zxfoundation.Scoms.Kobject.{Heap, Finalizer}
use zxfoundation.Scoms.Kobject.Counting.{Confined}
use zxfoundation.Dgp.Cap.Slots.{Slot, CapState, max_capabilities, retired, put_target}
use zxfoundation.Dgp.Cap.Sound.{IsSound, IsValid, retired-IsSound}
use zxfoundation.Dgp.Cap.Ops.{
  Sweep, each_slot, is_target, concerns, revoke_domain_slot, cap_revoke_for_domain,
  revoke_target_slot, cap_revoke_target,
}

-- The rule for `for (i = 1; i < MAX_CAPABILITIES; ++i)`: what the body keeps holds at the end.
pub each_slot_inv {ℓ} :
    (P : ℕ → Sweep → Type ℓ) (body : ℕ → Sweep → Outcome Sweep)
    → ((i : ℕ) (w w' : Sweep) → i < max_capabilities → P i w → body i w ≡ done w' → P (i + 1) w')
    → (n i j : ℕ) (w : Sweep) {w' : Sweep} → i + n ≡ j
    → j ≤ max_capabilities
    → P i w
    → each_slot n i body w ≡ done w'
    → P j w'
unfolding each_slot
each_slot_inv P body keep zero i j w {w'} q h p e =
    subst (λ k. P k w') (omega (arith, q)) (subst (P i) (cc) p)
each_slot_inv P body keep (suc n) i j w {w'} q h p e = elim (Outcome-cases (body i w)) [
  | inl z ↦ absurd (ground arith)
  | inr (w1, z) ↦
      each_slot_inv P body keep n (i + 1) j w1 (omega (arith, q)) h
        (keep i w w1 (omega (arith, h, q)) p z) (ground arith)
]

-- What one round does when it takes a slot.
pub record Retires (f : Option Finalizer) (i : ℕ) (w w' : Sweep) : Type 0 where
  pub on : (w.slots i).active ≡ true
  pub put_done : put_target f w.heap (w.slots i).target ≡ done w'.heap
  pub slots_after : w'.slots ≡ update w.slots i (retired (w.slots i))
  pub revoked_after : w'.revoked ≡ (w.revoked + 1) % 2 ^ 32

pub concerns-active :
    (h : Heap) (domain_id : ℕ) (slot : Slot) → concerns h domain_id slot ≡ true → slot.active ≡ true
unfolding concerns
concerns-active h domain_id slot e = ground arith

pub revoke_domain_slot_cases :
    (f : Option Finalizer) (domain_id i : ℕ) (w w' : Sweep)
    → IsSound w.heap w.slots
    → revoke_domain_slot f domain_id i w ≡ done w'
    → ((concerns w.heap domain_id (w.slots i) ≡ false) × (w' ≡ w)) ⊎ Retires f i w w'
unfolding revoke_domain_slot
revoke_domain_slot_cases f domain_id i w w' v e =
    elim (Bool-cases (concerns w.heap domain_id (w.slots i))) [
      | inr off ↦ inl (off, ground arith)
      | inl on ↦
          let live = concerns-active w.heap domain_id (w.slots i) on in
          elim (Option-cases (w.slots i).target) [
            | inl z ↦ absurd (v.targets i live z)
            | inr (p, z) ↦ elim (Outcome-cases (put_target f w.heap (some p))) [
              | inl stop ↦ absurd (ground arith)
              | inr (h, went) ↦ inr (record {
                on = live;
                put_done = ground arith;
                slots_after = ground arith;
                revoked_after = ground arith;
              })
            ]
          ]
    ]

pub is_target-eq :
    (t : Option ℕ) (p : ℕ)
    → ((is_target t p ≡ true) × (t ≡ some p)) ⊎ ((is_target t p ≡ false) × (t ≢ some p))
unfolding is_target
is_target-eq none p = inr (refl, λ e. cc)
is_target-eq (some q) p = elim (ℕ_discrete q p) [
  | yes e ↦ inl (ground arith, ap some e)
  | no ne ↦ inr (ground arith, λ e. ne (cc))
]

pub revoke_target_slot_cases :
    (f : Option Finalizer) (target i : ℕ) (w w' : Sweep)
    → revoke_target_slot f target i w ≡ done w'
    → ((((w.slots i).active ≡ false) ⊎ ((w.slots i).target ≢ some target)) × (w' ≡ w))
      ⊎ (((w.slots i).target ≡ some target) × Retires f i w w')
unfolding revoke_target_slot
revoke_target_slot_cases f target i w w' e = elim (Bool-cases (w.slots i).active) [
  | inr off ↦ inl (inl off, ground arith)
  | inl on ↦ elim (is_target-eq (w.slots i).target target) [
    | inr (no_match, ne) ↦ inl (inr ne, ground arith)
    | inl (match, at) ↦ elim (Outcome-cases (put_target f w.heap (some target))) [
      | inl stop ↦ absurd (ground arith)
      | inr (h, went) ↦ inr (
        at,
        record {
          on = on;
          put_done = ground arith;
          slots_after = ground arith;
          revoked_after = ground arith;
        },
      )
    ]
  ]
]

abbrev pub SoundSweep : ℕ → Sweep → Type 0
SoundSweep i w = IsSound w.heap w.slots

Retires-SoundSweep :
    (f : Option Finalizer) (i : ℕ) (w w' : Sweep)
    → Confined f
    → i < max_capabilities
    → SoundSweep i w
    → Retires f i w w'
    → SoundSweep (i + 1) w'
Retires-SoundSweep f i w w' c h v r =
    subst (IsSound w'.heap) (sym r.slots_after)
      (retired-IsSound f w.heap w.slots i c v h r.on r.put_done)

pub revoke_domain_slot-SoundSweep :
    (f : Option Finalizer) (domain_id i : ℕ) (w w' : Sweep)
    → Confined f
    → i < max_capabilities
    → SoundSweep i w
    → revoke_domain_slot f domain_id i w ≡ done w'
    → SoundSweep (i + 1) w'
revoke_domain_slot-SoundSweep f domain_id i w w' c h v e =
    elim (revoke_domain_slot_cases f domain_id i w w' v e) [
      | inl (_, same) ↦ subst (SoundSweep i) (sym same) v
      | inr r ↦ Retires-SoundSweep f i w w' c h v r
    ]

pub revoke_target_slot-SoundSweep :
    (f : Option Finalizer) (target i : ℕ) (w w' : Sweep)
    → Confined f
    → i < max_capabilities
    → SoundSweep i w
    → revoke_target_slot f target i w ≡ done w'
    → SoundSweep (i + 1) w'
revoke_target_slot-SoundSweep f target i w w' c h v e =
    elim (revoke_target_slot_cases f target i w w' e) [
      | inl (_, same) ↦ subst (SoundSweep i) (sym same) v
      | inr (_, r) ↦ Retires-SoundSweep f i w w' c h v r
    ]

swept-IsValid :
    (s s' : CapState) (w : Sweep)
    → IsValid s
    → SoundSweep max_capabilities w
    → s' ≡ record s { heap = w.heap; capabilities = some w.slots }
    → IsValid s'
swept-IsValid s s' w v sound e = subst IsValid (sym e) (record {
  confined = v.confined;
  heap_words = sound.words;
  sound = λ slots at. subst (IsSound w.heap) (cc) sound;
})

-- Where a sweep starts.
abbrev pub start : CapState → (ℕ → Slot) → Sweep
start s slots = record { heap = s.heap; slots = slots; revoked = 0 }

pub cap_revoke_for_domain-IsValid :
    (s : CapState) (domain_id : ℕ) {r : Result ℕ} {s' : CapState}
    → IsValid s
    → cap_revoke_for_domain s domain_id ≡ done (r, s')
    → IsValid s'
unfolding cap_revoke_for_domain
cap_revoke_for_domain-IsValid s domain_id {r} {s'} v e = elim (Option-cases s.capabilities) [
  | inl z ↦ subst IsValid (ground arith) v
  | inr (slots, z) ↦
      elim (Outcome-cases (
        each_slot (max_capabilities - 1) 1 (revoke_domain_slot s.finalizer domain_id)
          (start s slots))) [
            | inl stop ↦ absurd (ground arith)
            | inr (w, swept) ↦
                swept-IsValid s s' w v
                  (each_slot_inv SoundSweep (revoke_domain_slot s.finalizer domain_id)
                    (λ i a b h p q.
                      revoke_domain_slot-SoundSweep s.finalizer domain_id i a b v.confined h p q)
                    (max_capabilities - 1) 1 max_capabilities (start s slots) refl (omega arith)
                    (v.sound slots z) swept)
                  (ground arith)
          ]
]

pub cap_revoke_target-IsValid :
    (s : CapState) (target : ℕ) {r : Result ℕ} {s' : CapState}
    → IsValid s
    → cap_revoke_target s target ≡ done (r, s')
    → IsValid s'
unfolding cap_revoke_target
cap_revoke_target-IsValid s target {r} {s'} v e = elim (Option-cases s.capabilities) [
  | inl z ↦ absurd (ground arith)
  | inr (slots, z) ↦
      elim (Outcome-cases (
        each_slot (max_capabilities - 1) 1 (revoke_target_slot s.finalizer target)
          (start s slots))) [
            | inl stop ↦ absurd (ground arith)
            | inr (w, swept) ↦
                swept-IsValid s s' w v
                  (each_slot_inv SoundSweep (revoke_target_slot s.finalizer target)
                    (λ i a b h p q.
                      revoke_target_slot-SoundSweep s.finalizer target i a b v.confined h p q)
                    (max_capabilities - 1) 1 max_capabilities (start s slots) refl (omega arith)
                    (v.sound slots z) swept)
                  (ground arith)
          ]
]
