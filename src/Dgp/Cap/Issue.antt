-- ===== src/Dgp/Cap/Issue.antt =====
-- What `issue_locked` does when it returns a token.
use zxfoundation.Base.{
  ℕ, zero, suc, ◌+◌, ◌-◌, ◌≤◌, ◌<◌, ◌≡◌, ◌≢◌, refl, subst, ◌⊎◌, inl, inr, Bool, true, false, Option,
  none, some, done, KernelError, ok, err, arith, ℕ_discrete, Bool-cases, Option-cases, Result-cases,
}
use zxfoundation.Base.Arrays.{update}
use zxfoundation.Scoms.Kobject.{LifecycleState, active, is_state, try_get}
use zxfoundation.Dgp.Cap.Token.{CapToken, make}
use zxfoundation.Dgp.Cap.Slots.{
  Slot, CapState, max_capabilities, empty_slot, free_slot, issue_at, issue_locked, lookup_kobject,
  ensure_capabilities,
}

either_active :
    (slots : ℕ → Slot) (i j : ℕ)
    → (slots i).active ≡ true
    → i ≤ j
    → (i + 1 ≤ j → (slots j).active ≡ true)
    → (slots j).active ≡ true
either_active slots i j e p later = elim (ℕ_discrete i j) [
  | yes at ↦ subst (λ x. (slots x).active ≡ true) at e
  | no ne ↦ later (omega (arith, p, ne))
]

-- The search finds the lowest free slot from `i` on, or every slot looked at is active.
pub free_slot_lem :
    (n i : ℕ) (slots : ℕ → Slot)
    → 0 < i
    → ((free_slot n i slots ≡ 0) × ((j : ℕ) → i ≤ j → j < i + n → (slots j).active ≡ true))
      ⊎ ((i ≤ free_slot n i slots)
          × (free_slot n i slots < i + n)
          × ((slots (free_slot n i slots)).active ≡ false)
          × ((j : ℕ) → i ≤ j → j < free_slot n i slots → (slots j).active ≡ true))
unfolding free_slot
free_slot_lem zero i slots h = inl (refl, λ j p q. absurd (omega (arith, p, q)))
free_slot_lem (suc n) i slots h = elim (Bool-cases (slots i).active) [
  | inl e ↦
      rw (e, free_slot)
        (elim (free_slot_lem n (i + 1) slots (omega arith)) [
          | inl (z, all) ↦
              inl (z, λ j p q. either_active slots i j e p (λ r. all j r (omega (arith, q))))
          | inr (lo, hi, off, all) ↦ inr (
            omega (arith, lo),
            omega (arith, hi),
            off,
            λ j p q. either_active slots i j e p (λ r. all j r q),
          )
        ])
  | inr e ↦
      rw (e, free_slot) (inr (omega arith, omega arith, e, λ j p q. absurd (omega (arith, p, q))))
]

-- The array that an operation works on: the one at hand, or a fresh one where there was none.
abbrev pub Started : Option (ℕ → Slot) → (ℕ → Slot) → Type 0
Started c slots = (c ≡ some slots) ⊎ ((c ≡ none) × (slots ≡ λ j. empty_slot))

-- The slot that the issue writes.
abbrev pub written : CapState → (ℕ → Slot) → ℕ → ℕ → ℕ → ℕ → ℕ → Slot
written s slots index target type rights owner_domain = record {
  target = some target;
  type = type;
  rights = rights;
  owner_domain = owner_domain;
  target_generation = (s.heap target).generation;
  generation = (slots index).generation;
  active = true;
}

pub record Issued (s : CapState) (type rights owner_domain : ℕ) (t : CapToken) (s' : CapState)
    : Type 0 where
  pub slots : ℕ → Slot
  pub index : ℕ
  pub target : ℕ
  pub index_pos : 0 < index
  pub index_lt : index < max_capabilities
  pub was_free : (slots index).active ≡ false
  pub target_active : (s.heap target).state ≡ active
  pub slots_before : Started s.capabilities slots
  pub token : t ≡ make type index (slots index).generation rights
  pub slots_after :
      s'.capabilities
      ≡ some (update slots index (written s slots index target type rights owner_domain))
  pub heap_after : try_get s.heap target ≡ done (true, s'.heap)
  pub kept : (s'.finalizer ≡ s.finalizer) × (s'.lookup_table ≡ s.lookup_table)

state-eq : (a b : LifecycleState) → is_state a b ≡ true → a ≡ b
state-eq a b e = ground arith

issue_at-Issued :
    (s : CapState) (slots : ℕ → Slot) (i target type rights owner_domain : ℕ) {t : CapToken}
    {s' : CapState}
    → Started s.capabilities slots
    → 0 < i
    → i < max_capabilities
    → (slots i).active ≡ false
    → issue_at s slots i target (s.heap target).generation type rights owner_domain
      ≡ done (ok t, s')
    → Issued s type rights owner_domain t s'
unfolding issue_at
issue_at-Issued s slots i target type rights owner_domain {t} {s'} before pos below free e =
    record {
      slots = slots;
      index = i;
      target = target;
      index_pos = pos;
      index_lt = below;
      was_free = free;
      target_active = ground arith;
      slots_before = before;
      token = ground arith;
      slots_after = ground arith;
      heap_after = ground arith;
      kept = ground arith;
    }

ensure-before :
    (mem : Bool) (c : Option (ℕ → Slot)) (slots : ℕ → Slot)
    → ensure_capabilities mem c ≡ some slots
    → Started c slots
unfolding ensure_capabilities
ensure-before mem (some c) slots e = inl e
ensure-before true none slots e = inr (refl, cc)
ensure-before false none slots e = cc

lookup-generation :
    (s : CapState) (type obj_id : ℕ) {ko gen : ℕ}
    → lookup_kobject s type obj_id ≡ ok (ko, gen)
    → gen ≡ (s.heap ko).generation
unfolding lookup_kobject
lookup-generation s type obj_id e = ground arith

found-Issued :
    (s : CapState) (slots : ℕ → Slot) (target type rights owner_domain : ℕ) {t : CapToken}
    {s' : CapState}
    → Started s.capabilities slots
    → free_slot (max_capabilities - 1) 1 slots ≢ 0
    → issue_at s slots
        (free_slot (max_capabilities - 1) 1 slots)
        target
        (s.heap target).generation
        type
        rights
        owner_domain
      ≡ done (ok t, s')
    → Issued s type rights owner_domain t s'
found-Issued s slots target type rights owner_domain before ne e =
    elim (free_slot_lem (max_capabilities - 1) 1 slots (omega arith)) [
      | inl (z, _) ↦ absurd (ne z)
      | inr (lo, hi, off, _) ↦
          issue_at-Issued s slots (free_slot (max_capabilities - 1) 1 slots) target type rights
            owner_domain before lo (omega (arith, hi)) off e
    ]

-- A token comes back only with a free slot, an active target and a counted reference to it.
pub issue_locked-Issued :
    (mem : Bool) (s : CapState) (type obj_id rights owner_domain : ℕ) {t : CapToken} {s' : CapState}
    → issue_locked mem s type obj_id rights owner_domain ≡ done (ok t, s')
    → Issued s type rights owner_domain t s'
unfolding issue_locked
issue_locked-Issued mem s type obj_id rights owner_domain {t} {s'} e =
    elim (Option-cases (ensure_capabilities mem s.capabilities)) [
      | inl z ↦ absurd (ground arith)
      | inr (slots, z) ↦ elim (Result-cases (lookup_kobject s type obj_id)) [
        | inl (x, y) ↦ absurd (ground arith)
        | inr ((ko, gen), y) ↦
            found-Issued s slots ko type rights owner_domain
              (ensure-before mem s.capabilities slots z) (ground arith)
              (ground (arith, lookup-generation s type obj_id y))
      ]
    ]

-- How little a refused issue changes: no count and no slot, though the array may now exist.
pub record Refused (s s' : CapState) : Type 0 where
  pub counts : (q : ℕ) → (s'.heap q).count ≡ (s.heap q).count
  pub finalizer : s'.finalizer ≡ s.finalizer
  pub slots_kept : (slots : ℕ → Slot) → s'.capabilities ≡ some slots → Started s.capabilities slots

self-Refused : (s s' : CapState) → s' ≡ s → Refused s s'
self-Refused s s' h = record {
  counts = λ q. ground arith;
  finalizer = ground arith;
  slots_kept = λ new k. inl (ground arith);
}

slots-Refused :
    (s s' : CapState) (slots : ℕ → Slot)
    → Started s.capabilities slots
    → s' ≡ record s { capabilities = some slots }
    → Refused s s'
slots-Refused s s' slots before h = record {
  counts = λ q. ground arith;
  finalizer = ground arith;
  slots_kept = λ new k. ground (arith, before);
}

issue_at-Refused :
    (s : CapState) (slots : ℕ → Slot) (i target gen type rights owner_domain : ℕ) {e : KernelError}
    {s' : CapState}
    → Started s.capabilities slots
    → issue_at s slots i target gen type rights owner_domain ≡ done (err e, s')
    → Refused s s'
unfolding issue_at try_get
issue_at-Refused s slots i target gen type rights owner_domain before h = record {
  counts = λ q. ground arith;
  finalizer = ground arith;
  slots_kept = λ new k. ground (arith, before);
}

pub issue_locked-Refused :
    (mem : Bool) (s : CapState) (type obj_id rights owner_domain : ℕ) {e : KernelError}
    {s' : CapState}
    → issue_locked mem s type obj_id rights owner_domain ≡ done (err e, s')
    → Refused s s'
unfolding issue_locked
issue_locked-Refused mem s type obj_id rights owner_domain {e} {s'} h =
    elim (Option-cases (ensure_capabilities mem s.capabilities)) [
      | inl z ↦ self-Refused s s' (ground arith)
      | inr (slots, z) ↦
          let before = ensure-before mem s.capabilities slots z in
          elim (Result-cases (lookup_kobject s type obj_id)) [
            | inl (x, y) ↦ slots-Refused s s' slots before (ground arith)
            | inr ((ko, gen), y) ↦ elim (ℕ_discrete (free_slot (max_capabilities - 1) 1 slots) 0) [
              | yes full ↦ slots-Refused s s' slots before (ground arith)
              | no ne ↦
                  issue_at-Refused s slots (free_slot (max_capabilities - 1) 1 slots) ko gen type
                    rights owner_domain {e = e} before (ground arith)
            ]
          ]
    ]
