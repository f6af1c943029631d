-- ===== src/Dgp/Cap/Reach.antt =====
-- The capability table among the other users of the kernel's objects: calls of its operations in
-- any order, and in between whatever the rest of the kernel does with references of its own.
use zxfoundation.Base.{
  ℕ, ◌%◌, ◌^◌, ◌≤◌, ◌<◌, ◌≡◌, refl, subst, Bool, true, not, ◌&&◌, ◌==◌, bit_and, sym, ◌∙◌, leb,
  some, Outcome, done, fault, Result, arith, inl, inr, Bool-cases, Option-cases, Result-cases,
}
use zxfoundation.Scoms.Kobject.{Heap}
use zxfoundation.Scoms.Kobject.Counting.{AreWords}
use zxfoundation.Dgp.Cap.Token.{CapToken, is_valid, delegate_right}
use zxfoundation.Dgp.Cap.Slots.{
  Slot, Lookup, CapState, lookup_table_size, max_capabilities, slot_for, validate_slot,
}
use zxfoundation.Dgp.Cap.Held.{held}
use zxfoundation.Dgp.Cap.Sound.{IsValid, target_live}
use zxfoundation.Dgp.Cap.Preserve.{issue_locked-IsValid, slot_for-active, retire_at-IsValid}
use zxfoundation.Dgp.Cap.Sweeps.{cap_revoke_for_domain-IsValid, cap_revoke_target-IsValid}
use zxfoundation.Dgp.Cap.Ops.{
  cap_issue, cap_duplicate, cap_acquire, cap_duplicate_for, cap_release, register_lookup,
  cap_revoke, cap_revoke_for_domain, cap_revoke_target, slot_of,
}

pub data Call : Type 0 where
  issues : Bool → ℕ → ℕ → ℕ → ℕ → Call
  duplicates acquires : Bool → CapToken → ℕ → ℕ → Call
  duplicates_for : Bool → CapToken → ℕ → ℕ → ℕ → Call
  releases revokes : CapToken → Call
  registers : ℕ → Lookup → Call
  revokes_for_domain revokes_target : ℕ → Call

after {ℓ} : {A : Type ℓ} → Outcome (A × CapState) → Outcome CapState
after (done (r, s)) = done s
after fault = fault

-- The state that a call leaves, its result aside.
unfoldable pub step : CapState → Call → Outcome CapState
unfolding after
step s (issues mem type obj_id rights owner) = after (cap_issue mem s type obj_id rights owner)
step s (duplicates mem source rights owner) = after (cap_duplicate mem s source rights owner)
step s (acquires mem source rights owner) = after (cap_acquire mem s source rights owner)
step s (duplicates_for mem source rights from owner) =
    after (cap_duplicate_for mem s source rights from owner)
step s (releases token) = after (cap_release s token)
step s (revokes token) = after (cap_revoke s token)
step s (registers type fn) = done (register_lookup s type fn).1
step s (revokes_for_domain domain_id) = after (cap_revoke_for_domain s domain_id)
step s (revokes_target target) = after (cap_revoke_target s target)

-- `calls` is a call of the component. `others` is a step of other code: it may take and put
-- references and change headers, and leaves at least the references that the slots stand for.
pub data Step : CapState → CapState → Type 0 where
  calls : {s s' : CapState} (c : Call) → step s c ≡ done s' → Step s s'
  others :
      {s : CapState} (h : Heap)
      → AreWords h
      → ((slots : ℕ → Slot)
          → s.capabilities ≡ some slots
          → (p : ℕ) → held slots p max_capabilities ≤ (h p).count)
      → Step s (record s { heap = h })

pub data Reach (s : CapState) : CapState → Type 0 where
  here : Reach s s
  next : {t u : CapState} → Reach s t → Step t u → Reach s u

cap_duplicate-IsValid :
    (mem : Bool) (s : CapState) (source : CapToken) (rights owner : ℕ) {r : Result CapToken}
    {s' : CapState}
    → cap_duplicate mem s source rights owner ≡ done (r, s')
    → IsValid s
    → IsValid s'
unfolding cap_duplicate
cap_duplicate-IsValid mem s source rights owner {r} {s'} e v =
    elim (Result-cases (validate_slot s source rights owner true)) [
      | inl (x, z) ↦ subst IsValid (ground arith) v
      | inr (target, z) ↦ elim (Option-cases (slot_of s source)) [
        | inl y ↦ absurd (ground arith)
        | inr (slot, y) ↦
            issue_locked-IsValid mem s slot.type ((s.heap target).id % 2 ^ 16) rights owner r
              (ground arith) v
      ]
    ]

-- The two functions have one body.
pub cap_acquire-eq-cap_duplicate :
    (mem : Bool) (s : CapState) (source : CapToken) (rights owner : ℕ)
    → cap_acquire mem s source rights owner ≡ cap_duplicate mem s source rights owner
unfolding cap_acquire cap_duplicate
cap_acquire-eq-cap_duplicate mem s source rights owner = refl

pub cap_revoke-eq-cap_release :
    (s : CapState) (token : CapToken) → cap_revoke s token ≡ cap_release s token
unfolding cap_revoke cap_release
cap_revoke-eq-cap_release s token = refl

cap_duplicate_for-IsValid :
    (mem : Bool) (s : CapState) (source : CapToken) (rights from owner : ℕ) {r : Result CapToken}
    {s' : CapState}
    → cap_duplicate_for mem s source rights from owner ≡ done (r, s')
    → IsValid s
    → IsValid s'
unfolding cap_duplicate_for
cap_duplicate_for-IsValid mem s source rights from owner {r} {s'} e v =
    elim (Result-cases (validate_slot s source rights from true)) [
      | inl (x, z) ↦ subst IsValid (ground arith) v
      | inr (target, z) ↦ elim (Option-cases (slot_of s source)) [
        | inl y ↦ absurd (ground arith)
        | inr (slot, y) ↦
            elim (Bool-cases
              (not (owner == from) && not (bit_and slot.rights delegate_right == delegate_right))) [
                | inl refused ↦ subst IsValid (ground arith) v
                | inr granted ↦
                    issue_locked-IsValid mem s slot.type ((s.heap target).id % 2 ^ 16) rights owner
                      r (ground arith) v
              ]
      ]
    ]

cap_release-IsValid :
    (s : CapState) (token : CapToken) {r : Result (Unit {0})} {s' : CapState}
    → cap_release s token ≡ done (r, s')
    → IsValid s
    → IsValid s'
unfolding cap_release
cap_release-IsValid s token {r} {s'} e v = elim (Bool-cases (is_valid token)) [
  | inr null ↦ subst IsValid (ground arith) v
  | inl valid ↦ elim (Option-cases s.capabilities) [
    | inl z ↦ subst IsValid (ground arith) v
    | inr (slots, z) ↦ elim (Option-cases (slot_for (some slots) token)) [
      | inl y ↦ subst IsValid (ground arith) v
      | inr (i, y) ↦
          let (on, pos, below) = slot_for-active slots token y in
          retire_at-IsValid s slots i {r = r} v z below on (ground arith)
    ]
  ]
]

register_lookup-IsValid :
    (s : CapState) (type : ℕ) (fn : Lookup) → IsValid s → IsValid (register_lookup s type fn).1
unfolding register_lookup
register_lookup-IsValid s type fn v = elim (Bool-cases (leb lookup_table_size type)) [
  | inl e ↦ rw e v
  | inr e ↦ rw e (record { confined = v.confined; heap_words = v.heap_words; sound = v.sound })
]

after-done :
    {A : Type 0} (o : Outcome (A × CapState)) {s' : CapState}
    → after o ≡ done s'
    → (r : A) × (o ≡ done (r, s'))
unfolding after
after-done (done (r, s)) e = (r, ground arith)
after-done fault e = cc

step-IsValid :
    (s : CapState) (c : Call) {s' : CapState} → step s c ≡ done s' → IsValid s → IsValid s'
unfolding step
step-IsValid s (issues mem type obj_id rights owner) e v =
    let (r, f) = after-done (cap_issue mem s type obj_id rights owner) e in
    issue_locked-IsValid mem s type obj_id rights owner r (unfold cap_issue in f) v
step-IsValid s (duplicates mem source rights owner) e v =
    let (r, f) = after-done (cap_duplicate mem s source rights owner) e in
    cap_duplicate-IsValid mem s source rights owner f v
step-IsValid s (acquires mem source rights owner) e v =
    let (r, f) = after-done (cap_acquire mem s source rights owner) e in
    cap_duplicate-IsValid mem s source rights owner
      (sym (cap_acquire-eq-cap_duplicate mem s source rights owner) ∙ f) v
step-IsValid s (duplicates_for mem source rights from owner) e v =
    let (r, f) = after-done (cap_duplicate_for mem s source rights from owner) e in
    cap_duplicate_for-IsValid mem s source rights from owner f v
step-IsValid s (releases token) e v =
    let (r, f) = after-done (cap_release s token) e in cap_release-IsValid s token f v
step-IsValid s (revokes token) e v =
    let (r, f) = after-done (cap_revoke s token) e in
    cap_release-IsValid s token (sym (cap_revoke-eq-cap_release s token) ∙ f) v
step-IsValid s (registers type fn) e v = subst IsValid (cc) (register_lookup-IsValid s type fn v)
step-IsValid s (revokes_for_domain domain_id) e v =
    let (r, f) = after-done (cap_revoke_for_domain s domain_id) e in
    cap_revoke_for_domain-IsValid s domain_id v f
step-IsValid s (revokes_target target) e v =
    let (r, f) = after-done (cap_revoke_target s target) e in cap_revoke_target-IsValid s target v f

-- Every step, of the component or of other code, keeps every active slot backed by a reference.
pub Step-IsValid : {s s' : CapState} → Step s s' → IsValid s → IsValid s'
Step-IsValid (calls c e) v = step-IsValid _ c e v
Step-IsValid (others {s = s} h words enough) v = record {
  confined = v.confined;
  heap_words = words;
  sound = λ slots e. record {
    words = words;
    stamps = (v.sound slots e).stamps;
    targets = (v.sound slots e).targets;
    counted = enough slots e;
  };
}

pub Reach-IsValid : {s s' : CapState} → Reach s s' → IsValid s → IsValid s'
Reach-IsValid here v = v
Reach-IsValid (next r st) v = Step-IsValid st (Reach-IsValid r v)

-- No dangling capability: after any history from a valid state, the target of an active slot
-- exists and has not been given its last put.
pub Reach-target_live :
    {s s' : CapState}
    → IsValid s
    → Reach s s'
    → (slots : ℕ → Slot) → s'.capabilities ≡ some slots
    → (i : ℕ) → i < max_capabilities
    → (slots i).active ≡ true
    → (p : ℕ) × ((slots i).target ≡ some p) × (0 < (s'.heap p).count)
Reach-target_live {s} {s'} v r slots e i below on =
    target_live s'.heap slots i ((Reach-IsValid r v).sound slots e) below on
