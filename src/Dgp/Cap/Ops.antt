-- ===== src/Dgp/Cap/Ops.antt =====
-- The operations of zxfoundation/dgp/cap.zcomponent/core.cxx, in the order of that file. Each gives
-- what the function returns and the state that it leaves, or the fault that stops the kernel.
use zxfoundation.Base.{
  ℕ, zero, suc, ◌+◌, ◌-◌, ◌%◌, ◌^◌, Bool, true, false, not, ◌&&◌, ◌||◌, Option, none, some, Outcome,
  done, fault, Result, ok, err, from_generic, from_memory, not_supported, not_found, invalid_arg,
  capability_invalid, ◌>>=◌, if◌then◌else◌, leb, ◌==◌, bit_and,
}
use zxfoundation.Base.Arrays.{update}
use zxfoundation.Scoms.Kobject.{Heap, Finalizer, KobjectType, grant}
use zxfoundation.Dgp.Cap.Token.{
  CapToken, token_type, is_valid, domain_type, memory_type, delegate_right,
}
use zxfoundation.Dgp.Cap.Slots.{
  Slot, Lookup, CapState, lookup_table_size, max_capabilities, slot_for, validate_slot,
  issue_locked, retired, put_target,
}

unfoldable pub cap_issue : Bool → CapState → ℕ → ℕ → ℕ → ℕ → Outcome (Result CapToken × CapState)
cap_issue mem s type obj_id rights owner_domain = issue_locked mem s type obj_id rights owner_domain

-- The slot that a validated token names; `validate_slot` has found it before.
unfoldable pub slot_of : CapState → CapToken → Option Slot
slot_of s token = elim s.capabilities [
  | none ↦ none
  | some slots ↦ elim (slot_for (some slots) token) [ none ↦ none | some i ↦ some (slots i) ]
]

unfoldable pub cap_duplicate :
    Bool → CapState → CapToken → ℕ → ℕ → Outcome (Result CapToken × CapState)
unfolding slot_of
cap_duplicate mem s source rights owner_domain =
    elim (validate_slot s source rights owner_domain true) [
      | err e ↦ done (err e, s)
      | ok target ↦ elim (slot_of s source) [
        | none ↦ fault
        | some slot ↦ issue_locked mem s slot.type ((s.heap target).id % 2 ^ 16) rights owner_domain
      ]
    ]

-- `cap_acquire` has the body of `cap_duplicate`.
unfoldable pub cap_acquire :
    Bool → CapState → CapToken → ℕ → ℕ → Outcome (Result CapToken × CapState)
unfolding slot_of
cap_acquire mem s source rights owner_domain =
    elim (validate_slot s source rights owner_domain true) [
      | err e ↦ done (err e, s)
      | ok target ↦ elim (slot_of s source) [
        | none ↦ fault
        | some slot ↦ issue_locked mem s slot.type ((s.heap target).id % 2 ^ 16) rights owner_domain
      ]
    ]

unfoldable pub cap_duplicate_for :
    Bool → CapState → CapToken → ℕ → ℕ → ℕ → Outcome (Result CapToken × CapState)
unfolding slot_of
cap_duplicate_for mem s source rights source_domain owner_domain =
    elim (validate_slot s source rights source_domain true) [
      | err e ↦ done (err e, s)
      | ok target ↦ elim (slot_of s source) [
        | none ↦ fault
        | some slot ↦
            if not (owner_domain == source_domain)
              && not (bit_and slot.rights delegate_right == delegate_right)
            then done (err (from_memory capability_invalid), s)
            else issue_locked mem s slot.type ((s.heap target).id % 2 ^ 16) rights owner_domain
      ]
    ]

-- The body that `cap_release` and `cap_revoke` share: the slot is retired, then the target is put.
unfoldable pub retire_at : CapState → (ℕ → Slot) → ℕ → Outcome (Result (Unit {0}) × CapState)
unfolding put_target
retire_at s slots i = do
  h ← put_target s.finalizer s.heap (slots i).target
  done (ok tt, record s { heap = h; capabilities = some (update slots i (retired (slots i))) })

unfoldable pub cap_release : CapState → CapToken → Outcome (Result (Unit {0}) × CapState)
unfolding retire_at
cap_release s token =
    if not (is_valid token) then done (err (from_generic invalid_arg), s) else elim s.capabilities [
      | none ↦ done (err (from_generic not_found), s)
      | some slots ↦ elim (slot_for (some slots) token) [
        | none ↦ done (err (from_generic not_found), s)
        | some i ↦ retire_at s slots i
      ]
    ]

abbrev to_unit : Result ℕ → Result (Unit {0})
to_unit (ok p) = ok tt
to_unit (err e) = err e

unfoldable pub cap_validate_generic : CapState → CapToken → ℕ → Result (Unit {0})
cap_validate_generic s token needed =
    if not (is_valid token)
    then err (from_generic invalid_arg)
    else to_unit (validate_slot s token needed 0 false)

unfoldable pub cap_validate_generic_for : CapState → CapToken → ℕ → ℕ → Result (Unit {0})
cap_validate_generic_for s token needed owner_domain =
    to_unit (validate_slot s token needed owner_domain true)

unfoldable pub cap_resolve : CapState → CapToken → ℕ → Result ℕ
cap_resolve s token needed = validate_slot s token needed 0 false

unfoldable pub register_lookup : CapState → ℕ → Lookup → Result (Unit {0}) × CapState
register_lookup s type fn =
    if leb lookup_table_size type
    then (err (from_generic not_supported), s)
    else (ok tt, record s { lookup_table = update s.lookup_table type (some fn) })

unfoldable pub cap_revoke : CapState → CapToken → Outcome (Result (Unit {0}) × CapState)
unfolding retire_at
cap_revoke s token =
    if not (is_valid token) then done (err (from_generic invalid_arg), s) else elim s.capabilities [
      | none ↦ done (err (from_generic not_found), s)
      | some slots ↦ elim (slot_for (some slots) token) [
        | none ↦ done (err (from_generic not_found), s)
        | some i ↦ retire_at s slots i
      ]
    ]

-- What the two revocation loops change.
pub record Sweep : Type 0 where
  pub heap : Heap
  pub slots : ℕ → Slot
  pub revoked : ℕ

-- `for (u32 i = 1; i < MAX_CAPABILITIES; ++i)`, with the rounds left and the index.
unfoldable pub each_slot : ℕ → ℕ → (ℕ → Sweep → Outcome Sweep) → Sweep → Outcome Sweep
each_slot zero i body w = done w
each_slot (suc n) i body w = body i w >>= each_slot n (i + 1) body

-- `slot.target && slot.target->id == domain_id`
targets_id : Heap → Option ℕ → ℕ → Bool
targets_id h none domain_id = false
targets_id h (some ko) domain_id = (h ko).id == domain_id

-- Whether `cap_revoke_for_domain` takes the slot: the domain owns it, or it refers to the domain.
unfoldable pub concerns : Heap → ℕ → Slot → Bool
unfolding targets_id
concerns h domain_id slot =
    slot.active
    && ((slot.owner_domain == domain_id)
        || ((slot.type == domain_type) && targets_id h slot.target domain_id))

-- `if (target) target->put()`
put_if_any : Option Finalizer → Heap → Option ℕ → Outcome Heap
put_if_any f h none = done h
put_if_any f h (some ko) = put_target f h (some ko)

unfoldable pub revoke_domain_slot : Option Finalizer → ℕ → ℕ → Sweep → Outcome Sweep
unfolding concerns put_if_any
revoke_domain_slot f domain_id i w =
    if not (concerns w.heap domain_id (w.slots i)) then done w else do
      h ← put_if_any f w.heap (w.slots i).target
      done (record {
        heap = h;
        slots = update w.slots i (retired (w.slots i));
        revoked = (w.revoked + 1) % 2 ^ 32;
      })

unfoldable pub cap_revoke_for_domain : CapState → ℕ → Outcome (Result ℕ × CapState)
cap_revoke_for_domain s domain_id = elim s.capabilities [
  | none ↦ done (ok 0, s)
  | some slots ↦
      each_slot (max_capabilities - 1) 1 (revoke_domain_slot s.finalizer domain_id)
        (record { heap = s.heap; slots = slots; revoked = 0 })
      >>= λ w. done (ok w.revoked, record s { heap = w.heap; capabilities = some w.slots })
]

-- `slot.target == &target`
unfoldable pub is_target : Option ℕ → ℕ → Bool
is_target none target = false
is_target (some ko) target = ko == target

unfoldable pub revoke_target_slot : Option Finalizer → ℕ → ℕ → Sweep → Outcome Sweep
unfolding is_target
revoke_target_slot f target i w =
    if not (w.slots i).active || not (is_target (w.slots i).target target) then done w else do
      h ← put_target f w.heap (some target)
      done (record {
        heap = h;
        slots = update w.slots i (retired (w.slots i));
        revoked = (w.revoked + 1) % 2 ^ 32;
      })

-- The code reads `s_capabilities[1]` without asking whether the array is there.
unfoldable pub cap_revoke_target : CapState → ℕ → Outcome (Result ℕ × CapState)
cap_revoke_target s target = elim s.capabilities [
  | none ↦ fault
  | some slots ↦
      each_slot (max_capabilities - 1) 1 (revoke_target_slot s.finalizer target)
        (record { heap = s.heap; slots = slots; revoked = 0 })
      >>= λ w. done (ok w.revoked, record s { heap = w.heap; capabilities = some w.slots })
]

-- `cap_validate<T>` for the types whose check is the token's type alone: `domain`, `gate_desc` and
-- `portal_desc`, at the type's discriminator.
unfoldable pub cap_validate : ℕ → CapState → CapToken → ℕ → Result ℕ
cap_validate type s token needed = elim (validate_slot s token needed 0 false) [
  | err e ↦ err e
  | ok ko ↦ if token_type token == type then ok ko else err (from_generic invalid_arg)
]

-- `object->ko.type == kobject_type::grant`
is_grant : KobjectType → Bool
is_grant grant = true
is_grant _ = false

unfoldable pub cap_validate_memory : CapState → CapToken → ℕ → Result ℕ
unfolding is_grant
cap_validate_memory s token needed = elim (validate_slot s token needed 0 false) [
  | err e ↦ err e
  | ok ko ↦
      if not (token_type token == memory_type)
      then err (from_generic invalid_arg)
      else if is_grant (s.heap ko).type
      then ok ko
      else err (from_memory capability_invalid)
]
