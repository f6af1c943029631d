-- ===== src/Dgp/Cap/Slots.antt =====
-- The state of zxfoundation/dgp/cap.zcomponent/core.cxx and its `detail` helpers. Every operation
-- runs under `s_capability_lock`, so each is one step on the state.

use zxfoundation.Base.{
  ℕ, zero, suc, ◌+◌, ◌-◌, ◌%◌, ◌^◌, Bool, true, false, not, ◌&&◌, ◌||◌, Option, none, some, Outcome,
  done, fault, Result, ok, err, from_generic, from_memory, not_supported, not_found, invalid_arg,
  out_of_memory, capability_invalid, ◌>>=◌, if◌then◌else◌, leb, ◌==◌, bit_and,
}
use zxfoundation.Base.Arrays.{update}
use zxfoundation.Scoms.Kobject.{Heap, Finalizer, active, dying, destroyed, is_state, try_get, put}
use zxfoundation.Dgp.Cap.Token.{
  CapToken, make, token_type, object_id, generation, token_rights, is_valid, none_type, no_rights,
}

abbrev pub lookup_table_size : ℕ
lookup_table_size = 16

abbrev pub max_capabilities : ℕ
max_capabilities = 1024

-- `capability_slot`
pub record Slot : Type 0 where
  pub target : Option ℕ
  pub type : ℕ
  pub rights : ℕ
  pub owner_domain : ℕ
  pub target_generation : ℕ
  pub generation : ℕ
  pub active : Bool

-- `capability_slot{}`
abbrev pub empty_slot : Slot
empty_slot = record {
  target = none;
  type = none_type;
  rights = no_rights;
  owner_domain = 2 ^ 32 - 1;
  target_generation = 0;
  generation = 1;
  active = false;
}

-- `lookup_fn`: from an object ID to the header's address; it reads the object tables.
abbrev pub Lookup : Type 0
Lookup = Heap → ℕ → Option ℕ

-- `s_capabilities` (null until the first issue), `s_lookup_table`, the headers that pointers go to,
-- and the finalizer that `bobject::put` calls.
pub record CapState : Type 0 where
  pub heap : Heap
  pub finalizer : Option Finalizer
  pub capabilities : Option (ℕ → Slot)
  pub lookup_table : ℕ → Option Lookup

-- `ensure_capabilities_locked`. `mem` says whether `kmalloc` grants the array.
unfoldable pub ensure_capabilities : Bool → Option (ℕ → Slot) → Option (ℕ → Slot)
ensure_capabilities mem (some slots) = some slots
ensure_capabilities true none = some (λ i. empty_slot)
ensure_capabilities false none = none

-- `lookup_kobject`: the header's address and its generation.
unfoldable pub lookup_kobject : CapState → ℕ → ℕ → Result (ℕ × ℕ)
lookup_kobject s type obj_id =
    if leb lookup_table_size type
    then err (from_generic not_supported)
    else elim (s.lookup_table type) [
      | none ↦ err (from_generic not_supported)
      | some fn ↦ elim (fn s.heap obj_id) [
        | none ↦ err (from_generic not_found)
        | some ko ↦ ok (ko, (s.heap ko).generation)
      ]
    ]

-- `check_rights`
unfoldable pub check_rights : CapToken → ℕ → Bool
check_rights token needed =
    if not (needed == no_rights) && not (bit_and (token_rights token) needed == needed)
    then false
    else true

-- What `slot_for` asks of the slot that the token names.
unfoldable pub matches : Slot → CapToken → Bool
matches slot token =
    slot.active
    && (slot.generation == generation token)
    && (slot.type == token_type token)
    && (slot.rights == token_rights token)

-- `slot_for`: the index of the slot, or null.
unfoldable pub slot_for : Option (ℕ → Slot) → CapToken → Option ℕ
unfolding matches
slot_for none token = none
slot_for (some slots) token =
    if not (is_valid token) || (object_id token == 0) || leb max_capabilities (object_id token)
    then none
    else if matches (slots (object_id token)) token
    then some (object_id token)
    else none

-- The part of `validate_slot` past a matching slot.
unfoldable pub validate_target : Heap → Slot → CapToken → ℕ → ℕ → Bool → Result ℕ
unfolding check_rights
validate_target h slot token needed owner_domain check_owner = elim slot.target [
  | none ↦ err (from_generic not_found)
  | some ko ↦
      if not ((h ko).generation == slot.target_generation)
        || is_state (h ko).state dying
        || is_state (h ko).state destroyed
      then err (from_generic not_found)
      else if check_owner && not (slot.owner_domain == owner_domain)
      then err (from_memory capability_invalid)
      else if check_rights token needed
      then ok ko
      else err (from_generic invalid_arg)
]

-- `validate_slot`: the target's address, which the code returns through a reference.
unfoldable pub validate_slot : CapState → CapToken → ℕ → ℕ → Bool → Result ℕ
validate_slot s token needed owner_domain check_owner = elim s.capabilities [
  | none ↦ err (from_generic not_found)
  | some slots ↦ elim (slot_for (some slots) token) [
    | none ↦ err (from_generic not_found)
    | some i ↦ validate_target s.heap (slots i) token needed owner_domain check_owner
  ]
]

-- The loop of `issue_locked`: the lowest free index from `i` in the `n` left, 0 if there is none.
unfoldable pub free_slot : ℕ → ℕ → (ℕ → Slot) → ℕ
free_slot zero i slots = 0
free_slot (suc n) i slots = elim (slots i).active [ false ↦ i | true ↦ free_slot n (i + 1) slots ]

-- `issue_locked` once a slot and a target are found.
unfoldable pub issue_at :
    CapState → (ℕ → Slot) → ℕ → ℕ → ℕ → ℕ → ℕ → ℕ → Outcome (Result CapToken × CapState)
issue_at s slots slot_id target target_generation type rights owner_domain =
    if not (is_state (s.heap target).state active)
    then done (err (from_generic not_supported), record s { capabilities = some slots })
    else do
      (got, h) ← try_get s.heap target
      done (
          if got
          then (
            ok (make type (slot_id % 2 ^ 16) (slots slot_id).generation rights),
            record s {
              heap = h;
              capabilities = some (
                  update slots slot_id (record {
                    target = some target;
                    type = type;
                    rights = rights;
                    owner_domain = owner_domain;
                    target_generation = target_generation;
                    generation = (slots slot_id).generation;
                    active = true;
                  }));
            },
          )
          else (err (from_generic not_found), record s { heap = h; capabilities = some slots }))

-- `issue_locked`
unfoldable pub issue_locked : Bool → CapState → ℕ → ℕ → ℕ → ℕ → Outcome (Result CapToken × CapState)
issue_locked mem s type obj_id rights owner_domain = elim (ensure_capabilities mem s.capabilities) [
  | none ↦ done (err (from_memory out_of_memory), s)
  | some slots ↦ elim (lookup_kobject s type obj_id) [
    | err e ↦ done (err e, record s { capabilities = some slots })
    | ok (target, target_generation) ↦
        let slot_id = free_slot (max_capabilities - 1) 1 slots in
        if slot_id == 0
        then done (err (from_memory out_of_memory), record s { capabilities = some slots })
        else issue_at s slots slot_id target target_generation type rights owner_domain
  ]
]

-- A slot as release and revocation leave it.
abbrev pub retired : Slot → Slot
retired slot = record slot {
  target = none;
  generation = (slot.generation + 1) % 2 ^ 16;
  active = false;
}

-- `target->put()`; a null target is a null dereference.
unfoldable pub put_target : Option Finalizer → Heap → Option ℕ → Outcome Heap
put_target f h none = fault
put_target f h (some ko) = put f h ko
