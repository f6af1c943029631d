-- ===== src/Scoms/Metadata/Ops.antt =====
-- The operations on the metadata, in the order of zxfoundation/scoms/metadata.zcomponent/core.cxx.
use zxfoundation.Base.{
  ℕ, zero, suc, ◌+◌, ◌%◌, ◌^◌, Bool, true, false, not, ◌||◌, Option, none, some, Result, ok, err,
  from_generic, from_memory, invalid_arg, out_of_memory, Outcome, done, fault, if◌then◌else◌, ◌==◌,
}
use zxfoundation.Base.Arrays.{update}
use zxfoundation.Scoms.Kobject.{Bobject, Heap, none_type}
use zxfoundation.Scoms.Metadata.{
  max_object_metadata, invalid_id, ObjectMetadata, MetadataBlocks, ObjectTable, metadata_at,
  create_block, modify_at, find_locked, retired_locked, error_not_found, clear_parent_locked,
}

-- The search of `register_object`, from index `i` with the rounds left: the blocks it leaves, and
-- the first free entry. `granted i` says whether the block is given at index `i`.
unfoldable pub find_free : ℕ → ℕ → (ℕ → Bool) → MetadataBlocks → MetadataBlocks × Option ℕ
find_free zero i granted blocks = (blocks, none)
find_free (suc n) i granted blocks =
    let created = create_block (granted i) blocks i in
    elim (metadata_at created i) [
      | none ↦ find_free n (i + 1) granted created
      | some entry ↦ elim (entry.active || entry.reclaim_pending) [
        | true ↦ find_free n (i + 1) granted created
        | false ↦ (created, some i)
      ]
    ]

-- What `register_object` writes to the free entry.
abbrev pub registered : ℕ → ℕ → ℕ → ObjectMetadata → ObjectMetadata
registered p owner_domain object_flags e = record e {
  object = some p;
  owner_domain = owner_domain;
  parent_slot = 0;
  parent_type = none_type;
  parent_id = invalid_id;
  parent_generation = 0;
  object_flags = object_flags;
  dependent_count = 0;
  hardware_generation = 0;
  reclaimer = none;
  active = true;
  reclaim_pending = false;
}

-- `object.object_flags = flags`
abbrev pub set_flags : Heap → ℕ → ℕ → Heap
set_flags h p flags = update h p (record (h p) { object_flags = flags })

unfoldable pub register_object : (ℕ → Bool) → ObjectTable → ℕ → ℕ → Result (Unit {0}) × ObjectTable
register_object granted t p owner_domain = elim (find_locked t p) [
  | some found ↦ (err (from_generic invalid_arg), t)
  | none ↦
      let (created, free) = find_free max_object_metadata 0 granted t.blocks in
      elim free [
        | none ↦ (err (from_memory out_of_memory), record t { blocks = created })
        | some i ↦ (
          ok tt,
          record {
            heap = set_flags t.heap p (i + 1);
            blocks = modify_at created i (registered p owner_domain (t.heap p).object_flags);
          },
        )
      ]
]

unfoldable pub unregister_object : ObjectTable → ℕ → Result (Unit {0}) × ObjectTable
unregister_object t p = elim (find_locked t p) [
  | none ↦ (err error_not_found, t)
  | some (i, entry) ↦
      if not (entry.dependent_count == 0)
      then (err (from_generic invalid_arg), t)
      else let cleared = clear_parent_locked t i entry in
        (
          ok tt,
          record cleared {
            blocks =
                modify_at cleared.blocks i
                  (λ e. record e { active = false; reclaim_pending = true });
          },
        )
]

-- An assignment to the entry of an object.
abbrev pub edit_entry :
    ObjectTable → ℕ → (ObjectMetadata → ObjectMetadata) → Result (Unit {0}) × ObjectTable
edit_entry t p f = elim (find_locked t p) [
  | none ↦ (err error_not_found, t)
  | some (i, entry) ↦ (ok tt, record t { blocks = modify_at t.blocks i f })
]

unfoldable pub set_reclaimer : ObjectTable → ℕ → Option ℕ → Result (Unit {0}) × ObjectTable
set_reclaimer t p none = (err (from_generic invalid_arg), t)
set_reclaimer t p (some reclaimer) = edit_entry t p (λ e. record e { reclaimer = some reclaimer })

-- `finalize_last_put`; `run` is what the code at an address does to an object.
unfoldable pub finalize_last_put :
    (ℕ → ObjectTable → ℕ → Outcome ObjectTable) → ObjectTable → ℕ → Outcome ObjectTable
finalize_last_put run t p = elim (retired_locked t p) [
  | none ↦ fault
  | some (i, entry) ↦ elim entry.reclaimer [ none ↦ fault | some reclaimer ↦ run reclaimer t p ]
]

unfoldable pub complete_reclaim : ObjectTable → ℕ → Outcome ObjectTable
complete_reclaim t p = elim (retired_locked t p) [
  | none ↦ fault
  | some (i, entry) ↦ done (record {
    heap = set_flags t.heap p 0;
    blocks =
        modify_at t.blocks i
          (λ e. record e { object = none; reclaimer = none; reclaim_pending = false });
  })
]

unfoldable pub set_owner : ObjectTable → ℕ → ℕ → Result (Unit {0}) × ObjectTable
set_owner t p owner = edit_entry t p (λ e. record e { owner_domain = owner })

abbrev pub with_parent : Bobject → ObjectMetadata → ObjectMetadata
with_parent parent e = record e {
  parent_type = parent.type;
  parent_id = parent.id;
  parent_generation = parent.generation;
  parent_slot = parent.object_flags;
}

abbrev pub one_more : ObjectMetadata → ObjectMetadata
one_more e = record e { dependent_count = (e.dependent_count + 1) % 2 ^ 32 }

unfoldable pub attach : ObjectTable → (child parent : ℕ) → Result (Unit {0}) × ObjectTable
attach t child parent =
    if child == parent then (err (from_generic invalid_arg), t) else elim (find_locked t child) [
      | none ↦ (err error_not_found, t)
      | some (i, child_meta) ↦ elim (find_locked t parent) [
        | none ↦ (err error_not_found, t)
        | some (k, parent_meta) ↦
            if not (child_meta.parent_id == invalid_id) then (err error_not_found, t) else (
              ok tt,
              record t {
                blocks = modify_at (modify_at t.blocks i (with_parent (t.heap parent))) k one_more;
              },
            )
      ]
    ]

unfoldable pub detach : ObjectTable → ℕ → Result (Unit {0}) × ObjectTable
detach t child = elim (find_locked t child) [
  | none ↦ (err error_not_found, t)
  | some (i, child_meta) ↦
      if child_meta.parent_id == invalid_id
      then (ok tt, t)
      else (ok tt, clear_parent_locked t i child_meta)
]

unfoldable pub has_dependents : ObjectTable → ℕ → Bool
has_dependents t p = elim (find_locked t p) [
  | none ↦ false
  | some (i, entry) ↦ not (entry.dependent_count == 0)
]

unfoldable pub bump_hardware_generation : ObjectTable → ℕ → Result ℕ × ObjectTable
bump_hardware_generation t p = elim (find_locked t p) [
  | none ↦ (err error_not_found, t)
  | some (i, entry) ↦
      let bumped = (entry.hardware_generation + 1) % 2 ^ 32 in
      (
        ok bumped,
        record t { blocks = modify_at t.blocks i (λ e. record e { hardware_generation = bumped }) },
      )
]

unfoldable pub metadata : ObjectTable → ℕ → Result ObjectMetadata
metadata t p = elim (find_locked t p) [ none ↦ err error_not_found | some (i, entry) ↦ ok entry ]
