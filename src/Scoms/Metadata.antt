-- ===== src/Scoms/Metadata.antt =====
-- The metadata of registered objects: zxfoundation/scoms/metadata.zcomponent/core.cxxm and core.cxx.
-- An object is the address of its header; a reclaimer is the address of its code. The global lock
-- makes every operation one step.
pub mod Ops
pub mod Blocks
pub mod Links
pub mod Changes
pub mod Clearing
pub mod Dependents
pub mod Registering
pub mod Reclaiming
pub mod Attaching
pub mod Edits
pub mod History
pub mod Lifetime
use zxfoundation.Base.{
  ℕ, zero, suc, ◌+◌, ◌-◌, ◌/◌, ◌%◌, ◌^◌, Bool, true, false, not, ◌&&◌, ◌||◌, Option, none, some,
  Result, ok, err, KernelError, from_generic, from_memory, invalid_arg, not_found, out_of_memory,
  Outcome, done, fault, if◌then◌else◌, leb, ◌==◌,
}
use zxfoundation.Base.Arrays.{update}
use zxfoundation.Scoms.Kobject.{
  Bobject, Heap, KobjectType, none_type, domain, gate, portal, vm_region, io_binding, capability,
  strand, irq_desc, memory_resource, memory_extent, memory_folio, page, storage, grant, mapping,
  address_space, page_table, key, endpoint, message, kmem_cache, policy_server, service_entry,
  device_binding, dataset_extent,
}

abbrev pub max_object_metadata : ℕ
max_object_metadata = 16384

abbrev pub metadata_block_size : ℕ
metadata_block_size = 256

-- `KOBJECT_ID_INVALID`
abbrev pub invalid_id : ℕ
invalid_id = 2 ^ 32 - 1

-- The value of an enumerator of `kobject_type`.
unfoldable pub type_code : KobjectType → ℕ
type_code none_type = 0
type_code domain = 1
type_code gate = 2
type_code portal = 3
type_code vm_region = 4
type_code io_binding = 5
type_code capability = 6
type_code strand = 7
type_code irq_desc = 8
type_code memory_resource = 9
type_code memory_extent = 10
type_code memory_folio = 11
type_code page = 12
type_code storage = 13
type_code grant = 14
type_code mapping = 15
type_code address_space = 16
type_code page_table = 17
type_code key = 18
type_code endpoint = 19
type_code message = 20
type_code kmem_cache = 21
type_code policy_server = 22
type_code service_entry = 23
type_code device_binding = 24
type_code dataset_extent = 25

pub record ObjectMetadata : Type 0 where
  pub object : Option ℕ
  pub owner_domain : ℕ
  pub parent_slot : ℕ
  pub parent_type : KobjectType
  pub parent_id : ℕ
  pub parent_generation : ℕ
  pub object_flags : ℕ
  pub dependent_count : ℕ
  pub hardware_generation : ℕ
  pub reclaimer : Option ℕ
  pub active : Bool
  pub reclaim_pending : Bool

-- An entry of a new block.
abbrev pub blank : ObjectMetadata
blank = record {
  object = none;
  owner_domain = invalid_id;
  parent_slot = 0;
  parent_type = none_type;
  parent_id = invalid_id;
  parent_generation = 0;
  object_flags = 0;
  dependent_count = 0;
  hardware_generation = 0;
  reclaimer = none;
  active = false;
  reclaim_pending = false;
}

-- `g_metadata`: the blocks that were allocated.
abbrev pub MetadataBlocks : Type 0
MetadataBlocks = ℕ → Option (ℕ → ObjectMetadata)

-- The objects and their metadata.
pub record ObjectTable : Type 0 where
  pub heap : Heap
  pub blocks : MetadataBlocks

-- `metadata_at(index)`
unfoldable pub metadata_at : MetadataBlocks → ℕ → Option ObjectMetadata
metadata_at blocks index = elim (blocks (index / metadata_block_size)) [
  | none ↦ none
  | some block ↦ some (block (index % metadata_block_size))
]

-- The allocation in `metadata_at(index, true)`; `granted` says whether `kmalloc` gives the block.
unfoldable pub create_block : Bool → MetadataBlocks → ℕ → MetadataBlocks
create_block granted blocks index = elim (blocks (index / metadata_block_size)) [
  | some block ↦ blocks
  | none ↦
      if granted then update blocks (index / metadata_block_size) (some (λ i. blank)) else blocks
]

-- An assignment through the pointer that `metadata_at(index)` gives.
unfoldable pub modify_at : MetadataBlocks → ℕ → (ObjectMetadata → ObjectMetadata) → MetadataBlocks
modify_at blocks index f = elim (blocks (index / metadata_block_size)) [
  | none ↦ blocks
  | some block ↦
      update blocks (index / metadata_block_size) (
        some (update block (index % metadata_block_size) (f (block (index % metadata_block_size)))))
]

-- `entry->object == &object`
unfoldable pub describes : Option ℕ → ℕ → Bool
describes none p = false
describes (some q) p = q == p

-- The entry that the flags of an object name, if it passes the test.
named_entry : (ObjectMetadata → Bool) → ObjectTable → ℕ → Option (ℕ × ObjectMetadata)
named_entry test t p =
    let flags = (t.heap p).object_flags in
    if flags == 0
    then none
    else if leb max_object_metadata (flags - 1)
    then none
    else elim (metadata_at t.blocks (flags - 1)) [
      | none ↦ none
      | some entry ↦
          if test entry && describes entry.object p then some (flags - 1, entry) else none
    ]

-- `find_locked`: the index of the entry, and the entry.
unfoldable pub find_locked : ObjectTable → ℕ → Option (ℕ × ObjectMetadata)
unfolding named_entry
find_locked t p = named_entry (λ entry. entry.active) t p

unfoldable pub retired_locked : ObjectTable → ℕ → Option (ℕ × ObjectMetadata)
unfolding named_entry
retired_locked t p = named_entry (λ entry. entry.reclaim_pending) t p

abbrev pub error_not_found : KernelError
error_not_found = from_generic not_found

-- Whether the entry is the parent that the child was attached to.
unfoldable pub is_parent : Heap → ObjectMetadata → ObjectMetadata → Bool
is_parent h child parent = parent.active && elim parent.object [
  | none ↦ false
  | some q ↦
      (type_code (h q).type == type_code child.parent_type)
      && ((h q).id == child.parent_id)
      && ((h q).generation == child.parent_generation)
      && not (parent.dependent_count == 0)
]

-- `--parent->dependent_count`, under its conditions.
unfoldable pub drop_dependent : ObjectTable → ObjectMetadata → MetadataBlocks
drop_dependent t child =
    if child.parent_slot == 0
    then t.blocks
    else elim (metadata_at t.blocks (child.parent_slot - 1)) [
      | none ↦ t.blocks
      | some parent ↦
          if is_parent t.heap child parent
          then modify_at t.blocks (child.parent_slot - 1)
              (λ e. record e { dependent_count = e.dependent_count - 1 })
          else t.blocks
    ]

abbrev pub without_parent : ObjectMetadata → ObjectMetadata
without_parent e = record e {
  parent_slot = 0;
  parent_type = none_type;
  parent_id = invalid_id;
  parent_generation = 0;
}

-- `clear_parent_locked`, for the entry `child` at the index.
unfoldable pub clear_parent_locked : ObjectTable → ℕ → ObjectMetadata → ObjectTable
clear_parent_locked t index child =
    if child.parent_id == invalid_id
    then t
    else record t { blocks = modify_at (drop_dependent t child) index without_parent }
