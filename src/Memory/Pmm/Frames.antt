-- ===== src/Memory/Pmm/Frames.antt =====
-- The descriptors of frames in use, of pmm.zcomponent/core.cxx: the pins on a frame, the object
-- that authorizes it, and the checks on a block that was allocated.
use zxfoundation.Base.{
  ℕ, zero, suc, ◌+◌, ◌-◌, ◌*◌, ◌/◌, ◌%◌, ◌^◌, Bool, false, not, ◌&&◌, ◌||◌, Result, ok, err,
  from_memory, out_of_memory, invalid_address, alignment_error, hhdm_init_failed, zone_exhausted,
  purpose_mismatch, capability_invalid, if◌then◌else◌, ltb, leb, ◌==◌, bit_and,
}
use zxfoundation.Base.Arrays.{update}
use zxfoundation.Scoms.Metadata.{invalid_id}
use zxfoundation.Memory.Pmm.{
  ZoneState, FrameDesc, page_size, max_order, wrapping_add, page_table_owner, ff_offline, ff_zeroed,
  ff_shared, zone_of, desc_of, order_of, owner_of,
}

abbrev pub u32_size : ℕ
u32_size = 2 ^ 32

-- `set_at` of a descriptor.
unfoldable pub with_frame : ℕ → FrameDesc → ZoneState → ZoneState
with_frame pfn d s = record s { frames = update s.frames pfn d }

-- `frame_desc_of` as an index, and its absence.
unfoldable pub pfn_of : ZoneState → ℕ → Result ℕ
pfn_of s phys =
    if not s.has_table
    then err (from_memory out_of_memory)
    else if leb s.max_pfn (phys / page_size)
    then err (from_memory out_of_memory)
    else ok (phys / page_size)

unfoldable pub with_refcount : ZoneState → ℕ → ℕ → ZoneState × Result ℕ
with_refcount s pfn n = (with_frame pfn (record (s.frames pfn) { refcount = n }) s, ok n)

unfoldable pub ref_at : ZoneState → Result ℕ → ZoneState × Result ℕ
unfolding with_refcount
ref_at s (err e) = (s, err e)
ref_at s (ok pfn) =
    let current = (s.frames pfn).refcount in
    if current == 0xffff
    then (s, err (from_memory out_of_memory))
    else with_refcount s pfn ((current + 1) % 2 ^ 16)

unfoldable pub frame_ref : ℕ → ZoneState → ZoneState × Result ℕ
unfolding ref_at
frame_ref phys s = ref_at s (pfn_of s phys)

unfoldable pub unref_at : ZoneState → Result ℕ → ZoneState × Result ℕ
unfolding with_refcount
unref_at s (err e) = (s, err e)
unref_at s (ok pfn) =
    let current = (s.frames pfn).refcount in
    if current == 0
    then (s, err (from_memory purpose_mismatch))
    else with_refcount s pfn ((current + (2 ^ 16 - 1)) % 2 ^ 16)

unfoldable pub frame_unref : ℕ → ZoneState → ZoneState × Result ℕ
unfolding unref_at
frame_unref phys s = unref_at s (pfn_of s phys)

-- The id and the generation are stamped; a frame that may be written is not known to be zero.
unfoldable pub stamp : ℕ → ℕ → Bool → FrameDesc → FrameDesc
stamp object_id object_generation writable d = record d {
  object_id = object_id;
  object_generation = object_generation;
  flags = if writable then d.flags - bit_and d.flags ff_zeroed else d.flags;
}

unfoldable pub stamp_at : ℕ → ℕ → Bool → ZoneState → Result ℕ → ZoneState × Result (Unit {0})
unfolding stamp
stamp_at object_id object_generation writable s (err e) = (s, err e)
stamp_at object_id object_generation writable s (ok pfn) =
    (with_frame pfn (stamp object_id object_generation writable (s.frames pfn)) s, ok tt)

unfoldable pub frame_set_mapping_metadata :
    ℕ → ℕ → ℕ → Bool → ZoneState → ZoneState × Result (Unit {0})
unfolding stamp_at
frame_set_mapping_metadata phys object_id object_generation writable s =
    stamp_at object_id object_generation writable s (desc_of s phys)

unfoldable pub frame_clear_mapping_metadata : ℕ → ZoneState → ZoneState × Result (Unit {0})
frame_clear_mapping_metadata phys s = frame_set_mapping_metadata phys invalid_id 0 false s

-- The frame carries this identity and is not offline.
unfoldable pub carries : ℕ → ℕ → FrameDesc → Bool
carries object_id object_generation d =
    (d.object_id == object_id)
    && (d.object_generation == object_generation)
    && (bit_and d.flags ff_offline == 0)

unfoldable pub validate_at : ℕ → ℕ → ZoneState → Result ℕ → Result (Unit {0}) → Result (Unit {0})
validate_at object_id object_generation s (err e) later = err e
validate_at object_id object_generation s (ok pfn) later =
    if not (carries object_id object_generation (s.frames pfn))
    then err (from_memory capability_invalid)
    else later

-- The pages from `phys` on, `pages` of them.
unfoldable pub validate_pages : ℕ → ℕ → ZoneState → ℕ → ℕ → Result (Unit {0})
unfolding validate_at
validate_pages object_id object_generation s zero phys = ok tt
validate_pages object_id object_generation s (suc pages) phys =
    validate_at object_id object_generation s (desc_of s phys)
      (validate_pages object_id object_generation s pages (phys + page_size))

unfoldable pub frame_validate_mapping : ℕ → ℕ → ℕ → ℕ → ZoneState → Result (Unit {0})
frame_validate_mapping phys_start length object_id object_generation s =
    if (length == 0)
      || not (phys_start % page_size == 0)
      || not (length % page_size == 0)
      || ltb (wrapping_add phys_start length) phys_start
    then err (from_memory invalid_address)
    else validate_pages object_id object_generation s
        ((wrapping_add phys_start length - phys_start) / page_size) phys_start

-- The last checks of validate_page_table_allocation, on the block's descriptor.
unfoldable pub validate_descriptor : ℕ → ℕ → ZoneState → Result ℕ → Result (Unit {0})
validate_descriptor order node_id s (err e) = err (from_memory invalid_address)
validate_descriptor order node_id s (ok pfn) =
    let d = s.frames pfn in
    if not (owner_of d == page_table_owner)
      || not (order_of d == order)
      || not (d.numa_node == node_id)
    then err (from_memory purpose_mismatch)
    else if not (bit_and d.flags (ff_offline + ff_shared) == 0)
    then err (from_memory invalid_address)
    else ok tt

-- `mapped phys size` is hhdm::phys_range_is_mapped, `allocatable` is node_is_allocatable.
unfoldable pub validate_page_table_allocation :
    (ℕ → ℕ → Bool) → (ℕ → Bool) → ℕ → ℕ → ℕ → ℕ → ZoneState → Result (Unit {0})
unfolding validate_descriptor
validate_page_table_allocation mapped allocatable phys order zone node_id s =
    let size = page_size * 2 ^ order % 2 ^ 64 in
    let max_phys = s.max_pfn * page_size % 2 ^ 64 in
    if not s.has_table || ltb max_order order || (size == 0)
    then err (from_memory invalid_address)
    else if not (phys % page_size == 0) || not (phys % size == 0)
    then err (from_memory alignment_error)
    else if leb max_phys phys
        || ltb (wrapping_add phys size) phys
        || ltb max_phys (wrapping_add phys size)
    then err (from_memory invalid_address)
    else if not (mapped phys size)
    then err (from_memory hhdm_init_failed)
    else if not (zone_of phys == zone) || not (allocatable node_id)
    then err (from_memory zone_exhausted)
    else validate_descriptor order node_id s (desc_of s phys)
