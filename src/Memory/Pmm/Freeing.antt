-- ===== src/Memory/Pmm/Freeing.antt =====
-- free_locked of pmm.zcomponent/core.cxx: a block goes back to the lists, merged with the halves it
-- was split from as far as those are free.
use zxfoundation.Base.{
  ℕ, zero, suc, ◌+◌, ◌-◌, ◌/◌, ◌%◌, ◌^◌, min, not, Result, ok, err, if◌then◌else◌, ◌==◌, bit_and,
  bit_or,
}
use zxfoundation.Base.Arrays.{update}
use zxfoundation.Memory.Pmm.{
  ZoneState, FrameDesc, max_order, size_of, wrapping_add, wrapping_sub, none_owner, buddy_owner,
  ff_suspect, ff_offline, push, remove, zone_of, desc_of, describe, set_frame, order_of, owner_of,
}

-- `phys ^ (PAGE_SIZE << ord)`: the bit of weight PAGE_SIZE << ord is flipped.
unfoldable pub buddy_of : ℕ → ℕ → ℕ
buddy_of phys ord = if phys / size_of ord % 2 == 0 then phys + size_of ord else phys - size_of ord

-- The merging stops, stops with the block marked suspect, or takes the buddy in.
pub data Merging : Type 0 where
  stop stop_suspect merge : Merging

unfoldable pub merging_with : ℕ → ℕ → FrameDesc → Merging
merging_with node ord d =
    if not (owner_of d == buddy_owner)
    then stop
    else if not (d.numa_node == node)
    then stop
    else if not (bit_and d.flags ff_offline == 0)
    then stop_suspect
    else if not (order_of d == ord % 2 ^ 8)
    then stop
    else merge

unfoldable pub merging_of : ℕ → ℕ → ZoneState → Result ℕ → Merging
unfolding merging_with
merging_of node ord s (err e) = stop
merging_of node ord s (ok pfn) = merging_with node ord (s.frames pfn)

unfoldable pub merging : ℕ → ℕ → ℕ → ℕ → ZoneState → Merging
unfolding merging_of
merging node zone ord phys s =
    let buddy = buddy_of phys ord in
    if not (zone_of buddy == zone) then stop else merging_of node ord s (desc_of s buddy)

unfoldable pub take_buddy : ℕ → ℕ → ℕ → ZoneState → ZoneState
take_buddy node ord buddy s =
    let unlinked = remove ord buddy s in
    describe buddy (set_frame 0 none_owner node 0)
      (record unlinked { free_pages = wrapping_sub unlinked.free_pages (2 ^ ord) })

unfoldable pub suspect_at : Result ℕ → ZoneState → ZoneState
suspect_at (err e) s = s
suspect_at (ok pfn) s =
    let d = s.frames pfn in
    record s { frames = update s.frames pfn (record d { flags = bit_or d.flags ff_suspect }) }

-- `(*pde)->or_flags(ff_suspect)`
unfoldable pub mark_suspect : ℕ → ZoneState → ZoneState
unfolding suspect_at
mark_suspect phys s = suspect_at (desc_of s phys) s

unfoldable pub free_at : ℕ → ℕ → Result ℕ → ZoneState → ZoneState
free_at node ord (err e) s = s
free_at node ord (ok pfn) s = record s {
  frames =
      update s.frames pfn
        (set_frame ord buddy_owner node (bit_and (s.frames pfn).flags ff_suspect));
}

-- The merged block is described and put on its list.
unfoldable pub insert_block : ℕ → ℕ → ℕ → ZoneState → ZoneState
unfolding free_at
insert_block node phys ord s =
    let pushed = push ord phys (free_at node ord (desc_of s phys) s) in
    record pushed { free_pages = wrapping_add pushed.free_pages (2 ^ ord) }

-- How a round ends; `merged` is the state where the buddy is merged.
unfoldable pub finish : ℕ → ℕ → ℕ → ZoneState → ZoneState → Merging → ZoneState
finish node phys ord s merged stop = insert_block node phys ord s
finish node phys ord s merged stop_suspect = insert_block node phys ord (mark_suspect phys s)
finish node phys ord s merged merge = merged

-- `levels` is the number of orders from `ord` up to the highest one.
unfoldable pub merge_from : ℕ → ℕ → ℕ → ℕ → ℕ → ZoneState → ZoneState
merge_from node zone zero ord phys s = insert_block node phys ord s
merge_from node zone (suc levels) ord phys s =
    let buddy = buddy_of phys ord in
    let merged =
      merge_from node zone levels (suc ord) (min phys buddy) (take_buddy node ord buddy s) in
    finish node phys ord s merged (merging node zone ord phys s)

unfoldable pub free_locked : ℕ → ℕ → ℕ → ℕ → ZoneState → ZoneState
free_locked phys order zone node s = merge_from node zone (max_order - order) order phys s
