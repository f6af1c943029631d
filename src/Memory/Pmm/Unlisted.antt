-- ===== src/Memory/Pmm/Unlisted.antt =====
-- free_locked where the buddy is on the list of a CPU.
use zxfoundation.Base.{
  ℕ, zero, suc, ◌-◌, ◌^◌, ◌≤◌, ◌<◌, ◌≡◌, ◌≢◌, refl, sym, ap, ◌∙◌, subst, Result, ok, err, arith,
  ==_ne, min,
}
use zxfoundation.Base.Arrays.{update, update_self, update_ne}
use zxfoundation.Memory.Pmm.{
  ZoneState, FrameDesc, max_order, wrapping_sub, none_owner, zone_of, desc_of, describe, set_at,
  set_frame, push, remove,
}
use zxfoundation.Memory.Pmm.Freeing.{
  Merging, stop, stop_suspect, merge, merging, merging_of, merging_with, buddy_of, take_buddy,
  mark_suspect, suspect_at, free_at, insert_block, finish, merge_from, free_locked,
}
use zxfoundation.Memory.Pmm.Buddies.{IsMergeable}

IsMergeable-merging :
    (node zone order p : ℕ) (s : ZoneState)
    → order ≤ max_order
    → zone_of (buddy_of p order) ≡ zone
    → IsMergeable node order s (buddy_of p order)
    → merging node zone order p s ≡ merge
unfolding merging merging_of merging_with
IsMergeable-merging node zone order p s h z m =
    rw m.in_table (ground (arith, z, h, m.free.at_order, m.free.by_buddy, m.free.on_node, m.online))

describe-counts : (r : Result ℕ) (d : FrameDesc) (s : ZoneState) → (set_at r d s).counts ≡ s.counts
unfolding set_at
describe-counts (err e) d s = refl
describe-counts (ok pfn) d s = refl

suspect-counts : (r : Result ℕ) (s : ZoneState) → (suspect_at r s).counts ≡ s.counts
unfolding suspect_at
suspect-counts (err e) s = refl
suspect-counts (ok pfn) s = refl

free_at-counts :
    (node order : ℕ) (r : Result ℕ) (s : ZoneState) → (free_at node order r s).counts ≡ s.counts
unfolding free_at
free_at-counts node order (err e) s = refl
free_at-counts node order (ok pfn) s = refl

take_buddy-counts :
    (node order b : ℕ) (s : ZoneState)
    → (take_buddy node order b s).counts ≡ update s.counts order (wrapping_sub (s.counts order) 1)
unfolding take_buddy describe remove
take_buddy-counts node order b s =
    let unlinked = remove order b s in
    let freed = record unlinked { free_pages = wrapping_sub unlinked.free_pages (2 ^ order) } in
    describe-counts (desc_of freed b) (set_frame 0 none_owner node 0) freed

insert_block-counts :
    (node p order k : ℕ) (s : ZoneState)
    → order ≢ k
    → (insert_block node p order s).counts k ≡ s.counts k
unfolding insert_block push
insert_block-counts node p order k s ne =
    rw (==_ne order k ne) (ap (λ f. f k) (free_at-counts node order (desc_of s p) s))

-- The orders below are left alone.
merge_from-counts :
    (node zone levels order p k : ℕ) (s : ZoneState)
    → k < order
    → (merge_from node zone levels order p s).counts k ≡ s.counts k
unfolding merge_from finish mark_suspect
merge_from-counts node zone zero order p k s h =
    insert_block-counts node p order k s (λ e. absurd (omega (arith, h, e)))
merge_from-counts node zone (suc levels) order p k s h =
    let differ : order ≢ k = λ e. absurd (omega (arith, h, e)) in
    let next = take_buddy node order (buddy_of p order) s in
    let later =
      merge_from-counts node zone levels (suc order) (min p (buddy_of p order)) k next
        (omega (arith, h)) in
    let taken =
      ap (λ f. f k) (take_buddy-counts node order (buddy_of p order) s)
      ∙ update_ne s.counts order k (wrapping_sub (s.counts order) 1) differ in
    ended differ (later ∙ taken) (merging node zone order p s)
  where
    ended :
        order ≢ k
        → (merge_from node zone levels
              (suc order)
              (min p (buddy_of p order))
              (take_buddy node order (buddy_of p order) s)).counts
            k
          ≡ s.counts k
        → (m : Merging)
        → (finish node p order s
              (merge_from node zone levels
                (suc order)
                (min p (buddy_of p order))
                (take_buddy node order (buddy_of p order) s))
              m).counts
            k
          ≡ s.counts k
    ended differ merged stop = insert_block-counts node p order k s differ
    ended differ merged stop_suspect =
        insert_block-counts node p order k (mark_suspect p s) differ
        ∙ ap (λ f. f k) (suspect-counts (desc_of s p) s)
    ended differ merged merge = merged

-- Where the buddy of the block freed has the descriptor of a free block of that order and node,
-- and is not offline, as a page on a CPU's list has, and the zone's list of that order is empty,
-- its count, 0, becomes 2 ^ 64 - 1.
free_locked-unlisted_buddy :
    (phys order zone node : ℕ) (s : ZoneState)
    → order < max_order
    → zone_of (buddy_of phys order) ≡ zone
    → IsMergeable node order s (buddy_of phys order)
    → s.counts order ≡ 0
    → (free_locked phys order zone node s).counts order ≡ 2 ^ 64 - 1
unfolding free_locked merge_from finish
free_locked-unlisted_buddy phys order zone node s h z m empty =
    let e : max_order - order ≡ suc (max_order - suc order) = omega (arith, h) in
    let next = take_buddy node order (buddy_of phys order) s in
    let later =
      merge_from-counts node zone (max_order - suc order) (suc order)
        (min phys (buddy_of phys order)) order next (omega arith) in
    let taken =
      ap (λ f. f order) (take_buddy-counts node order (buddy_of phys order) s)
      ∙ update_self s.counts order (wrapping_sub (s.counts order) 1) in
    let goes = IsMergeable-merging node zone order phys s (omega (arith, h)) z m in
    subst (λ n. (merge_from node zone n order phys s).counts order ≡ 2 ^ 64 - 1) (sym e)
      (rw goes (later ∙ taken ∙ omega (arith, empty)))
