-- ===== src/Memory/Pmm/Folios/Relabelling.antt =====
-- A block apart from the free ones gets another descriptor, and a zone is put back: the zone stays in
-- order.
use zxfoundation.Base.{
  ℕ, zero, suc, ◌-◌, ◌/◌, ◌%◌, ◌^◌, ◌≡◌, inr, refl, sym, subst, List, Result, ok, err, arith, min,
  ℕ_discrete, ==_refl,
}
use zxfoundation.Base.Arrays.{update, update_ne}
use zxfoundation.Memory.Pmm.{
  ZoneState, FrameDesc, page_size, desc_of, set_frame, none_owner, push, remove, wrapping_sub,
  max_order,
}
use zxfoundation.Memory.Pmm.Freeing.{
  buddy_of, Merging, stop, stop_suspect, merge, merging, take_buddy, suspect_at, mark_suspect,
  free_at, insert_block, finish, merge_from, free_locked,
}
use zxfoundation.Memory.Pmm.Lists.{IsBlock}
use zxfoundation.Memory.Pmm.Zone.{IsFree, IsZone, IsNew, IsExactBut, other_frame}
use zxfoundation.Memory.Pmm.Nodes.{Pmm, zone_state, with_zone}
use zxfoundation.Memory.Pmm.Folios.Checked.{Keeps, Keeps-trans, describe-Keeps}

abbrev pub relabelled : ℕ → FrameDesc → ZoneState → ZoneState
relabelled phys d s = record s { frames = update s.frames (phys / page_size) d }

pub relabelled-IsZone :
    (node order phys : ℕ) (d : FrameDesc) (s : ZoneState) (lists : ℕ → List ℕ)
    → IsZone node s lists
    → IsBlock s.max_pfn order phys
    → IsNew order phys lists
    → IsZone node (relabelled phys d s) lists
relabelled-IsZone node order phys d s lists w b new = record {
  stocked = record {
    listed = w.stocked.listed;
    described = λ k q i.
        subst (IsFree node k)
          (sym (
            update_ne s.frames (phys / page_size) (q / page_size) d
              (other_frame s.max_pfn order phys k q b (w.stocked.listed.placed k q i) (new k q i))))
          (w.stocked.described k q i);
    table = w.stocked.table;
    limit = w.stocked.limit;
  };
  pages = w.pages;
}

-- The block is excepted already.
pub relabelled-IsExactBut :
    (E : ℕ → Type 0) (node phys : ℕ) (d : FrameDesc) (s : ZoneState) (lists : ℕ → List ℕ)
    → phys % page_size ≡ 0
    → E phys
    → IsExactBut E node s lists
    → IsExactBut E node (relabelled phys d s) lists
unfolding desc_of
relabelled-IsExactBut E node phys d s lists aligned excepted exact k q page in_table free =
    elim (ℕ_discrete (phys / page_size) (q / page_size)) [
      | yes e ↦ inr (subst E (omega (arith, e, page, aligned)) excepted)
      | no ne ↦
          exact k q page in_table (
            subst (IsFree node k) (update_ne s.frames (phys / page_size) (q / page_size) d ne) free)
    ]

suspect_at-Keeps : (r : Result ℕ) (s : ZoneState) → Keeps s (suspect_at r s)
unfolding suspect_at
suspect_at-Keeps (err e) s = record { same_table = refl; same_limit = refl }
suspect_at-Keeps (ok pfn) s = record { same_table = refl; same_limit = refl }

free_at-Keeps : (node ord : ℕ) (r : Result ℕ) (s : ZoneState) → Keeps s (free_at node ord r s)
unfolding free_at
free_at-Keeps node ord (err e) s = record { same_table = refl; same_limit = refl }
free_at-Keeps node ord (ok pfn) s = record { same_table = refl; same_limit = refl }

insert_block-Keeps : (node phys ord : ℕ) (s : ZoneState) → Keeps s (insert_block node phys ord s)
unfolding insert_block push
insert_block-Keeps node phys ord s =
    let k = free_at-Keeps node ord (desc_of s phys) s in
    record { same_table = k.same_table; same_limit = k.same_limit }

take_buddy-Keeps : (node ord buddy : ℕ) (s : ZoneState) → Keeps s (take_buddy node ord buddy s)
unfolding take_buddy remove
take_buddy-Keeps node ord buddy s =
    let unlinked = remove ord buddy s in
    let k =
      describe-Keeps buddy (set_frame 0 none_owner node 0)
        (record unlinked { free_pages = wrapping_sub unlinked.free_pages (2 ^ ord) }) in
    record { same_table = k.same_table; same_limit = k.same_limit }

finish-Keeps :
    (node phys ord : ℕ) (s merged : ZoneState) (m : Merging)
    → Keeps s merged
    → Keeps s (finish node phys ord s merged m)
unfolding finish mark_suspect
finish-Keeps node phys ord s merged stop k = insert_block-Keeps node phys ord s
finish-Keeps node phys ord s merged stop_suspect k =
    Keeps-trans s (mark_suspect phys s) (insert_block node phys ord (mark_suspect phys s))
      (suspect_at-Keeps (desc_of s phys) s) (insert_block-Keeps node phys ord (mark_suspect phys s))
finish-Keeps node phys ord s merged merge k = k

merge_from-Keeps :
    (node zone levels ord phys : ℕ) (s : ZoneState)
    → Keeps s (merge_from node zone levels ord phys s)
unfolding merge_from
merge_from-Keeps node zone zero ord phys s = insert_block-Keeps node phys ord s
merge_from-Keeps node zone (suc levels) ord phys s =
    let buddy = buddy_of phys ord in
    let taken = take_buddy node ord buddy s in
    let merged = merge_from node zone levels (suc ord) (min phys buddy) taken in
    finish-Keeps node phys ord s merged (merging node zone ord phys s) (
      Keeps-trans s taken merged (take_buddy-Keeps node ord buddy s)
        (merge_from-Keeps node zone levels (suc ord) (min phys buddy) taken))

-- Freeing keeps the table.
pub free_locked-Keeps :
    (phys order zone node : ℕ) (s : ZoneState) → Keeps s (free_locked phys order zone node s)
unfolding free_locked
free_locked-Keeps phys order zone node s =
    merge_from-Keeps node zone (max_order - order) order phys s

-- A zone that is put back is the zone that is found there.
pub zone_state-with_zone :
    (node zone : ℕ) (s : ZoneState) (p : Pmm)
    → s.has_table ≡ p.has_table
    → s.max_pfn ≡ p.max_pfn
    → zone_state node zone (with_zone node zone s p) ≡ s
unfolding zone_state with_zone
zone_state-with_zone node zone s p table limit =
    rw (==_refl node, ==_refl zone)
      (λ i. record s { has_table = sym table i; max_pfn = sym limit i })
