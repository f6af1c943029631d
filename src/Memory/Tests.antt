-- ===== src/Memory/Tests.antt =====
-- Runs of the physical memory manager at concrete inputs: a zone of sixteen pages.
use zxfoundation.Base.{
  ℕ, zero, suc, Bool, ◌+◌, ◌*◌, ◌/◌, ◌^◌, ◌<◌, ◌≡◌, ◌⊎◌, inl, inr, refl, sym, subst, true, false,
  List, [], ◌∷◌, done, arith, ==_ne, ℕ_discrete, if◌then◌else◌, ◌∙◌,
}
use zxfoundation.Base.Arrays.{update, update_ne}
use zxfoundation.Base.Sums.{total, length}
use zxfoundation.Memory.Numa.{Topology}
use zxfoundation.Memory.Numa.Building.{blank_node}
use zxfoundation.Memory.Pmm.{
  ZoneState, FrameDesc, page_size, size_of, set_frame, push, none_owner, buddy_owner, alloc_locked,
}
use zxfoundation.Memory.Pmm.Chain.{IsIn, IsChain, IsDistinct}
use zxfoundation.Memory.Pmm.Lists.{IsApart, IsBlock}
use zxfoundation.Memory.Pmm.Zone.{
  IsExactBut, IsStocked, IsZone, IsNew, IsFree, pages_of, push-IsStocked, set_frame-law,
}
use zxfoundation.Memory.Pmm.Alloc.{IsAllocated, alloc_locked-IsAllocated}
use zxfoundation.Memory.Pmm.Freeing.{free_locked}
use zxfoundation.Memory.Pmm.Buddies.{IsAligned}
use zxfoundation.Memory.Pmm.Merging.{IsReturned, IsHonest}
use zxfoundation.Memory.Pmm.Free.{free_locked-IsReturned}
use zxfoundation.Memory.Pmm.Nodes.{Pmm, NodeZone}
use zxfoundation.Memory.Pmm.Folios.{Context}
use zxfoundation.Memory.Pmm.Folios.Transactions.{Transaction}
use zxfoundation.Memory.Pmm.Cpulists.{CpuZone, pcp_push}

abbrev no_frame : FrameDesc
no_frame = set_frame 0 none_owner 0 0

abbrev empty_zone : ZoneState
empty_zone = record {
  next_phys = λ p. 0;
  prev_phys = λ p. 0;
  heads = λ o. 0;
  counts = λ o. 0;
  free_pages = 0;
  frames = λ i. no_frame;
  has_table = true;
  max_pfn = 16;
}

abbrev no_lists : ℕ → List ℕ
no_lists o = []

empty_zone-IsStocked : IsStocked 0 empty_zone no_lists
unfolding IsChain IsDistinct IsIn length
empty_zone-IsStocked = record {
  listed = record {
    chains = λ o. refl;
    distinct = λ o. tt;
    placed = λ o p i. absurd i;
    apart = λ o p k q i j. absurd i;
    counted = λ o. refl;
  };
  described = λ k q i. absurd i;
  table = refl;
  limit = omega arith;
}

-- The pages from 8 to 11 are free, as one block.
abbrev free_frames : ℕ → FrameDesc
free_frames = update (λ i. no_frame) 8 (set_frame 2 buddy_owner 0 0)

abbrev small_zone : ZoneState
small_zone = record (push 2 0x8000 (record empty_zone { frames = free_frames })) { free_pages = 4 }

abbrev small_lists : ℕ → List ℕ
small_lists = update no_lists 2 (0x8000 ∷ [])

pages-IsBlock : (o k : ℕ) → o < 3 → 0 < k → k + 2 ^ o < 17 → IsBlock 16 o (k * 4096)
pages-IsBlock o k h g e = record {
  in_order = omega (arith, h);
  non_zero = λ z. absurd (omega (arith, z, g));
  aligned = omega arith;
  inside = omega (arith, e);
}

small_zone-IsZone : IsZone 0 small_zone small_lists
unfolding push pages_of total length IsIn
small_zone-IsZone =
    let stocked =
      push-IsStocked 0 2 0x8000 0 empty_zone no_lists empty_zone-IsStocked
        (pages-IsBlock 2 8 (omega arith) (omega arith) (omega arith)) (λ k q i. absurd i) in
    record {
      stocked = record {
        listed = stocked.listed;
        described = stocked.described;
        table = stocked.table;
        limit = stocked.limit;
      };
      pages = refl;
    }

alloc_locked-IsAllocated_example :
    (t : ZoneState) × ((phys : ℕ) × ((alloc_locked 0 0 small_zone ≡ done (t, phys))
        × IsAllocated 0 0 small_lists small_zone t phys))
alloc_locked-IsAllocated_example =
    alloc_locked-IsAllocated 0 0 small_zone small_lists small_zone-IsZone (omega arith)

second-IsNew : IsNew 2 0xc000 small_lists
unfolding IsIn IsApart
second-IsNew k q i = elim (ℕ_discrete 2 k) [
  | yes e ↦
      subst (λ o. IsApart 0xc000 (size_of 2) q (size_of o)) e
        (only (subst (λ o. IsIn q (small_lists o)) (sym e) i))
  | no ne ↦ absurd (subst (λ b. IsIn q (if b then 0x8000 ∷ [] else [])) (==_ne 2 k ne) i)
]
  where
    only : (q ≡ 0x8000) ⊎ ⊥ → IsApart 0xc000 (size_of 2) q (size_of 2)
    only (inl e) = inr (omega (arith, e))
    only (inr j) = absurd j

small_exact : IsExactBut (λ q. ⊥) 0 small_zone small_lists
unfolding push IsIn
small_exact k q page in_table described = elim (ℕ_discrete 8 (q / page_size)) [
  | yes e ↦
      let at : q ≡ 0x8000 = omega (arith, e, page) in
      let law = set_frame-law 2 buddy_owner 0 0 (omega arith) (omega arith) in
      let known = subst (λ i. IsFree 0 k (free_frames i)) (sym e) described in
      inl (subst (λ o. IsIn q (small_lists o)) (sym law.0 ∙ known.at_order) (inl at))
  | no ne ↦
      let law = set_frame-law 0 none_owner 0 0 (omega arith) (omega arith) in
      let unknown =
        subst (IsFree 0 k)
          (update_ne (λ i. no_frame) 8 (q / page_size) (set_frame 2 buddy_owner 0 0) ne)
          described in
      absurd (omega (arith, law.1, unknown.by_buddy))
]

second-IsHonest : IsHonest 0 2 0xc000 small_zone small_lists
second-IsHonest k q page in_table described = elim (small_exact k q page in_table described) [
  | inl i ↦ inl i
  | inr x ↦ absurd x
]

free_locked-IsReturned_example :
    IsReturned 0 2 0xc000 small_lists (free_locked 0xc000 2 0 0 small_zone)
unfolding IsAligned push
free_locked-IsReturned_example =
    free_locked-IsReturned 0xc000 2 0 0 small_zone small_lists small_zone-IsZone
      (pages-IsBlock 2 12 (omega arith) (omega arith) (omega arith)) (3, refl) second-IsNew
      second-IsHonest

-- Before the topology is there, node 0 serves.
abbrev boot_topology : Topology
boot_topology = record {
  nodes = λ i. blank_node;
  cpu_to_node = λ i. 0;
  distances = λ a b. 0;
  is_initialized = false;
  generation = 0;
}

zones_of : ℕ → ℕ → NodeZone
zones_of zero z = record { heads = small_zone.heads; counts = small_zone.counts; free_pages = 4 }
zones_of (suc n) z = record { heads = λ o. 0; counts = λ o. 0; free_pages = 0 }

abbrev small_pmm : Pmm
small_pmm = record {
  next_phys = small_zone.next_phys;
  prev_phys = small_zone.prev_phys;
  node_zones = zones_of;
  frames = free_frames;
  has_table = true;
  max_pfn = 16;
  retired_pages = 0;
}

-- The zones of the other nodes are empty.
family_lists : ℕ → ℕ → List ℕ
family_lists zero = small_lists
family_lists (suc n) = no_lists

abbrev fresh : Transaction
fresh = record { slots = []; is_committed = false; is_rolled_back = false }

abbrev in_task : Context
in_task = record { in_mcck = false; in_hardirq = false; can_sleep = true; cpu_id = 0 }

abbrev all_mapped : ℕ → ℕ → Bool
all_mapped base length = true

-- Page 8 is on a CPU's list, and on none of the zone.
abbrev cached_zone : ZoneState
cached_zone = record empty_zone { frames = update (λ i. no_frame) 8 (set_frame 0 buddy_owner 0 0) }

abbrev cached_cpu : CpuZone
cached_cpu =
    pcp_push 0x8000 (record { zone = cached_zone; pages = record { head_phys = 0; count = 0 } })

-- Page 9 is in use, and marked offline.
abbrev offline_zone : CpuZone
offline_zone = record {
  zone = record empty_zone { frames = update (λ i. no_frame) 9 (set_frame 0 4 0 2) };
  pages = record { head_phys = 0; count = 0 };
}
