-- ===== src/Memory/Pmm/Folios/Refusing.antt =====
-- alloc where it gives no folio, and where it gives one of a node that should not serve memory.
use zxfoundation.Base.{
  ℕ, ◌/◌, ◌^◌, ◌<◌, ◌≡◌, ◌≢◌, true, Outcome, done, KernelError, from_memory, out_of_memory,
  zone_exhausted,
}
use zxfoundation.Memory.Pmm.{
  page_size, max_order, wrapping_add, reserved_owner, ff_suspect, set_frame,
}
use zxfoundation.Memory.Pmm.Nodes.{Pmm, NodeAllocation, normalize_node_id}
use zxfoundation.Memory.Pmm.Folios.{is_page_table, AllocationRequest, CpuState}
use zxfoundation.Memory.Pmm.Folios.Checked.{IsFrame}

-- A block that failed its check is withdrawn: its descriptor is reserved and suspect, its pages are
-- counted as retired, and nothing else changes.
pub record IsWithdrawn (request : AllocationRequest) (u t : CpuState) (a : NodeAllocation)
    : Type 0 where
  pub frame : IsFrame u.pmm.has_table u.pmm.max_pfn a.phys
  pub described :
      t.pmm.frames (a.phys / page_size)
      ≡ set_frame request.order reserved_owner (normalize_node_id a.node_id) ff_suspect
  pub others : (pfn : ℕ) → pfn ≢ a.phys / page_size → t.pmm.frames pfn ≡ u.pmm.frames pfn
  pub retired : t.pmm.retired_pages ≡ wrapping_add u.pmm.retired_pages (2 ^ request.order)
  pub same_zones : t.pmm.node_zones ≡ u.pmm.node_zones
  pub same_lists : t.lists ≡ u.lists

-- Why a request is refused, with `find` for the search for a block.
pub data IsRefused (find : Outcome (CpuState × NodeAllocation)) (request : AllocationRequest)
    (s t : CpuState) (e : KernelError) : Type 0 where
  too_large :
      max_order < request.order
      → e ≡ from_memory out_of_memory
      → t ≡ s
      → IsRefused find request s t e
  wrong_zone :
      request.placement.require_dma31 ≡ true
      → request.mem_zone ≢ 0
      → e ≡ from_memory zone_exhausted
      → t ≡ s
      → IsRefused find request s t e
  no_block :
      (a : NodeAllocation)
      → find ≡ done (t, a)
      → a.phys ≡ 0
      → e ≡ from_memory zone_exhausted
      → IsRefused find request s t e
  withdrawn :
      (u : CpuState) (a : NodeAllocation)
      → find ≡ done (u, a)
      → is_page_table request.purpose ≡ true
      → IsWithdrawn request u t a
      → IsRefused find request s t e
