-- ===== src/Memory/Pmm/Folios/Granting.antt =====
-- alloc where it gives a folio.
use zxfoundation.Base.{
  ℕ, ◌+◌, ◌/◌, ◌≤◌, ◌<◌, ◌≡◌, ◌≢◌, ◌⊎◌, inl, inr, refl, sym, ap, ◌∙◌, Bool, true, Result, err,
  from_memory, zone_exhausted, arith, ◌==◌, Bool-cases,
}
use zxfoundation.Memory.Numa.{Topology}
use zxfoundation.Memory.Pmm.{page_size, max_order, size_of, set_frame}
use zxfoundation.Memory.Pmm.Nodes.{Pmm, NodeAllocation, node_is_allocatable}
use zxfoundation.Memory.Pmm.Checks.{IsTableBlock}
use zxfoundation.Memory.Pmm.Folios.{
  owner_for_purpose, is_page_table, AllocationRequest, AllocationResult, CpuState, table_of,
  finish_alloc,
}
use zxfoundation.Memory.Pmm.Folios.Allocating.{placement_of, finish_found}
use zxfoundation.Memory.Pmm.Folios.Checked.{IsFrame}
use zxfoundation.Memory.Pmm.Folios.Located.{IsSource}

-- The block of a result, of the zone and the order asked for; `found` is the state after the search,
-- which no list or zone differs from.
pub record IsFoundFor (request : AllocationRequest) (t : CpuState) (r : AllocationResult)
    : Type 0 where
  pub found : CpuState
  pub source : IsSource request.mem_zone request.order found r.phys_base r.placement.selected_node
  pub same_lists : t.lists ≡ found.lists
  pub same_zones : t.pmm.node_zones ≡ found.pmm.node_zones

-- What alloc gives: a folio as it was asked for, of frames of the table, whose descriptor names the
-- purpose, the order and the node, and which is a block of page tables where it is for them.
pub record IsGranted (topology : Topology) (mapped : ℕ → ℕ → Bool) (request : AllocationRequest)
    (t : CpuState) (r : AllocationResult) : Type 0 where
  pub same_order : r.order ≡ request.order
  pub in_order : request.order ≤ max_order
  pub same_purpose : r.purpose ≡ request.purpose
  pub same_zone : r.mem_zone ≡ request.mem_zone
  pub dma31 : request.placement.require_dma31 ≡ true → request.mem_zone ≡ 0
  pub source : IsFoundFor request t r
  pub frame : IsFrame t.pmm.has_table t.pmm.max_pfn r.phys_base
  pub described :
      t.pmm.frames (r.phys_base / page_size)
      ≡ set_frame request.order (owner_for_purpose request.purpose) r.placement.selected_node 0
  pub table_block :
      is_page_table request.purpose ≡ true
      → IsTableBlock r.phys_base request.order request.mem_zone r.placement.selected_node
          (table_of t.pmm)
        × (mapped r.phys_base (size_of request.order) ≡ true)
        × (node_is_allocatable topology r.placement.selected_node ≡ true)
  pub zeroed :
      request.zeroed ≡ true
      → (q : ℕ) → r.phys_base ≤ q
      → q < r.phys_base + size_of request.order
      → (t.pmm.next_phys q ≡ 0) × (t.pmm.prev_phys q ≡ 0)

pub placement-dma31 :
    (request : AllocationRequest) (local_node : ℕ)
    → (placement_of request local_node).require_dma31 ≡ request.placement.require_dma31
unfolding placement_of
placement-dma31 request local_node = ground arith

module _ (topology : Topology) (mapped : ℕ → ℕ → Bool) (request : AllocationRequest) where
  -- Either no block was found, or the one that was is finished.
  pub finish_found-cases :
      (s t : CpuState) (a : NodeAllocation) (x : Result AllocationResult)
      → finish_found topology mapped request (s, a) ≡ (t, x)
      → ((a.phys ≡ 0) × (s ≡ t) × (x ≡ err (from_memory zone_exhausted)))
        ⊎ ((a.phys ≢ 0)
            × ((q : Pmm) × ((finish_alloc topology mapped request a s.pmm ≡ (q, x))
                  × (record s { pmm = q } ≡ t))))
  unfolding finish_found
  finish_found-cases s t a x e =
      let finished = finish_alloc topology mapped request a s.pmm in
      elim (Bool-cases (a.phys == 0)) [
        | inl none ↦
            let f : finish_found topology mapped request (s, a)
                ≡ (s, err (from_memory zone_exhausted)) =
              rw none refl in
            let g = sym f ∙ e in inl (ground (arith, none), ap (λ y. y.0) g, ap (λ y. y.1) (sym g))
        | inr some ↦
            let f : finish_found topology mapped request (s, a)
                ≡ (record s { pmm = finished.0 }, finished.1) =
              rw some refl in
            let g = sym f ∙ e in
            inr (
              ground (arith, some),
              (finished.0, (ap (λ y. (finished.0, y)) (ap (λ y. y.1) g), ap (λ y. y.0) g)),
            )
      ]
