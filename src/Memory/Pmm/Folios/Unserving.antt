-- ===== src/Memory/Pmm/Folios/Unserving.antt =====
-- alloc from the list of the running CPU, where the node should not serve memory.
use zxfoundation.Base.{
  ℕ, ◌≤◌, ◌≡◌, ◌≢◌, refl, Bool, true, false, not, ◌&&◌, Outcome, done, ok, arith, ltb, leb, ◌==◌,
  ==_ne,
}
use zxfoundation.Memory.Numa.{AllocationPolicy, Topology}
use zxfoundation.Memory.Pmm.{max_order, set_frame, is_allocatable_frame}
use zxfoundation.Memory.Pmm.Nodes.{NodeAllocation, node_is_allocatable, normalize_node_id}
use zxfoundation.Memory.Pmm.Cpulists.{CpuZone, pop_page, pcp_max_order, pcp_pop}
use zxfoundation.Memory.Pmm.Folios.{
  owner_for_purpose, is_page_table, AllocationRequest, AllocationResult, CpuState, Context,
  local_node_id, cpu_zone, with_cpu_zone, set_desc, zero_fill, result_of, finish_valid,
  finish_alloc,
}
use zxfoundation.Memory.Pmm.Folios.Allocating.{
  refilled, alloc_cached, is_forbidden, placement_of, unless_found, find_block, finish_found, alloc,
}
use zxfoundation.Memory.Pmm.Folios.Granting.{placement-dma31}

refilled-some :
    (order node : ℕ) (c : CpuZone) → c.pages.head_phys ≢ 0 → refilled order node c ≡ done c
unfolding refilled
refilled-some order node c some = rw (==_ne c.pages.head_phys 0 some) refl

pcp_pop-some :
    (c : CpuZone)
    → c.pages.head_phys ≢ 0
    → is_allocatable_frame c.zone c.pages.head_phys ≡ true
    → pcp_pop c ≡ done (pop_page c)
unfolding pcp_pop
pcp_pop-some c some good = rw (==_ne c.pages.head_phys 0 some, good) refl

-- A list that has a block which passes its check gives it.
alloc_cached-hit :
    (request : AllocationRequest) (placement : AllocationPolicy) (local_node : ℕ) (s : CpuState)
    → let node = normalize_node_id placement.preferred_node in
      let c = cpu_zone node request.mem_zone request.order s in
      c.pages.head_phys ≢ 0
      → is_allocatable_frame c.zone c.pages.head_phys ≡ true
      → alloc_cached request placement local_node s
        ≡ done (
          with_cpu_zone node request.mem_zone request.order (pop_page c).0 s,
          record {
            phys = c.pages.head_phys;
            node_id = node;
            fallback_distance = 0;
            remote = not (node == local_node);
          },
        )
unfolding alloc_cached pop_page
alloc_cached-hit request placement local_node s some good =
    let node = normalize_node_id placement.preferred_node in
    let c = cpu_zone node request.mem_zone request.order s in
    rw (refilled-some request.order node c some, pcp_pop-some c some good) refl

-- The rest of alloc, for a block of the list.
alloc-cached :
    (topology : Topology) (mapped : ℕ → ℕ → Bool) (max_cpus : ℕ)
    (reclaim_node : ℕ → ℕ → CpuState → Outcome CpuState) (context : Context)
    (request : AllocationRequest) (s u : CpuState) (a : NodeAllocation)
    → let local_node = local_node_id max_cpus topology context.cpu_id in
      request.order ≤ pcp_max_order
      → is_forbidden context request.order ≡ false
      → request.placement.require_dma31 ≡ false
      → is_page_table request.purpose ≡ false
      → a.phys ≢ 0
      → alloc_cached request (placement_of request local_node) local_node s ≡ done (u, a)
      → (t : CpuState) × (alloc topology mapped max_cpus reclaim_node context request s
          ≡ done (t, ok (result_of request a)))
unfolding alloc find_block unless_found finish_found finish_alloc finish_valid
alloc-cached topology mapped max_cpus reclaim_node context request s u a small allowed any plain
      some e =
    let local_node = local_node_id max_cpus topology context.cpu_id in
    let d = set_frame request.order (owner_for_purpose request.purpose) a.node_id 0 in
    let order_ok : ltb max_order request.order ≡ false = ground (arith, small) in
    let cached : leb request.order pcp_max_order ≡ true = ground (arith, small) in
    let zone_ok : ((placement_of request local_node).require_dma31 && not (request.mem_zone == 0))
        ≡ false =
      ground (arith, placement-dma31 request local_node, any) in
    (
      record u { pmm = zero_fill request.zeroed a.phys request.order (set_desc a.phys d u.pmm) },
      (let found = ==_ne a.phys 0 some in
          rw (allowed, order_ok, zone_ok, cached, e, found, found, found, plain) refl),
    )

-- A request for a small block that the DMA zone does not rule out, in a context where it is allowed
-- and not for page tables, is served from the list of the running CPU where that has a block, with
-- no look at the node: also where the node may not serve memory.
pub alloc-unserving_node :
    (topology : Topology) (mapped : ℕ → ℕ → Bool) (max_cpus : ℕ)
    (reclaim_node : ℕ → ℕ → CpuState → Outcome CpuState) (context : Context)
    (request : AllocationRequest) (s : CpuState)
    → let local_node = local_node_id max_cpus topology context.cpu_id in
      let node = normalize_node_id (placement_of request local_node).preferred_node in
      let c = cpu_zone node request.mem_zone request.order s in
      request.order ≤ pcp_max_order
      → is_forbidden context request.order ≡ false
      → request.placement.require_dma31 ≡ false
      → is_page_table request.purpose ≡ false
      → c.pages.head_phys ≢ 0
      → is_allocatable_frame c.zone c.pages.head_phys ≡ true
      → node_is_allocatable topology node ≡ false
      → (t : CpuState) × ((r : AllocationResult) × ((alloc topology mapped max_cpus reclaim_node
                context request s
              ≡ done (t, ok r))
            × ((r.phys_base ≡ c.pages.head_phys)
                × (node_is_allocatable topology r.placement.selected_node ≡ false))))
unfolding result_of
alloc-unserving_node topology mapped max_cpus reclaim_node context request s small allowed any plain
      some good offline =
    let local_node = local_node_id max_cpus topology context.cpu_id in
    let placement = placement_of request local_node in
    let node = normalize_node_id placement.preferred_node in
    let c = cpu_zone node request.mem_zone request.order s in
    let a : NodeAllocation = record {
      phys = c.pages.head_phys;
      node_id = node;
      fallback_distance = 0;
      remote = not (node == local_node);
    } in
    let run =
      alloc-cached topology mapped max_cpus reclaim_node context request s
        (with_cpu_zone node request.mem_zone request.order (pop_page c).0 s) a small allowed any
        plain some (alloc_cached-hit request placement local_node s some good) in
    (run.0, (result_of request a, (run.1, (refl, offline))))
