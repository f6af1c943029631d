-- ===== src/Memory/Pmm/Folios/Allocating.antt =====
-- alloc of pmm.zcomponent/core.cxx: the list of the running CPU, the nodes and a reclaim are tried in
-- turn.
use zxfoundation.Base.{
  ℕ, ◌^◌, Bool, true, false, not, ◌&&◌, ◌||◌, Result, err, from_memory, out_of_memory,
  zone_exhausted, Outcome, done, fault, if◌then◌else◌, ltb, leb, ◌==◌, ◌>>=◌,
}
use zxfoundation.Memory.Numa.{numa_node_any, AllocationPolicy, Topology}
use zxfoundation.Memory.Pmm.{max_order}
use zxfoundation.Memory.Pmm.Nodes.{
  NodeAllocation, no_allocation, normalize_node_id, alloc_node_aware,
}
use zxfoundation.Memory.Pmm.Cpulists.{CpuZone, pcp_max_order, pcp_pop, pcp_refill}
use zxfoundation.Memory.Pmm.Folios.{
  AllocationRequest, AllocationResult, CpuState, Context, local_node_id, cpu_zone, with_cpu_zone,
  finish_alloc,
}

-- The list is refilled where it is empty.
unfoldable pub refilled : ℕ → ℕ → CpuZone → Outcome CpuZone
refilled order node c = if c.pages.head_phys == 0 then pcp_refill order node c else done c

-- The list of the running CPU is tried, for the node that the placement prefers.
unfoldable pub alloc_cached :
    AllocationRequest → AllocationPolicy → ℕ → CpuState → Outcome (CpuState × NodeAllocation)
unfolding refilled
alloc_cached request placement local_node s = do
  let node = normalize_node_id placement.preferred_node
  c ← refilled request.order node (cpu_zone node request.mem_zone request.order s)
  (c', phys) ← pcp_pop c
  done (
    with_cpu_zone node request.mem_zone request.order c' s,
    record {
      phys = phys;
      node_id = node;
      fallback_distance = 0;
      remote = not (node == local_node);
    },
  )

unfoldable pub is_forbidden : Context → ℕ → Bool
is_forbidden c order = c.in_mcck || (c.in_hardirq && ltb 0 order)

-- A preference for any node is one for the local node.
unfoldable pub placement_of : AllocationRequest → ℕ → AllocationPolicy
placement_of request local_node =
    let placement = request.placement in
    if placement.preferred_node == numa_node_any
    then record placement { preferred_node = local_node }
    else placement

-- `next` is taken where there is no block yet.
unfoldable pub unless_found :
    (CpuState → Outcome (CpuState × NodeAllocation))
    → CpuState × NodeAllocation
    → Outcome (CpuState × NodeAllocation)
unless_found next (s, a) = if a.phys == 0 then next s else done (s, a)

-- `topology` is the topology in force.
module _ (topology : Topology) where
  -- An attempt at the nodes, of the CPU's state.
  unfoldable pub alloc_from_nodes :
      AllocationRequest → AllocationPolicy → ℕ → CpuState → Outcome (CpuState × NodeAllocation)
  alloc_from_nodes request placement local_node s = do
    (p, a) ← alloc_node_aware topology request.mem_zone request.order placement local_node s.pmm
    done (record s { pmm = p }, a)

  -- What no block is found for is tried again once the node is reclaimed, where the caller can
  -- sleep and no reclaim is going on. `reclaim_node` is reclaim::reclaim_node.
  unfoldable pub alloc_reclaiming :
      (ℕ → ℕ → CpuState → Outcome CpuState)
      → Bool
      → AllocationRequest
      → AllocationPolicy
      → ℕ
      → CpuState
      → Outcome (CpuState × NodeAllocation)
  alloc_reclaiming reclaim_node can_sleep request placement local_node s =
      if not can_sleep || s.is_reclaiming then done (s, no_allocation) else do
        t ←
            reclaim_node placement.preferred_node (2 ^ request.order)
              (record s { is_reclaiming = true })
        alloc_from_nodes request placement local_node (record t { is_reclaiming = false })

  -- A block for an admissible request, or none.
  unfoldable pub find_block :
      (ℕ → ℕ → CpuState → Outcome CpuState)
      → Bool
      → AllocationRequest
      → AllocationPolicy
      → ℕ
      → CpuState
      → Outcome (CpuState × NodeAllocation)
  find_block reclaim_node can_sleep request placement local_node s = do
    cached ←
        if leb request.order pcp_max_order
        then alloc_cached request placement local_node s
        else done (s, no_allocation)
    near ← unless_found (alloc_from_nodes request placement local_node) cached
    unless_found (alloc_reclaiming reclaim_node can_sleep request placement local_node) near

module _ (topology : Topology) (mapped : ℕ → ℕ → Bool) where
  -- The block that was found is finished; without one the zone is exhausted.
  unfoldable pub finish_found :
      AllocationRequest → CpuState × NodeAllocation → CpuState × Result AllocationResult
  finish_found request (s, a) =
      let (p, r) = finish_alloc topology mapped request a s.pmm in
      if a.phys == 0 then (s, err (from_memory zone_exhausted)) else (record s { pmm = p }, r)

  -- `alloc(const allocation_request&)`
  unfoldable pub alloc :
      ℕ
      → (ℕ → ℕ → CpuState → Outcome CpuState)
      → Context
      → AllocationRequest
      → CpuState
      → Outcome (CpuState × Result AllocationResult)
  alloc max_cpus reclaim_node context request s =
      let local_node = local_node_id max_cpus topology context.cpu_id in
      let placement = placement_of request local_node in
      if is_forbidden context request.order
      then fault
      else if ltb max_order request.order
      then done (s, err (from_memory out_of_memory))
      else if placement.require_dma31 && not (request.mem_zone == 0)
      then done (s, err (from_memory zone_exhausted))
      else do
        found ← find_block topology reclaim_node context.can_sleep request placement local_node s
        done (finish_found request found)
