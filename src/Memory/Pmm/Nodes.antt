-- ===== src/Memory/Pmm/Nodes.antt =====
-- The choice of the node, of pmm.zcomponent/core.cxx. A state of the whole allocator has a zone
-- per node; the frame table and the links are shared, so a zone is taken out to be worked on under
-- its lock and put back.
use zxfoundation.Base.{
  ℕ, zero, suc, ◌+◌, ◌-◌, ◌%◌, ◌^◌, Bool, true, false, not, ◌&&◌, ◌||◌, Result, ok, err, Outcome,
  done, fault, if◌then◌else◌, ltb, ◌==◌,
}
use zxfoundation.Base.Arrays.{update}
use zxfoundation.Memory.Numa.{
  max_numa_nodes, numa_node_any, numa_node_boot, FallbackMode, local_first, strict_local,
  interleave, emergency_any, NodeTopology, AllocationPolicy, Topology, node_id_is_valid,
  node_state_is_allocatable, node_at,
}
use zxfoundation.Memory.Pmm.{ZoneState, FrameDesc, alloc_locked}

unfoldable pub normalize_node_id : ℕ → ℕ
normalize_node_id node_id = if node_id_is_valid node_id then node_id else numa_node_boot

unfoldable pub recorded_allocatable : ℕ → Result NodeTopology → Bool
recorded_allocatable node_id (err e) = node_id == numa_node_boot
recorded_allocatable node_id (ok node) = node_state_is_allocatable node.state

unfoldable pub node_is_allocatable : Topology → ℕ → Bool
unfolding recorded_allocatable
node_is_allocatable t node_id =
    node_id_is_valid node_id && recorded_allocatable node_id (node_at t node_id)

-- What one zone of one node keeps for itself.
pub record NodeZone : Type 0 where
  pub heads : ℕ → ℕ
  pub counts : ℕ → ℕ
  pub free_pages : ℕ

-- `g_node_zones` by node and zone, `g_frame_table`, `g_max_pfn`, `g_retired_pages` and the memory.
pub record Pmm : Type 0 where
  pub next_phys : ℕ → ℕ
  pub prev_phys : ℕ → ℕ
  pub node_zones : ℕ → ℕ → NodeZone
  pub frames : ℕ → FrameDesc
  pub has_table : Bool
  pub max_pfn : ℕ
  pub retired_pages : ℕ

unfoldable pub zone_state : ℕ → ℕ → Pmm → ZoneState
zone_state node zone p = record {
  next_phys = p.next_phys;
  prev_phys = p.prev_phys;
  heads = (p.node_zones node zone).heads;
  counts = (p.node_zones node zone).counts;
  free_pages = (p.node_zones node zone).free_pages;
  frames = p.frames;
  has_table = p.has_table;
  max_pfn = p.max_pfn;
}

unfoldable pub with_zone : ℕ → ℕ → ZoneState → Pmm → Pmm
with_zone node zone s p = record p {
  next_phys = s.next_phys;
  prev_phys = s.prev_phys;
  node_zones = update p.node_zones node (
      update (p.node_zones node) zone
        (record { heads = s.heads; counts = s.counts; free_pages = s.free_pages }));
  frames = s.frames;
}

pub record NodeAllocation : Type 0 where
  pub phys : ℕ
  pub node_id : ℕ
  pub fallback_distance : ℕ
  pub remote : Bool

abbrev pub no_allocation : NodeAllocation
no_allocation = record { phys = 0; node_id = numa_node_boot; fallback_distance = 0; remote = false }

unfoldable pub allocated : ℕ → ℕ → Pmm → Outcome (ZoneState × ℕ) → Outcome (Pmm × NodeAllocation)
allocated node zone p fault = fault
allocated node zone p (done (s, phys)) =
    if phys == 0
    then done (with_zone node zone s p, no_allocation)
    else done (
      with_zone node zone s p,
      record { phys = phys; node_id = node; fallback_distance = 0; remote = false },
    )

unfoldable pub is_strict : FallbackMode → Bool
is_strict strict_local = true
is_strict local_first = false
is_strict interleave = false
is_strict emergency_any = false

unfoldable pub preferred_of : AllocationPolicy → ℕ → ℕ
preferred_of policy local_node =
    normalize_node_id
      (if policy.preferred_node == numa_node_any then local_node else policy.preferred_node)

-- `topology` is the topology in force, `zone` the zone asked for.
module _ (topology : Topology) (zone : ℕ) where
  unfoldable pub try_alloc_node : ℕ → ℕ → Pmm → Outcome (Pmm × NodeAllocation)
  unfolding allocated
  try_alloc_node order node_id p =
      let node = normalize_node_id node_id in
      if not (node_is_allocatable topology node)
      then done (p, no_allocation)
      else if ltb (p.node_zones node zone).free_pages (2 ^ order)
      then done (p, no_allocation)
      else allocated node zone p (alloc_locked order node (zone_state node zone p))

  -- `attempt` with the distance and the remoteness set.
  unfoldable pub placed_at : ℕ → Bool → Pmm × NodeAllocation → Pmm × NodeAllocation
  placed_at distance is_remote (p, a) =
      (p, record a { fallback_distance = distance; remote = is_remote })

  -- One attempt; where it gives no frame, the search goes on as `later` has it.
  unfoldable pub or_else :
      Outcome (Pmm × NodeAllocation)
      → ℕ
      → Bool
      → (Pmm → Outcome (Pmm × NodeAllocation))
      → Outcome (Pmm × NodeAllocation)
  unfolding placed_at
  or_else fault distance is_remote later = fault
  or_else (done (p, a)) distance is_remote later =
      let rest = later p in if a.phys == 0 then rest else done (placed_at distance is_remote (p, a))

  unfoldable pub alloc_anywhere : ℕ → ℕ → ℕ → ℕ → Pmm → Outcome (Pmm × NodeAllocation)
  alloc_anywhere order preferred zero candidate p = done (p, no_allocation)
  alloc_anywhere order preferred (suc tries) candidate p =
      or_else (try_alloc_node order candidate p)
        ((candidate + max_numa_nodes - preferred) % max_numa_nodes) (not (candidate == preferred))
        (λ q. alloc_anywhere order preferred tries (suc candidate) q)

  -- The last resort, of `emergency_any` alone.
  unfoldable pub alloc_emergency : FallbackMode → ℕ → ℕ → Pmm → Outcome (Pmm × NodeAllocation)
  alloc_emergency emergency_any order preferred p =
      alloc_anywhere order preferred max_numa_nodes 0 p
  alloc_emergency local_first order preferred p = done (p, no_allocation)
  alloc_emergency strict_local order preferred p = done (p, no_allocation)
  alloc_emergency interleave order preferred p = done (p, no_allocation)

  -- The nodes at the distances from `distance` on, `tries` of them, then the last resort.
  unfoldable pub alloc_nearby : FallbackMode → ℕ → ℕ → ℕ → ℕ → Pmm → Outcome (Pmm × NodeAllocation)
  alloc_nearby mode order preferred zero distance p = alloc_emergency mode order preferred p
  alloc_nearby mode order preferred (suc tries) distance p =
      let candidate = (preferred + distance) % max_numa_nodes in
      or_else (try_alloc_node order candidate p) distance (not (candidate == preferred))
        (λ q. alloc_nearby mode order preferred tries (suc distance) q)

  unfoldable pub alloc_node_aware : ℕ → AllocationPolicy → ℕ → Pmm → Outcome (Pmm × NodeAllocation)
  alloc_node_aware order policy local_node p =
      let preferred = preferred_of policy local_node in
      or_else (try_alloc_node order preferred p) 0 false (λ q.
        if is_strict policy.fallback || not policy.allow_remote
        then done (q, no_allocation)
        else alloc_nearby policy.fallback order preferred (max_numa_nodes - 1) 1 q)
