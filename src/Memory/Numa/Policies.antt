-- ===== src/Memory/Numa/Policies.antt =====
-- resolve_policy and the diagnostics of zxfoundation/memory/numa.zcomponent/core.cxx.
use zxfoundation.Base.{
  ℕ, zero, suc, ◌+◌, ◌-◌, ◌%◌, Bool, true, false, not, ◌&&◌, ◌||◌, Option, none, some, Result, ok,
  err, from_generic, from_memory, uninitialized, out_of_range, zone_exhausted, if◌then◌else◌, ltb,
  ◌==◌,
}
use zxfoundation.Memory.Numa.{
  max_numa_nodes, numa_node_any, numa_node_boot, NodeTopology, TopologySource, none_source,
  zxfl_memory_map, zxfl_cpu_map, synthetic_single_node, FallbackMode, local_first, strict_local,
  interleave, emergency_any, AllocationPolicy, PlacementResult, Topology, node_id_is_valid,
  node_state_is_allocatable,
}

-- The node may serve memory and has more free pages than its low watermark.
unfoldable pub has_room : NodeTopology → Bool
has_room node = node_state_is_allocatable node.state && ltb node.low_watermark_pages node.free_pages

-- The node may serve memory and has a free page.
unfoldable pub has_page : NodeTopology → Bool
has_page node = node_state_is_allocatable node.state && not (node.free_pages == 0)

unfoldable pub placement_at : ℕ → ℕ → ℕ → PlacementResult
placement_at preferred candidate distance = record {
  selected_node = candidate;
  fallback_distance = distance;
  remote = not (candidate == preferred);
  strict_violation = false;
}

-- The nodes at the distances from `distance` on, `tries` of them.
unfoldable pub resolve_nearby : (ℕ → NodeTopology) → ℕ → ℕ → ℕ → Option PlacementResult
resolve_nearby nodes preferred zero distance = none
resolve_nearby nodes preferred (suc tries) distance =
    let candidate = (preferred + distance) % max_numa_nodes in
    let later = resolve_nearby nodes preferred tries (suc distance) in
    if has_room (nodes candidate) then some (placement_at preferred candidate distance) else later

-- The nodes from `candidate` on, `tries` of them.
unfoldable pub resolve_anywhere : (ℕ → NodeTopology) → ℕ → ℕ → ℕ → Option PlacementResult
resolve_anywhere nodes preferred zero candidate = none
resolve_anywhere nodes preferred (suc tries) candidate =
    let later = resolve_anywhere nodes preferred tries (suc candidate) in
    if has_page (nodes candidate)
    then some (
        placement_at preferred candidate
          ((candidate + max_numa_nodes - preferred) % max_numa_nodes))
    else later

-- The last resort, of `emergency_any` alone.
unfoldable pub resolve_emergency : FallbackMode → (ℕ → NodeTopology) → ℕ → Option PlacementResult
resolve_emergency emergency_any nodes preferred = resolve_anywhere nodes preferred max_numa_nodes 0
resolve_emergency local_first nodes preferred = none
resolve_emergency strict_local nodes preferred = none
resolve_emergency interleave nodes preferred = none

unfoldable pub is_strict_local : FallbackMode → Bool
is_strict_local strict_local = true
is_strict_local local_first = false
is_strict_local interleave = false
is_strict_local emergency_any = false

unfoldable pub keeps_local : AllocationPolicy → Bool
keeps_local policy = is_strict_local policy.fallback || not policy.allow_remote

unfoldable pub preferred_node_of : AllocationPolicy → ℕ → ℕ
preferred_node_of policy local_node =
    if policy.preferred_node == numa_node_any
    then (if node_id_is_valid local_node then local_node else numa_node_boot)
    else policy.preferred_node

unfoldable pub exhausted_unless :
    Option PlacementResult → Option PlacementResult → Result PlacementResult
exhausted_unless (some r) last = ok r
exhausted_unless none (some r) = ok r
exhausted_unless none none = err (from_memory zone_exhausted)

unfoldable pub resolve_policy : Topology → AllocationPolicy → ℕ → Result PlacementResult
unfolding exhausted_unless
resolve_policy t policy local_node =
    let preferred = preferred_node_of policy local_node in
    if not t.is_initialized
    then err (from_generic uninitialized)
    else if not (node_id_is_valid preferred)
    then err (from_generic out_of_range)
    else if has_room (t.nodes preferred)
    then ok (placement_at preferred preferred 0)
    else if keeps_local policy
    then err (from_memory zone_exhausted)
    else exhausted_unless (resolve_nearby t.nodes preferred max_numa_nodes 1)
        (resolve_emergency policy.fallback t.nodes preferred)

is_memory_source : TopologySource → Bool
is_memory_source zxfl_memory_map = true
is_memory_source none_source = false
is_memory_source zxfl_cpu_map = false
is_memory_source synthetic_single_node = false

is_synthetic : TopologySource → Bool
is_synthetic synthetic_single_node = true
is_synthetic none_source = false
is_synthetic zxfl_memory_map = false
is_synthetic zxfl_cpu_map = false

-- Whether one of the first `n` nodes has such a source.
any_source : (TopologySource → Bool) → (ℕ → NodeTopology) → ℕ → Bool
any_source test nodes zero = false
any_source test nodes (suc n) = any_source test nodes n || test (nodes n).source

unfoldable pub has_loader_memory_evidence : Topology → Bool
unfolding any_source is_memory_source
has_loader_memory_evidence t = any_source is_memory_source t.nodes max_numa_nodes

unfoldable pub uses_synthetic_fallback : Topology → Bool
unfolding any_source is_synthetic
uses_synthetic_fallback t = any_source is_synthetic t.nodes max_numa_nodes
