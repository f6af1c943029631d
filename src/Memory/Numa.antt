-- ===== src/Memory/Numa.antt =====
-- The NUMA topology: zxfoundation/memory/numa.zcomponent/core.cxx with types.cxxm. The number of CPUs
-- the kernel is configured for is a parameter, `max_cpus`.
pub mod Building
pub mod Covering
pub mod Finding
pub mod Policies
pub mod Resolving
use zxfoundation.Base.{
  ℕ, zero, suc, ◌+◌, ◌-◌, ◌*◌, ◌/◌, ◌%◌, ◌^◌, Bool, true, false, not, ◌&&◌, ◌||◌, Result, ok, err,
  from_generic, out_of_range, uninitialized, not_found, if◌then◌else◌, ltb, leb, ◌==◌,
}

abbrev pub max_numa_nodes : ℕ
max_numa_nodes = 16

abbrev pub numa_node_any : ℕ
numa_node_any = 0xff

abbrev pub numa_node_boot : ℕ
numa_node_boot = 0

abbrev pub numa_drawer_unknown : ℕ
numa_drawer_unknown = 0xff

abbrev pub u64_max_value : ℕ
u64_max_value = 2 ^ 64 - 1

pub data NodeState : Type 0 where
  offline online degraded draining : NodeState

pub data TopologySource : Type 0 where
  none_source zxfl_memory_map zxfl_cpu_map synthetic_single_node : TopologySource

pub data FallbackMode : Type 0 where
  local_first strict_local interleave emergency_any : FallbackMode

pub record NodeTopology : Type 0 where
  pub node_id : ℕ
  pub drawer_id : ℕ
  pub state : NodeState
  pub source : TopologySource
  pub phys_start : ℕ
  pub phys_end : ℕ
  pub free_pages : ℕ
  pub low_watermark_pages : ℕ
  pub high_watermark_pages : ℕ
  pub cpu_count : ℕ

pub record AllocationPolicy : Type 0 where
  pub preferred_node : ℕ
  pub fallback : FallbackMode
  pub require_dma31 : Bool
  pub allow_remote : Bool

pub record PlacementResult : Type 0 where
  pub selected_node : ℕ
  pub fallback_distance : ℕ
  pub remote : Bool
  pub strict_violation : Bool

-- `g_nodes`, `g_cpu_to_node`, the matrix of `g_slit`, `g_initialized` and `g_generation`.
pub record Topology : Type 0 where
  pub nodes : ℕ → NodeTopology
  pub cpu_to_node : ℕ → ℕ
  pub distances : ℕ → ℕ → ℕ
  pub is_initialized : Bool
  pub generation : ℕ

unfoldable pub node_id_is_valid : ℕ → Bool
node_id_is_valid node_id = ltb node_id max_numa_nodes

unfoldable pub node_state_is_allocatable : NodeState → Bool
node_state_is_allocatable offline = false
node_state_is_allocatable online = true
node_state_is_allocatable degraded = true
node_state_is_allocatable draining = false

unfoldable pub is_offline : NodeState → Bool
is_offline offline = true
is_offline online = false
is_offline degraded = false
is_offline draining = false

unfoldable pub is_sourceless : TopologySource → Bool
is_sourceless none_source = true
is_sourceless zxfl_memory_map = false
is_sourceless zxfl_cpu_map = false
is_sourceless synthetic_single_node = false

-- The record of the node, which the source returns a pointer to.
unfoldable pub node_at : Topology → ℕ → Result NodeTopology
node_at t node_id =
    let node = t.nodes node_id in
    if not t.is_initialized
    then err (from_generic uninitialized)
    else if not (node_id_is_valid node_id)
    then err (from_generic out_of_range)
    else if is_offline node.state && is_sourceless node.source
    then err (from_generic not_found)
    else ok node

-- The node's range has the address, and the node may serve it.
unfoldable pub holds : NodeTopology → ℕ → Bool
holds node phys =
    node_state_is_allocatable node.state && leb node.phys_start phys && ltb phys node.phys_end

-- The first of the nodes from `i` on, `tries` of them, that holds the address.
unfoldable pub find_node : (ℕ → NodeTopology) → ℕ → ℕ → ℕ → Result ℕ
find_node nodes phys zero i = err (from_generic not_found)
find_node nodes phys (suc tries) i =
    let later = find_node nodes phys tries (suc i) in if holds (nodes i) phys then ok i else later

unfoldable pub node_for_phys : Topology → ℕ → Result ℕ
node_for_phys t phys =
    if not t.is_initialized
    then err (from_generic uninitialized)
    else find_node t.nodes phys max_numa_nodes 0

unfoldable pub node_for_pfn : Topology → ℕ → Result ℕ
node_for_pfn t pfn =
    if ltb (u64_max_value / 4096) pfn
    then err (from_generic out_of_range)
    else node_for_phys t (pfn * 4096 % 2 ^ 64)

unfoldable pub node_for_cpu : ℕ → Topology → ℕ → Result ℕ
node_for_cpu max_cpus t cpu_id =
    if not t.is_initialized
    then err (from_generic uninitialized)
    else if leb max_cpus cpu_id
    then err (from_generic out_of_range)
    else if t.cpu_to_node cpu_id == numa_node_any
    then ok numa_node_boot
    else ok (t.cpu_to_node cpu_id)

unfoldable pub node_of_cpu : ℕ → Topology → ℕ → ℕ
node_of_cpu max_cpus t cpu_id =
    if leb max_cpus cpu_id
    then numa_node_boot
    else if t.cpu_to_node cpu_id == numa_node_any
    then numa_node_boot
    else t.cpu_to_node cpu_id

unfoldable pub node_distance : Topology → ℕ → ℕ → ℕ
node_distance t node_a node_b =
    if leb max_numa_nodes node_a || leb max_numa_nodes node_b
    then 255
    else t.distances node_a node_b

unfoldable pub cpu_distance : ℕ → Topology → ℕ → ℕ → ℕ
cpu_distance max_cpus t cpu_a cpu_b =
    node_distance t (node_of_cpu max_cpus t cpu_a) (node_of_cpu max_cpus t cpu_b)
