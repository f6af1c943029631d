-- ===== src/Memory/Numa/Building.antt =====
-- numa::init: the topology from the boot protocol's memory and CPU records.
use zxfoundation.Base.{
  ℕ, zero, suc, ◌+◌, ◌-◌, ◌*◌, ◌/◌, ◌%◌, ◌^◌, Bool, true, false, not, ◌&&◌, ◌||◌, List, [], ◌∷◌,
  Result, ok, err, from_generic, out_of_range, invalid_arg, if◌then◌else◌, ltb, leb, ◌==◌,
}
use zxfoundation.Base.Arrays.{update}
use zxfoundation.Base.Sums.{length}
use zxfoundation.Memory.Numa.{
  max_numa_nodes, numa_node_any, numa_node_boot, numa_drawer_unknown, u64_max_value, NodeState,
  offline, online, degraded, draining, TopologySource, none_source, zxfl_memory_map, zxfl_cpu_map,
  synthetic_single_node, NodeTopology, Topology, node_id_is_valid, is_offline, is_sourceless,
}

-- `zxfl::mem_region`; `is_usable` says that its type is ZXFL_MEM_USABLE.
pub record MemRegion : Type 0 where
  pub base : ℕ
  pub length : ℕ
  pub is_usable : Bool
  pub numa_node : ℕ

-- `zxfl::cpu_info`, as far as the topology goes; `is_known` says that its state is not unknown.
pub record CpuInfo : Type 0 where
  pub numa_node : ℕ
  pub drawer_id : ℕ
  pub is_known : Bool

-- `node_topology{}`
abbrev pub blank_node : NodeTopology
blank_node = record {
  node_id = numa_node_boot;
  drawer_id = numa_drawer_unknown;
  state = offline;
  source = none_source;
  phys_start = 0;
  phys_end = 0;
  free_pages = 0;
  low_watermark_pages = 0;
  high_watermark_pages = 0;
  cpu_count = 0;
}

unfoldable pub align_up_page : ℕ → ℕ
align_up_page value = (value + 4095) % 2 ^ 64 / 4096 * 4096

unfoldable pub align_down_page : ℕ → ℕ
align_down_page value = value / 4096 * 4096

unfoldable pub sanitize_node_id : ℕ → ℕ
sanitize_node_id node_id = if node_id_is_valid node_id then node_id else numa_node_boot

unfoldable pub usable_pages_in_range : ℕ → ℕ → ℕ
usable_pages_in_range base length =
    if (length == 0) || ltb (u64_max_value - length) base
    then 0
    else if leb (align_down_page ((base + length) % 2 ^ 64)) (align_up_page base)
    then 0
    else (align_down_page ((base + length) % 2 ^ 64) - align_up_page base) / 4096

-- What node_record does to the node's record before it gives the pointer out.
unfoldable pub started : ℕ → ℕ → TopologySource → NodeTopology → NodeTopology
started node_id drawer_id source node =
    if is_sourceless node.source && is_offline node.state
    then record {
      node_id = node_id;
      drawer_id = drawer_id;
      state = node.state;
      source = source;
      phys_start = u64_max_value;
      phys_end = 0;
      free_pages = 0;
      low_watermark_pages = 0;
      high_watermark_pages = 0;
      cpu_count = 0;
    }
    else node

unfoldable pub is_memory_map : TopologySource → Bool
is_memory_map none_source = false
is_memory_map zxfl_memory_map = true
is_memory_map zxfl_cpu_map = false
is_memory_map synthetic_single_node = false

unfoldable pub sourced : ℕ → TopologySource → NodeTopology → NodeTopology
unfolding is_memory_map
sourced drawer_id source node = record node {
  drawer_id =
      if not (drawer_id == numa_drawer_unknown) && (node.drawer_id == numa_drawer_unknown)
      then drawer_id
      else node.drawer_id;
  source = if is_memory_map source || is_sourceless node.source then source else node.source;
}

unfoldable pub node_record : ℕ → ℕ → TopologySource → NodeTopology → NodeTopology
node_record node_id drawer_id source node =
    sourced drawer_id source (started node_id drawer_id source node)

-- The node with a usable range more.
unfoldable pub widened : ℕ → ℕ → ℕ → NodeTopology → NodeTopology
widened start end pages node = record node {
  state = online;
  phys_start = if ltb start node.phys_start then start else node.phys_start;
  phys_end = if ltb node.phys_end end then end else node.phys_end;
  free_pages = (node.free_pages + pages) % 2 ^ 64;
}

unfoldable pub apply_memory_region : MemRegion → Topology → Topology
apply_memory_region region t =
    let pages = usable_pages_in_range region.base region.length in
    let node_id = sanitize_node_id region.numa_node in
    let node = node_record node_id numa_drawer_unknown zxfl_memory_map (t.nodes node_id) in
    let start = align_up_page region.base in
    let end = align_down_page ((region.base + region.length) % 2 ^ 64) in
    if not region.is_usable || (pages == 0)
    then t
    else record t { nodes = update t.nodes node_id (widened start end pages node) }

unfoldable pub with_cpu : NodeTopology → NodeTopology
with_cpu node = record node {
  state = if is_offline node.state then degraded else node.state;
  cpu_count = (node.cpu_count + 1) % 2 ^ 32;
}

unfoldable pub apply_cpu_record : ℕ → ℕ → CpuInfo → Topology → Topology
apply_cpu_record max_cpus logical_cpu cpu t =
    let node_id = sanitize_node_id cpu.numa_node in
    let node = node_record node_id cpu.drawer_id zxfl_cpu_map (t.nodes node_id) in
    if leb max_cpus logical_cpu || not cpu.is_known then t else record t {
      cpu_to_node = update t.cpu_to_node logical_cpu node_id;
      nodes = update t.nodes node_id (with_cpu node);
    }

unfoldable pub apply_regions : List MemRegion → Topology → Topology
apply_regions [] t = t
apply_regions (r ∷ rs) t = apply_regions rs (apply_memory_region r t)

unfoldable pub apply_cpus : ℕ → ℕ → List CpuInfo → Topology → Topology
apply_cpus max_cpus logical_cpu [] t = t
apply_cpus max_cpus logical_cpu (c ∷ cs) t =
    apply_cpus max_cpus (suc logical_cpu) cs (apply_cpu_record max_cpus logical_cpu c t)

unfoldable pub online_to_degraded : NodeState → NodeState
online_to_degraded offline = offline
online_to_degraded online = degraded
online_to_degraded degraded = degraded
online_to_degraded draining = draining

-- The watermarks are a 64th and a 16th of the pages, within bounds.
unfoldable pub with_watermarks : NodeTopology → NodeTopology
with_watermarks node =
    let pages = node.free_pages in
    let low = if not (pages == 0) && (pages / 64 == 0) then 1 else pages / 64 in
    let high = if ltb (pages / 16) low then low else pages / 16 in
    record node {
      low_watermark_pages = low;
      high_watermark_pages = if ltb pages high then pages else high;
    }

unfoldable pub finalize_node : NodeTopology → NodeTopology
unfolding online_to_degraded with_watermarks
finalize_node node =
    if is_sourceless node.source
    then node
    else with_watermarks (record node {
      phys_start = if node.phys_start == u64_max_value then 0 else node.phys_start;
      state = if node.free_pages == 0 then online_to_degraded node.state else node.state;
    })

unfoldable pub is_known_node : NodeTopology → Bool
is_known_node node = not (is_offline node.state) || not (is_sourceless node.source)

unfoldable pub known_node_count : (ℕ → NodeTopology) → ℕ → ℕ
known_node_count nodes zero = 0
known_node_count nodes (suc n) =
    let rest = known_node_count nodes n in if is_known_node (nodes n) then suc rest else rest

unfoldable pub synthesize_boot_node : Topology → Topology
synthesize_boot_node t =
    let node =
      node_record numa_node_boot numa_drawer_unknown synthetic_single_node
        (t.nodes numa_node_boot) in
    record t {
      nodes =
          update t.nodes numa_node_boot
            (record node { state = degraded; phys_start = 0; phys_end = 0; free_pages = 0 });
      cpu_to_node = update t.cpu_to_node 0 numa_node_boot;
    }

unfoldable pub finalize_topology : Topology → Topology
finalize_topology t =
    let finalized = record t { nodes = λ i. finalize_node (t.nodes i) } in
    if known_node_count finalized.nodes max_numa_nodes == 0
    then synthesize_boot_node finalized
    else finalized

unfoldable pub reset_state : Topology → Topology
reset_state t = record t {
  nodes = λ i. blank_node;
  cpu_to_node = λ i. numa_node_any;
  distances = λ a b. 0;
  is_initialized = false;
}

-- build_synthetic_slit
unfoldable pub synthetic_distance : ℕ → ℕ → ℕ
synthetic_distance a b =
    if a == b then 10 else if (a == numa_node_boot) || (b == numa_node_boot) then 20 else 40

-- `regions` and `cpus` are the protocol's maps, `has_map` says that the address of the first is not
-- null, and `max_regions` is ZXFL_MEM_MAP_MAX. After the reset the matrix is not initialized, so the synthetic one is built.
unfoldable pub init :
    ℕ → ℕ → Bool → List MemRegion → List CpuInfo → Topology → Result (Unit {0}) × Topology
init max_regions max_cpus has_map regions cpus t =
    let blank = reset_state t in
    let built = finalize_topology (apply_cpus max_cpus 0 cpus (apply_regions regions blank)) in
    if ltb max_regions (length regions) || ltb max_cpus (length cpus)
    then (err (from_generic out_of_range), blank)
    else if not (length regions == 0) && not has_map
    then (err (from_generic invalid_arg), blank)
    else (
      ok tt,
      record built {
        distances = synthetic_distance;
        is_initialized = true;
        generation = (built.generation + 1) % 2 ^ 64;
      },
    )
