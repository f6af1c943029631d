-- ===== src/Memory/Numa/Covering.antt =====
-- The steps of numa::init on the ranges of the nodes.
use zxfoundation.Base.{
  ℕ, suc, ◌+◌, ◌%◌, ◌^◌, ◌≤◌, ◌<◌, ◌≡◌, inl, inr, refl, sym, subst, true, false, not, ◌&&◌, ◌||◌,
  List, [], ◌∷◌, arith, leb, ◌==◌, ==_ne, ==_refl, Bool-cases, ℕ_discrete,
}
use zxfoundation.Base.Arrays.{update}
use zxfoundation.Memory.Numa.{
  max_numa_nodes, numa_drawer_unknown, NodeState, offline, online, degraded, draining,
  TopologySource, zxfl_memory_map, zxfl_cpu_map, NodeTopology, Topology, node_state_is_allocatable,
  is_offline, is_sourceless,
}
use zxfoundation.Memory.Numa.Building.{
  MemRegion, CpuInfo, align_up_page, align_down_page, sanitize_node_id, usable_pages_in_range,
  started, sourced, node_record, widened, apply_memory_region, with_cpu, apply_cpu_record,
  apply_regions, apply_cpus, online_to_degraded, with_watermarks, finalize_node,
}

-- The node may serve memory and its range has [low, high).
pub record IsCovering (low high : ℕ) (node : NodeTopology) : Type 0 where
  pub serves : node_state_is_allocatable node.state ≡ true
  pub from_low : node.phys_start ≤ low
  pub to_high : high ≤ node.phys_end

pub allocatable_online : (s : NodeState) → node_state_is_allocatable s ≡ true → is_offline s ≡ false
unfolding node_state_is_allocatable is_offline
allocatable_online offline h = absurd (ground arith)
allocatable_online online h = refl
allocatable_online degraded h = refl
allocatable_online draining h = refl

-- A node that serves memory keeps its range and state when its record is asked for again.
node_record-IsCovering :
    (low high node_id drawer_id : ℕ) (source : TopologySource) (node : NodeTopology)
    → IsCovering low high node
    → IsCovering low high (node_record node_id drawer_id source node)
unfolding node_record started sourced
node_record-IsCovering low high node_id drawer_id source node c =
    let here = allocatable_online node.state c.serves in
    let kept : (is_sourceless node.source && is_offline node.state) ≡ false = ground arith in
    rw kept (record { serves = c.serves; from_low = c.from_low; to_high = c.to_high })

widened-IsCovering :
    (low high start end pages : ℕ) (node : NodeTopology)
    → IsCovering low high node
    → IsCovering low high (widened start end pages node)
unfolding widened node_state_is_allocatable
widened-IsCovering low high start end pages node c = record {
  serves = refl;
  from_low = ground (arith, c.from_low);
  to_high = ground (arith, c.to_high);
}

-- The range that a node is widened by.
pub widened-new :
    (start end pages : ℕ) (node : NodeTopology)
    → IsCovering start end (widened start end pages node)
unfolding widened node_state_is_allocatable
widened-new start end pages node = record {
  serves = refl;
  from_low = ground arith;
  to_high = ground arith;
}

with_cpu-IsCovering :
    (low high : ℕ) (node : NodeTopology)
    → IsCovering low high node
    → IsCovering low high (with_cpu node)
unfolding with_cpu
with_cpu-IsCovering low high node c =
    rw (allocatable_online node.state c.serves)
      (record { serves = c.serves; from_low = c.from_low; to_high = c.to_high })

degraded-allocatable :
    (s : NodeState)
    → node_state_is_allocatable s ≡ true
    → node_state_is_allocatable (online_to_degraded s) ≡ true
unfolding node_state_is_allocatable online_to_degraded
degraded-allocatable offline h = h
degraded-allocatable online h = refl
degraded-allocatable degraded h = refl
degraded-allocatable draining h = h

pub finalize_node-IsCovering :
    (low high : ℕ) (node : NodeTopology)
    → IsCovering low high node
    → IsCovering low high (finalize_node node)
unfolding finalize_node with_watermarks
finalize_node-IsCovering low high node c = elim (Bool-cases (is_sourceless node.source)) [
  | inl e ↦ rw e c
  | inr e ↦
      let kept = degraded-allocatable node.state c.serves in
      rw e (record {
        serves = ground arith;
        from_low = ground (arith, c.from_low);
        to_high = c.to_high;
      })
]

-- Some node of the table covers the range.
abbrev pub IsCovered : ℕ → ℕ → (ℕ → NodeTopology) → Type 0
IsCovered low high nodes = (i : ℕ) × ((i < max_numa_nodes) × IsCovering low high (nodes i))

update-IsCovered :
    (low high k : ℕ) (nodes : ℕ → NodeTopology) (node : NodeTopology)
    → IsCovered low high nodes
    → (IsCovering low high (nodes k) → IsCovering low high node)
    → IsCovered low high (update nodes k node)
update-IsCovered low high k nodes node (i, (below, c)) keep = elim (ℕ_discrete k i) [
  | yes e ↦
      (i, (below, rw (e, ==_refl i) (keep (subst (λ t. IsCovering low high (nodes t)) (sym e) c))))
  | no ne ↦ (i, (below, rw (==_ne k i ne) c))
]

region-IsCovered :
    (low high : ℕ) (r : MemRegion) (t : Topology)
    → IsCovered low high t.nodes
    → IsCovered low high (apply_memory_region r t).nodes
unfolding apply_memory_region
region-IsCovered low high r t c =
    let node_id = sanitize_node_id r.numa_node in
    let pages = usable_pages_in_range r.base r.length in
    elim (Bool-cases (not r.is_usable || (pages == 0))) [
      | inl e ↦ rw e c
      | inr e ↦ rw e (
          update-IsCovered low high node_id t.nodes
            (widened (align_up_page r.base) (align_down_page ((r.base + r.length) % 2 ^ 64)) pages
              (node_record node_id numa_drawer_unknown zxfl_memory_map (t.nodes node_id)))
            c
            (λ d.
              widened-IsCovering low high (align_up_page r.base)
                (align_down_page ((r.base + r.length) % 2 ^ 64)) pages
                (node_record node_id numa_drawer_unknown zxfl_memory_map (t.nodes node_id))
                (node_record-IsCovering low high node_id numa_drawer_unknown zxfl_memory_map
                  (t.nodes node_id) d)))
    ]

cpu-IsCovered :
    (low high max_cpus n : ℕ) (cpu : CpuInfo) (t : Topology)
    → IsCovered low high t.nodes
    → IsCovered low high (apply_cpu_record max_cpus n cpu t).nodes
unfolding apply_cpu_record
cpu-IsCovered low high max_cpus n cpu t c =
    let node_id = sanitize_node_id cpu.numa_node in
    let node = node_record node_id cpu.drawer_id zxfl_cpu_map (t.nodes node_id) in
    elim (Bool-cases (leb max_cpus n || not cpu.is_known)) [
      | inl e ↦ rw e c
      | inr e ↦ rw e (
          update-IsCovered low high node_id t.nodes (with_cpu node) c (λ d.
            with_cpu-IsCovering low high node (
              node_record-IsCovering low high node_id cpu.drawer_id zxfl_cpu_map (t.nodes node_id)
                d)))
    ]

pub regions-IsCovered :
    (low high : ℕ) (rs : List MemRegion) (t : Topology)
    → IsCovered low high t.nodes
    → IsCovered low high (apply_regions rs t).nodes
unfolding apply_regions
regions-IsCovered low high [] t c = c
regions-IsCovered low high (r ∷ rs) t c =
    regions-IsCovered low high rs (apply_memory_region r t) (region-IsCovered low high r t c)

pub cpus-IsCovered :
    (low high max_cpus n : ℕ) (cs : List CpuInfo) (t : Topology)
    → IsCovered low high t.nodes
    → IsCovered low high (apply_cpus max_cpus n cs t).nodes
unfolding apply_cpus
cpus-IsCovered low high max_cpus n [] t c = c
cpus-IsCovered low high max_cpus n (cpu ∷ cs) t c =
    cpus-IsCovered low high max_cpus (suc n) cs (apply_cpu_record max_cpus n cpu t)
      (cpu-IsCovered low high max_cpus n cpu t c)
