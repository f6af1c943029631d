-- ===== src/Memory/Numa/Finding.antt =====
-- numa::node_for_phys after numa::init.
use zxfoundation.Base.{
  ℕ, zero, suc, ◌+◌, ◌*◌, ◌/◌, ◌%◌, ◌^◌, ◌≤◌, ◌<◌, ◌≡◌, ◌≢◌, inl, inr, refl, ap, subst, true, false,
  not, ◌&&◌, ◌||◌, List, [], ◌∷◌, ◌++◌, ok, arith, ltb, ◌==◌, ==_ne, ==_refl, Bool-cases,
  ℕ_discrete, Bool,
}
use zxfoundation.Base.Sums.{length}
use zxfoundation.Memory.Numa.{
  max_numa_nodes, numa_drawer_unknown, zxfl_memory_map, NodeTopology, Topology, node_id_is_valid,
  holds, find_node, node_for_phys,
}
use zxfoundation.Memory.Numa.Building.{
  MemRegion, CpuInfo, align_up_page, align_down_page, sanitize_node_id, usable_pages_in_range,
  node_record, apply_memory_region, apply_regions, apply_cpus, finalize_node, is_known_node,
  known_node_count, finalize_topology, reset_state, init,
}
use zxfoundation.Memory.Numa.Covering.{
  IsCovering, IsCovered, allocatable_online, widened-new, finalize_node-IsCovering,
  regions-IsCovered, cpus-IsCovered,
}

-- The page at `page` lies in the region, which is usable.
pub record IsUsablePage (r : MemRegion) (page : ℕ) : Type 0 where
  pub usable : r.is_usable ≡ true
  pub aligned : page % 4096 ≡ 0
  pub from_base : r.base ≤ page
  pub to_end : page + 4096 ≤ r.base + r.length
  pub no_overflow : r.base + r.length < 2 ^ 64

in_range :
    (r : MemRegion) (page : ℕ)
    → IsUsablePage r page
    → (align_up_page r.base ≤ page)
      × (page + 4096 ≤ align_down_page ((r.base + r.length) % 2 ^ 64))
      × (usable_pages_in_range r.base r.length ≢ 0)
unfolding align_up_page align_down_page usable_pages_in_range
in_range r page u =
    let low : (r.base + 4095) % 2 ^ 64 / 4096 * 4096 ≤ page =
      omega (arith, u.aligned, u.from_base, u.to_end, u.no_overflow) in
    let high : page + 4096 ≤ (r.base + r.length) % 2 ^ 64 / 4096 * 4096 =
      omega (arith, u.aligned, u.to_end, u.no_overflow) in
    (low, high, ground (arith, low, high, u.from_base, u.to_end, u.no_overflow))

node_id-below : (n : ℕ) → sanitize_node_id n < max_numa_nodes
unfolding sanitize_node_id node_id_is_valid
node_id-below n = ground arith

new-IsCovered :
    (page : ℕ) (r : MemRegion) (t : Topology)
    → IsUsablePage r page
    → IsCovered page (page + 4096) (apply_memory_region r t).nodes
unfolding apply_memory_region
new-IsCovered page r t u =
    let node_id = sanitize_node_id r.numa_node in
    let pages = usable_pages_in_range r.base r.length in
    let node = node_record node_id numa_drawer_unknown zxfl_memory_map (t.nodes node_id) in
    let start = align_up_page r.base in
    let end = align_down_page ((r.base + r.length) % 2 ^ 64) in
    let span = in_range r page u in
    let e : (not r.is_usable || (pages == 0)) ≡ false = ground (arith, u.usable, span.2) in
    let fresh = widened-new start end pages node in
    rw e (
      node_id,
      (
        node_id-below r.numa_node,
        rw (==_refl node_id) (record {
          serves = fresh.serves;
          from_low = omega (arith, fresh.from_low, span.0);
          to_high = omega (arith, fresh.to_high, span.1);
        }),
      ),
    )

all-IsCovered :
    (page : ℕ) (r : MemRegion) (rs later : List MemRegion) (t : Topology)
    → IsUsablePage r page
    → IsCovered page (page + 4096) (apply_regions (rs ++ r ∷ later) t).nodes
unfolding apply_regions
all-IsCovered page r [] later t u =
    regions-IsCovered page (page + 4096) later (apply_memory_region r t) (new-IsCovered page r t u)
all-IsCovered page r (q ∷ rs) later t u = all-IsCovered page r rs later (apply_memory_region q t) u

serving-known :
    (low high : ℕ) (node : NodeTopology) → IsCovering low high node → is_known_node node ≡ true
unfolding is_known_node
serving-known low high node c =
    let here = allocatable_online node.state c.serves in ground (arith, here)

known-count :
    (nodes : ℕ → NodeTopology) (i n : ℕ)
    → i < n
    → is_known_node (nodes i) ≡ true
    → known_node_count nodes n ≢ 0
unfolding known_node_count
known-count nodes i zero h e = absurd (omega (arith, h))
known-count nodes i (suc n) h e = elim (ℕ_discrete i n) [
  | yes f ↦
      let g : is_known_node (nodes n) ≡ true = subst (λ t. is_known_node (nodes t) ≡ true) f e in
      rw g (ground arith)
  | no ne ↦
      let rest = known-count nodes i n (omega (arith, h, ne)) e in
      elim (Bool-cases (is_known_node (nodes n))) [
        | inl g ↦ rw g (ground arith)
        | inr g ↦ rw g rest
      ]
]

finalized-IsCovered :
    (low high : ℕ) (t : Topology)
    → IsCovered low high t.nodes
    → IsCovered low high (finalize_topology t).nodes
unfolding finalize_topology
finalized-IsCovered low high t (i, (below, c)) =
    let d = finalize_node-IsCovering low high (t.nodes i) c in
    let nodes : ℕ → NodeTopology = λ k. finalize_node (t.nodes k) in
    let some_known =
      known-count nodes i max_numa_nodes below
        (serving-known low high (finalize_node (t.nodes i)) d) in
    rw (==_ne (known_node_count nodes max_numa_nodes) 0 some_known) (i, (below, d))

covering-holds :
    (low high phys : ℕ) (node : NodeTopology)
    → IsCovering low high node
    → low ≤ phys
    → phys < high
    → holds node phys ≡ true
unfolding holds
covering-holds low high phys node c h g = ground (arith, c.serves, c.from_low, c.to_high)

-- The search for a node finds one where some node holds the address.
find_node-law :
    (nodes : ℕ → NodeTopology) (phys tries i k : ℕ)
    → i ≤ k
    → k < i + tries
    → holds (nodes k) phys ≡ true
    → (n : ℕ) × ((find_node nodes phys tries i ≡ ok n) × ((n ≤ k) × (holds (nodes n) phys ≡ true)))
unfolding find_node
find_node-law nodes phys zero i k low high h = absurd (omega (arith, low, high))
find_node-law nodes phys (suc tries) i k low high h = elim (Bool-cases (holds (nodes i) phys)) [
  | inl e ↦ rw e (i, (refl, (low, e)))
  | inr e ↦
      let other : i ≢ k = λ z. absurd (ground (arith, h, ap (λ t. holds (nodes t) phys) z, e)) in
      rw e (
        find_node-law nodes phys tries (suc i) k (omega (arith, low, other)) (omega (arith, high))
          h)
]

-- After init has accepted the boot protocol, an address in a page of a usable region of it is found:
-- node_for_phys answers a node of the table that may serve memory and whose range has the address.
pub init-node_for_phys :
    (max_regions max_cpus : ℕ) (has_map : Bool) (rs : List MemRegion) (r : MemRegion)
    (later : List MemRegion) (cpus : List CpuInfo) (t : Topology) (phys : ℕ)
    → (init max_regions max_cpus has_map (rs ++ r ∷ later) cpus t).0 ≡ ok tt
    → IsUsablePage r (phys / 4096 * 4096)
    → let built = (init max_regions max_cpus has_map (rs ++ r ∷ later) cpus t).1 in
      (n : ℕ) × ((node_for_phys built phys ≡ ok n)
        × ((n < max_numa_nodes) × (holds (built.nodes n) phys ≡ true)))
unfolding init node_for_phys
init-node_for_phys max_regions max_cpus has_map rs r later cpus t phys accepted u =
    let page = phys / 4096 * 4096 in
    let covered =
      finalized-IsCovered page (page + 4096)
        (apply_cpus max_cpus 0 cpus (apply_regions (rs ++ r ∷ later) (reset_state t)))
        (cpus-IsCovered page (page + 4096) max_cpus 0 cpus
          (apply_regions (rs ++ r ∷ later) (reset_state t))
          (all-IsCovered page r rs later (reset_state t) u)) in
    elim (Bool-cases (ltb max_regions (length (rs ++ r ∷ later)) || ltb max_cpus (length cpus))) [
      | inl e ↦ absurd (ground arith)
      | inr e ↦ elim (Bool-cases (not (length (rs ++ r ∷ later) == 0) && not has_map)) [
        | inl g ↦ absurd (ground arith)
        | inr g ↦
            let held =
              covering-holds page (page + 4096) phys
                ((finalize_topology (
                    apply_cpus max_cpus 0 cpus
                      (apply_regions (rs ++ r ∷ later) (reset_state t)))).nodes
                  covered.0)
                covered.1.1 (omega arith) (omega arith) in
            let found =
              find_node-law
                (finalize_topology (
                  apply_cpus max_cpus 0 cpus
                    (apply_regions (rs ++ r ∷ later) (reset_state t)))).nodes
                phys max_numa_nodes 0 covered.0 (omega arith) (omega (arith, covered.1.0)) held in
            rw (e, g) (found.0, (found.1.0, (omega (arith, found.1.1.0, covered.1.0), found.1.1.1)))
      ]
    ]
