-- ===== src/Memory/FrameTests.antt =====
-- Runs on frames in use, on reservations and on the topology at concrete inputs.
use zxfoundation.Base.{
  ℕ, ◌+◌, ◌*◌, ◌%◌, ◌^◌, ◌<◌, ◌≤◌, ◌≡◌, ◌⊎◌, ◌↔◌, refl, true, false, not, ◌||◌, List, [], ◌∷◌,
  Outcome, done, fault, ok, err, from_memory, zone_exhausted, arith,
}
use zxfoundation.Base.Arrays.{update}
use zxfoundation.Base.Sums.{length}
use zxfoundation.Memory.Numa.{
  online, zxfl_memory_map, Topology, AllocationPolicy, PlacementResult, strict_local, node_for_phys,
  max_numa_nodes, holds, node_id_is_valid, node_at, is_offline, is_sourceless,
  node_state_is_allocatable,
}
use zxfoundation.Memory.Numa.Building.{MemRegion, blank_node, init}
use zxfoundation.Memory.Numa.Policies.{resolve_policy, preferred_node_of}
use zxfoundation.Memory.Numa.Resolving.{IsResolved, IsUnresolved, resolve_policy-IsResolved}
use zxfoundation.Memory.Numa.Finding.{init-node_for_phys}
use zxfoundation.Memory.Pmm.{
  ZoneState, FrameDesc, page_size, set_frame, none_owner, page_table_owner, desc_of, zone_of,
  owner_of, order_of, buddy_owner, alloc_locked, alloc_from, take_block, is_allocatable_frame,
  pop_state, split, owned_by,
}
use zxfoundation.Memory.Pmm.Nodes.{
  Pmm, NodeAllocation, node_is_allocatable, preferred_of, is_strict, alloc_node_aware, or_else,
  try_alloc_node, normalize_node_id, zone_state, allocated, placed_at, with_zone,
  recorded_allocatable,
}
use zxfoundation.Memory.Pmm.Sources.{IsTakenFrom}
use zxfoundation.Memory.Pmm.Placing.{IsPlaced, alloc_node_aware-IsPlaced}
use zxfoundation.Memory.Pmm.Frames.{
  frame_validate_mapping, validate_pages, carries, validate_page_table_allocation,
}
use zxfoundation.Memory.Pmm.Checks.{
  IsCarried, IsTableBlock, frame_validate_mapping-IsCarried,
  validate_page_table_allocation-IsTableBlock,
}
use zxfoundation.Memory.Pmm.Reservations.{
  ResvEntry, sort_merge_reservations, resv_skip_end, next_resv_start,
}
use zxfoundation.Memory.Pmm.Reservations.Sorting.{IsReserved, IsAscending}
use zxfoundation.Memory.Pmm.Reservations.Walking.{
  IsSeparated, sort_merge_reservations-IsSeparated, resv_walk_lem,
}

-- Page 3 carries the object 7 of generation 1, pages 4 and 5 are a block of page tables.
abbrev frames_in_use : ℕ → FrameDesc
frames_in_use =
    update (update (λ i. set_frame 0 none_owner 0 0) 4 (set_frame 1 page_table_owner 0 0)) 3
      (record (set_frame 0 buddy_owner 0 0) { refcount = 1; object_id = 7; object_generation = 1 })

abbrev zone_in_use : ZoneState
zone_in_use = record {
  next_phys = λ p. 0;
  prev_phys = λ p. 0;
  heads = λ o. 0;
  counts = λ o. 0;
  free_pages = 0;
  frames = frames_in_use;
  has_table = true;
  max_pfn = 16;
}

frame_validate_mapping-IsCarried_example :
    (0x3000 + 0x1000 < 2 ^ 64)
    × (0x3000 % page_size ≡ 0)
    × (0x1000 % page_size ≡ 0)
    × IsCarried 7 1 zone_in_use (0x3000 + 0 * page_size)
unfolding frame_validate_mapping set_frame desc_of validate_pages carries
frame_validate_mapping-IsCarried_example =
    frame_validate_mapping-IsCarried 0x3000 0x1000 7 1 0 zone_in_use (omega arith) (omega arith)
      refl (omega arith)

validate_page_table_allocation-IsTableBlock_example :
    IsTableBlock 0x4000 1 0 0 zone_in_use × (true ≡ true) × (true ≡ true)
unfolding validate_page_table_allocation set_frame desc_of zone_of owner_of order_of
validate_page_table_allocation-IsTableBlock_example =
    validate_page_table_allocation-IsTableBlock (λ phys size. true) (λ node. true) 0x4000 1 0 0
      zone_in_use (omega arith) refl

abbrev staged : List ResvEntry
staged =
    record { start = 0x3000; end = 0x5000 }
    ∷ record { start = 0; end = 0x2000 }
    ∷ record { start = 0x2000; end = 0x3000 }
    ∷ record { start = 0x8000; end = 0x9000 }
    ∷ []

sort_merge_reservations-IsSeparated_example :
    let merged = sort_merge_reservations staged in
    IsAscending merged × IsSeparated merged × (IsReserved 0x2800 merged ↔ IsReserved 0x2800 staged)
sort_merge_reservations-IsSeparated_example = sort_merge_reservations-IsSeparated 0x2800 staged

resv_walk_lem_example :
    let merged = sort_merge_reservations staged in
    let skip = resv_skip_end 0x5000 merged in
    let run_end = next_resv_start 0x5000 0x10000 merged in
    ((0x5000 < skip) × ((q : ℕ) → 0x5000 ≤ q → q < skip → IsReserved q staged))
    ⊎ ((skip ≡ 0)
        × (run_end ≤ 0x10000)
        × ((q : ℕ) → 0x5000 ≤ q → q < run_end → IsReserved q staged → ⊥))
resv_walk_lem_example = resv_walk_lem 0x5000 0x10000 staged

abbrev blank_topology : Topology
blank_topology = record {
  nodes = λ i. blank_node;
  cpu_to_node = λ i. 0;
  distances = λ a b. 0;
  is_initialized = false;
  generation = 0;
}

-- Half of the first page is not in the region.
abbrev usable_region : MemRegion
usable_region = record { base = 0x800; length = 0x8000; is_usable = true; numa_node = 1 }

init-node_for_phys_example :
    let built = (init 4 64 true (usable_region ∷ []) [] blank_topology).1 in
    (n : ℕ) × ((node_for_phys built 0x5123 ≡ ok n)
      × ((n < max_numa_nodes) × (holds (built.nodes n) 0x5123 ≡ true)))
unfolding init length
init-node_for_phys_example =
    init-node_for_phys 4 64 true [] usable_region [] [] blank_topology 0x5123 refl (record {
      usable = refl;
      aligned = refl;
      from_base = omega arith;
      to_end = omega arith;
      no_overflow = omega arith;
    })

-- Node 1 alone is there.
abbrev one_node : Topology
one_node = record blank_topology {
  is_initialized = true;
  nodes =
      update (λ i. blank_node) 1
        (record blank_node { node_id = 1; state = online; source = zxfl_memory_map });
}

abbrev strict_policy : AllocationPolicy
strict_policy = record {
  preferred_node = 1;
  fallback = strict_local;
  require_dma31 = false;
  allow_remote = true;
}

resolve_policy-IsResolved_example :
    let resolved = resolve_policy one_node strict_policy 0 in
    ((r : PlacementResult) × ((resolved ≡ ok r) × IsResolved one_node strict_policy 1 r))
    ⊎ ((resolved ≡ err (from_memory zone_exhausted)) × IsUnresolved one_node strict_policy 1)
unfolding preferred_node_of node_id_is_valid
resolve_policy-IsResolved_example = resolve_policy-IsResolved one_node strict_policy 0 refl refl

abbrev stocked_pmm : Pmm
stocked_pmm = record {
  next_phys = λ p. 0;
  prev_phys = λ p. 0;
  node_zones = λ n z. record {
    heads = update (λ o. 0) 0 0x3000;
    counts = update (λ o. 0) 0 1;
    free_pages = 1;
  };
  frames = frames_in_use;
  has_table = true;
  max_pfn = 16;
  retired_pages = 0;
}

answer : Outcome (Pmm × NodeAllocation) → Pmm × NodeAllocation
answer fault =
    (stocked_pmm, record { phys = 0; node_id = 0; fallback_distance = 0; remote = false })
answer (done r) = r

abbrev strict_answer : Pmm × NodeAllocation
strict_answer = answer (alloc_node_aware one_node 0 0 strict_policy 0 stocked_pmm)

alloc_node_aware-IsPlaced_example :
    (strict_answer.1.phys ≡ 0)
    ⊎ (IsPlaced one_node 1 strict_answer.1
        × IsTakenFrom 0 0 strict_answer.0 strict_answer.1.phys strict_answer.1.node_id
        × (((is_strict strict_local || not true) ≡ false) ⊎ (strict_answer.1.node_id ≡ 1)))
unfolding answer alloc_node_aware preferred_of or_else try_alloc_node node_is_allocatable
    node_id_is_valid normalize_node_id node_at is_offline is_sourceless node_state_is_allocatable
    alloc_locked alloc_from zone_state take_block is_allocatable_frame pop_state desc_of owner_of
    set_frame allocated placed_at with_zone split owned_by recorded_allocatable
alloc_node_aware-IsPlaced_example =
    alloc_node_aware-IsPlaced one_node 0 0 strict_policy 0 stocked_pmm strict_answer.0
      strict_answer.1 refl
