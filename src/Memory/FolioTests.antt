-- ===== src/Memory/FolioTests.antt =====
-- Runs of alloc at concrete inputs: node 1 has one free page, and a CPU has a list with a page.
use zxfoundation.Base.{
  ℕ, ◌≡◌, refl, true, false, Bool, Outcome, done, fault, Result, ok, err, arith,
}
use zxfoundation.Base.Arrays.{update}
use zxfoundation.Memory.Numa.{
  online, zxfl_memory_map, Topology, strict_local, node_for_cpu, node_id_is_valid, node_at,
  is_offline, is_sourceless,
}
use zxfoundation.Memory.Numa.Building.{blank_node}
use zxfoundation.Memory.Pmm.{
  set_frame, none_owner, buddy_owner, desc_of, owner_of, is_allocatable_frame, owned_by,
}
use zxfoundation.Memory.Pmm.Nodes.{
  Pmm, node_is_allocatable, recorded_allocatable, normalize_node_id, zone_state,
}
use zxfoundation.Memory.Pmm.Folios.{
  Purpose, generic, page_table, is_page_table, AllocationRequest, AllocationResult, CpuState,
  Context, local_node_id, cpu_zone,
}
use zxfoundation.Memory.Pmm.Folios.Allocating.{is_forbidden, placement_of, alloc}
use zxfoundation.Memory.Pmm.Folios.Unserving.{alloc-unserving_node}

abbrev one_node : Topology
one_node = record {
  nodes =
      update (λ i. blank_node) 1
        (record blank_node { node_id = 1; state = online; source = zxfl_memory_map });
  cpu_to_node = λ i. 1;
  distances = λ a b. 0;
  is_initialized = true;
  generation = 1;
}

-- Page 3 is free.
abbrev one_page : Pmm
one_page = record {
  next_phys = λ p. 0;
  prev_phys = λ p. 0;
  node_zones = λ n z. record {
    heads = update (λ o. 0) 0 0x3000;
    counts = update (λ o. 0) 0 1;
    free_pages = 1;
  };
  frames = update (λ i. set_frame 0 none_owner 0 0) 3 (set_frame 0 buddy_owner 1 0);
  has_table = true;
  max_pfn = 16;
  retired_pages = 0;
}

abbrev cpu : CpuState
cpu = record {
  pmm = one_page;
  lists = λ n z o. record { head_phys = 0; count = 0 };
  is_reclaiming = false;
}

abbrev on_cpu : Context
on_cpu = record { in_mcck = false; in_hardirq = false; can_sleep = false; cpu_id = 0 }

abbrev request_for : Purpose → ℕ → AllocationRequest
request_for purpose node = record {
  order = 0;
  mem_zone = 0;
  purpose = purpose;
  zeroed = true;
  placement = record {
    preferred_node = node;
    fallback = strict_local;
    require_dma31 = true;
    allow_remote = false;
  };
}

abbrev no_reclaim : ℕ → ℕ → CpuState → Outcome CpuState
no_reclaim node pages s = done s

abbrev run : Bool → Purpose → Outcome (CpuState × Result AllocationResult)
run is_mapped purpose =
    alloc one_node (λ phys size. is_mapped) 4 no_reclaim on_cpu (request_for purpose 1) cpu

state_of : Outcome (CpuState × Result AllocationResult) → CpuState
state_of fault = cpu
state_of (done (t, r)) = t

abbrev nothing : AllocationResult
nothing = record {
  phys_base = 0;
  order = 0;
  purpose = generic;
  mem_zone = 0;
  placement = record {
    selected_node = 0;
    fallback_distance = 0;
    remote = false;
    strict_violation = false;
  };
}

result_of_run : Outcome (CpuState × Result AllocationResult) → AllocationResult
result_of_run fault = nothing
result_of_run (done (t, err e)) = nothing
result_of_run (done (t, ok r)) = r

abbrev granted : AllocationResult
granted = result_of_run (run true page_table)

-- Node 2 is not there; a list of the CPU has a page for it.
abbrev stocked_cpu : CpuState
stocked_cpu = record cpu { lists = λ n z o. record { head_phys = 0x3000; count = 1 } }

alloc-unserving_node_example :
    (t : CpuState) × ((r : AllocationResult) × ((alloc one_node
            (λ phys size. true)
            4
            no_reclaim
            on_cpu
            (record (request_for generic 2) {
              placement = record (request_for generic 2).placement { require_dma31 = false };
            })
            stocked_cpu
          ≡ done (t, ok r))
        × ((r.phys_base ≡ 0x3000)
            × (node_is_allocatable one_node r.placement.selected_node ≡ false))))
unfolding local_node_id node_for_cpu normalize_node_id node_id_is_valid placement_of cpu_zone
    zone_state is_forbidden is_page_table is_allocatable_frame owned_by desc_of owner_of set_frame
    node_is_allocatable recorded_allocatable node_at is_offline is_sourceless
alloc-unserving_node_example =
    alloc-unserving_node one_node (λ phys size. true) 4 no_reclaim on_cpu
      (record (request_for generic 2) {
        placement = record (request_for generic 2).placement { require_dma31 = false };
      })
      stocked_cpu (omega arith) refl refl refl (omega arith) refl refl
