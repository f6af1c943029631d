-- ===== src/Memory/Pmm/Folios.antt =====
-- Allocating a folio, of pmm.zcomponent/core.cxx: what is asked for, and what is done with the block
-- that was found. The search for it and alloc itself are in Allocating; Transactions has the
-- transaction, which frees what it has where it is not committed.
pub mod Allocating
pub mod Checked
pub mod Searching
pub mod Caching
pub mod Located
pub mod Finishing
pub mod Granting
pub mod Refusing
pub mod Unserving
pub mod Relabelling
pub mod Transactions
pub mod RollingBack
pub mod Undoing
use zxfoundation.Base.{
  ℕ, zero, suc, ◌+◌, ◌-◌, ◌/◌, ◌%◌, ◌^◌, Bool, true, false, not, ◌&&◌, ◌||◌, List, [], ◌∷◌, ◌++◌,
  Result, ok, err, from_memory, out_of_memory, zone_exhausted, Outcome, done, fault, if◌then◌else◌,
  ltb, leb, ◌==◌, bit_and, ◌>>=◌,
}
use zxfoundation.Base.Arrays.{update}
use zxfoundation.Base.Sums.{length}
use zxfoundation.Memory.Numa.{
  numa_node_any, numa_node_boot, AllocationPolicy, PlacementResult, Topology, node_for_cpu,
}
use zxfoundation.Memory.Pmm.{
  ZoneState, FrameDesc, page_size, max_order, size_of, wrapping_add, reserved_owner,
  page_table_owner, ff_suspect, ff_offline, set_frame, desc_of, describe,
}
use zxfoundation.Memory.Pmm.Freeing.{free_locked}
use zxfoundation.Memory.Pmm.Nodes.{
  Pmm, NodeAllocation, no_allocation, normalize_node_id, node_is_allocatable, zone_state, with_zone,
  alloc_node_aware,
}
use zxfoundation.Memory.Pmm.Cpulists.{PcpList, CpuZone, pcp_max_order, pcp_pop, pcp_refill}
use zxfoundation.Memory.Pmm.Frames.{validate_page_table_allocation}

pub data Purpose : Type 0 where
  generic lowcore stack page_table device_dma heap slab frame_table file_cache reserved_swap :
      Purpose

abbrev pub slab_owner : ℕ
slab_owner = 3

abbrev pub domain_owner : ℕ
domain_owner = 4

abbrev pub stack_owner : ℕ
stack_owner = 6

abbrev pub device_owner : ℕ
device_owner = 7

unfoldable pub owner_for_purpose : Purpose → ℕ
owner_for_purpose page_table = page_table_owner
owner_for_purpose stack = stack_owner
owner_for_purpose device_dma = device_owner
owner_for_purpose slab = slab_owner
owner_for_purpose generic = domain_owner
owner_for_purpose lowcore = domain_owner
owner_for_purpose heap = domain_owner
owner_for_purpose frame_table = domain_owner
owner_for_purpose file_cache = domain_owner
owner_for_purpose reserved_swap = domain_owner

unfoldable pub is_page_table : Purpose → Bool
is_page_table page_table = true
is_page_table generic = false
is_page_table lowcore = false
is_page_table stack = false
is_page_table device_dma = false
is_page_table heap = false
is_page_table slab = false
is_page_table frame_table = false
is_page_table file_cache = false
is_page_table reserved_swap = false

-- `page_init::zeroed` is true.
pub record AllocationRequest : Type 0 where
  pub order : ℕ
  pub mem_zone : ℕ
  pub purpose : Purpose
  pub zeroed : Bool
  pub placement : AllocationPolicy

pub record AllocationResult : Type 0 where
  pub phys_base : ℕ
  pub order : ℕ
  pub purpose : Purpose
  pub mem_zone : ℕ
  pub placement : PlacementResult

-- The allocator as the running CPU sees it: `lists` are its own, by node, zone and order;
-- `is_reclaiming` is whether `g_reclaim_active` is 1.
pub record CpuState : Type 0 where
  pub pmm : Pmm
  pub lists : ℕ → ℕ → ℕ → PcpList
  pub is_reclaiming : Bool

-- What sched::context says of the caller.
pub record Context : Type 0 where
  pub in_mcck : Bool
  pub in_hardirq : Bool
  pub can_sleep : Bool
  pub cpu_id : ℕ

known_or_boot : Result ℕ → ℕ
known_or_boot (err e) = numa_node_boot
known_or_boot (ok node) = normalize_node_id node

unfoldable pub local_node_id : ℕ → Topology → ℕ → ℕ
unfolding known_or_boot
local_node_id max_cpus t cpu_id = known_or_boot (node_for_cpu max_cpus t cpu_id)

unfoldable pub cpu_zone : ℕ → ℕ → ℕ → CpuState → CpuZone
cpu_zone node zone order s = record {
  zone = zone_state node zone s.pmm;
  pages = s.lists node zone order;
}

unfoldable pub with_cpu_zone : ℕ → ℕ → ℕ → CpuZone → CpuState → CpuState
with_cpu_zone node zone order c s = record s {
  pmm = with_zone node zone c.zone s.pmm;
  lists =
      update s.lists node (update (s.lists node) zone (update (s.lists node zone) order c.pages));
}

-- The frame table, as any zone sees it.
abbrev pub table_of : Pmm → ZoneState
table_of p = zone_state numa_node_boot 0 p

unfoldable pub set_desc : ℕ → FrameDesc → Pmm → Pmm
set_desc phys d p = record p { frames = (describe phys d (table_of p)).frames }

unfoldable pub quarantine_failed_allocation : ℕ → ℕ → ℕ → Pmm → Pmm
unfolding set_desc
quarantine_failed_allocation phys order node_id p =
    if not p.has_table || leb p.max_pfn (phys / page_size)
    then p
    else record (set_desc phys
        (set_frame order reserved_owner (normalize_node_id node_id) ff_suspect) p) {
          retired_pages = wrapping_add p.retired_pages (2 ^ order);
        }

-- The block is filled with zeros, the words that link free blocks among them.
unfoldable pub zero_fill : Bool → ℕ → ℕ → Pmm → Pmm
zero_fill false phys order p = p
zero_fill true phys order p =
    let inside = λ (q : ℕ). leb phys q && ltb q (phys + size_of order) in
    record p {
      next_phys = λ q. if inside q then 0 else p.next_phys q;
      prev_phys = λ q. if inside q then 0 else p.prev_phys q;
    }

unfoldable pub result_of : AllocationRequest → NodeAllocation → AllocationResult
result_of request a = record {
  phys_base = a.phys;
  order = request.order;
  purpose = request.purpose;
  mem_zone = request.mem_zone;
  placement = record {
    selected_node = a.node_id;
    fallback_distance = a.fallback_distance;
    remote = a.remote;
    strict_violation = false;
  };
}

unfoldable pub finish_valid :
    AllocationRequest → NodeAllocation → Pmm → Result (Unit {0}) → Pmm × Result AllocationResult
finish_valid request a p (err e) =
    (quarantine_failed_allocation a.phys request.order a.node_id p, err e)
finish_valid request a p (ok _) =
    (zero_fill request.zeroed a.phys request.order p, ok (result_of request a))

-- `mapped` is hhdm::phys_range_is_mapped.
module _ (topology : Topology) (mapped : ℕ → ℕ → Bool) where
  -- A block that was found gets the descriptor of its purpose, and is checked where it is for page
  -- tables.
  unfoldable pub finish_alloc :
      AllocationRequest → NodeAllocation → Pmm → Pmm × Result AllocationResult
  finish_alloc request a p =
      let d = set_frame request.order (owner_for_purpose request.purpose) a.node_id 0 in
      let owned = set_desc a.phys d p in
      finish_valid request a owned (
        if is_page_table request.purpose
        then validate_page_table_allocation mapped (node_is_allocatable topology) a.phys
            request.order request.mem_zone a.node_id (table_of owned)
        else ok tt)
