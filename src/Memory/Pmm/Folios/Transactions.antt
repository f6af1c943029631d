-- ===== src/Memory/Pmm/Folios/Transactions.antt =====
-- `transaction` of pmm.zcomponent, on zxfoundation/base/transaction.cxxm, and the wrapper of alloc that
-- gives a folio.
use zxfoundation.Base.{
  ℕ, ◌+◌, ◌^◌, Bool, true, not, ◌||◌, List, [], ◌∷◌, ◌++◌, Result, ok, err, from_memory,
  out_of_memory, zone_exhausted, Outcome, done, fault, if◌then◌else◌, leb, ◌==◌, bit_and, ◌>>=◌,
}
use zxfoundation.Base.Arrays.{update}
use zxfoundation.Base.Sums.{length}
use zxfoundation.Memory.Numa.{numa_node_any, AllocationPolicy, local_first, Topology}
use zxfoundation.Memory.Pmm.{
  wrapping_add, reserved_owner, ff_suspect, ff_offline, set_frame, desc_of,
}
use zxfoundation.Memory.Pmm.Freeing.{free_locked}
use zxfoundation.Memory.Pmm.Nodes.{
  Pmm, NodeAllocation, normalize_node_id, zone_state, with_zone, alloc_node_aware,
}
use zxfoundation.Memory.Pmm.Folios.{
  Purpose, AllocationRequest, AllocationResult, CpuState, Context, local_node_id, table_of,
  finish_alloc,
}
use zxfoundation.Memory.Pmm.Folios.Allocating.{is_forbidden, alloc}

pub record Folio : Type 0 where
  pub phys_base : ℕ
  pub order : ℕ
  pub purpose : Purpose
  pub mem_zone : ℕ

unfoldable pub into_folio : AllocationResult → Folio
into_folio r = record {
  phys_base = r.phys_base;
  order = r.order;
  purpose = r.purpose;
  mem_zone = r.mem_zone;
}

folio_of : Result AllocationResult → Result Folio
unfolding into_folio
folio_of (err e) = err e
folio_of (ok r) = ok (into_folio r)

-- Memory of any node, of the zone asked for.
abbrev pub near_policy : ℕ → ℕ → AllocationPolicy
near_policy node zone = record {
  preferred_node = node;
  fallback = local_first;
  require_dma31 = zone == 0;
  allow_remote = true;
}

abbrev pub near_request : ℕ → ℕ → ℕ → Purpose → Bool → AllocationRequest
near_request node order zone purpose zeroed = record {
  order = order;
  mem_zone = zone;
  purpose = purpose;
  zeroed = zeroed;
  placement = near_policy node zone;
}

pub record FolioSlot : Type 0 where
  pub phys : ℕ
  pub order : ℕ
  pub z : ℕ
  pub purpose : Purpose
  pub node_id : ℕ

-- `slots` are the first `m_count` entries of `m_slots`.
pub record Transaction : Type 0 where
  pub slots : List FolioSlot
  pub is_committed : Bool
  pub is_rolled_back : Bool

abbrev pub txn_max : ℕ
txn_max = 16

unfoldable pub commit : Transaction → Transaction
commit x = record x { is_committed = true }

unfoldable pub rolled_at : FolioSlot → Result ℕ → Pmm → Pmm
rolled_at slot (err e) p = p
rolled_at slot (ok pfn) p =
    let node = normalize_node_id slot.node_id in
    if not (bit_and (p.frames pfn).flags ff_offline == 0)
    then record p {
      frames =
          update p.frames pfn (set_frame slot.order reserved_owner node (ff_offline + ff_suspect));
      retired_pages = wrapping_add p.retired_pages (2 ^ slot.order);
    }
    else with_zone node slot.z
        (free_locked slot.phys slot.order slot.z node (zone_state node slot.z p)) p

-- What becomes of one slot: an offline frame is retired, any other block is freed.
unfoldable pub roll_back_slot : FolioSlot → Pmm → Pmm
unfolding rolled_at
roll_back_slot slot p = rolled_at slot (desc_of (table_of p) slot.phys) p

unfoldable pub on_rollback : List FolioSlot → Pmm → Pmm
on_rollback [] p = p
on_rollback (slot ∷ slots) p = on_rollback slots (roll_back_slot slot p)

-- `~transaction()`
unfoldable pub destroy : Transaction → Pmm → Transaction × Pmm
destroy x p =
    if x.is_committed || x.is_rolled_back
    then (x, p)
    else (record x { is_rolled_back = true }, on_rollback x.slots p)

unfoldable pub folio_slot : AllocationResult → FolioSlot
folio_slot r = record {
  phys = r.phys_base;
  order = r.order;
  z = r.mem_zone;
  purpose = r.purpose;
  node_id = r.placement.selected_node;
}

-- The slot is recorded once the block is there and has passed its check.
unfoldable pub recorded :
    Transaction → Pmm × Result AllocationResult → Transaction × Pmm × Result Folio
unfolding folio_slot into_folio
recorded x (p, err e) = (x, p, err e)
recorded x (p, ok r) = (record x { slots = x.slots ++ (folio_slot r ∷ []) }, p, ok (into_folio r))

module _ (topology : Topology) (mapped : ℕ → ℕ → Bool) (max_cpus : ℕ) where
  unfoldable pub finish_slot :
      Transaction → AllocationRequest → Pmm × NodeAllocation → Transaction × Pmm × Result Folio
  unfolding recorded
  finish_slot x request (p, a) =
      if a.phys == 0
      then (x, p, err (from_memory zone_exhausted))
      else recorded x (finish_alloc topology mapped request a p)

  -- `transaction::alloc`
  unfoldable pub transaction_alloc :
      Context
      → ℕ
      → ℕ
      → Purpose
      → Bool
      → Transaction
      → Pmm
      → Outcome (Transaction × Pmm × Result Folio)
  unfolding finish_slot
  transaction_alloc context order zone purpose zeroed x p =
      let local_node = local_node_id max_cpus topology context.cpu_id in
      let request = near_request local_node order zone purpose zeroed in
      if x.is_committed || leb txn_max (length x.slots)
      then done (x, p, err (from_memory out_of_memory))
      else if is_forbidden context order
      then fault
      else do
        found ← alloc_node_aware topology zone order request.placement local_node p
        done (finish_slot x request found)

  -- `alloc(order, z, p, init)`
  unfoldable pub alloc_folio :
      (ℕ → ℕ → CpuState → Outcome CpuState)
      → Context
      → ℕ
      → ℕ
      → Purpose
      → Bool
      → CpuState
      → Outcome (CpuState × Result Folio)
  unfolding folio_of
  alloc_folio reclaim_node context order zone purpose zeroed s = do
    (t, r) ←
        alloc topology mapped max_cpus reclaim_node context
          (near_request numa_node_any order zone purpose zeroed) s
    done (t, folio_of r)
