-- ===== src/Memory/Pmm/Folios/Undoing.antt =====
-- A transaction that allocates and is destroyed before it is committed.
use zxfoundation.Base.{
  ℕ, ◌≤◌, ◌<◌, ◌≡◌, Bool, true, false, List, [], Result, ok, err, KernelError, from_memory,
  zone_exhausted, Outcome, done, fault,
}
use zxfoundation.Memory.Numa.{max_numa_nodes, Topology}
use zxfoundation.Memory.Pmm.{ZoneState, max_order}
use zxfoundation.Memory.Pmm.Chain.{IsIn}
use zxfoundation.Memory.Pmm.Zone.{IsZone, IsExactBut}
use zxfoundation.Memory.Pmm.Buddies.{IsAligned}
use zxfoundation.Memory.Pmm.RoundTrip.{IsRestored}
use zxfoundation.Memory.Pmm.Nodes.{Pmm, zone_state}
use zxfoundation.Memory.Pmm.Folios.{
  Purpose, is_page_table, AllocationRequest, Context, local_node_id,
}
use zxfoundation.Memory.Pmm.Folios.Transactions.{Folio, Transaction, near_request, destroy}

-- A zone in order, of blocks aligned to their sizes, where every frame described as free is on its
-- list.
pub record IsOrderly (node : ℕ) (s : ZoneState) (before : ℕ → List ℕ) : Type 0 where
  pub zone : IsZone node s before
  pub aligned : (k q : ℕ) → IsIn q (before k) → IsAligned k q
  pub exact : IsExactBut (λ q. ⊥) node s before

-- The zones of all nodes are in order.
abbrev pub AreOrderly : ℕ → Pmm → (ℕ → ℕ → List ℕ) → Type 0
AreOrderly zone p before =
    (node : ℕ) → node < max_numa_nodes → IsOrderly node (zone_state node zone p) (before node)

answer_of : ZoneState × ℕ → Outcome (ZoneState × ℕ) → ZoneState × ℕ
answer_of r fault = r
answer_of r (done x) = x

-- What an allocation in a fresh transaction, and then its end without a commit, come to.
pub data IsUndone (zone : ℕ) (purpose : Purpose) (before : ℕ → ℕ → List ℕ) (x x' : Transaction)
    (p p' : Pmm) (r : Result Folio) : Type 0 where
  no_block :
      r ≡ err (from_memory zone_exhausted)
      → x' ≡ x
      → p' ≡ p
      → IsUndone zone purpose before x x' p p' r
  refused :
      (e : KernelError)
      → r ≡ err e
      → is_page_table purpose ≡ true
      → x' ≡ x
      → IsUndone zone purpose before x x' p p' r
  given_back :
      (folio : Folio) (node : ℕ)
      → r ≡ ok folio
      → node < max_numa_nodes
      → IsRestored node (before node) (zone_state node zone (destroy x' p').1)
      → IsUndone zone purpose before x x' p p' r

module _ (topology : Topology) (mapped : ℕ → ℕ → Bool) (max_cpus : ℕ) (context : Context)
    (order zone : ℕ) (purpose : Purpose) (x : Transaction) (p : Pmm) (before : ℕ → ℕ → List ℕ)
    (pending : x.is_committed ≡ false) (alive : x.is_rolled_back ≡ false) (fresh : x.slots ≡ [])
    (small : order ≤ max_order) (orderly : AreOrderly zone p before) where
  abbrev the_request : AllocationRequest
  the_request =
      near_request (local_node_id max_cpus topology context.cpu_id) order zone purpose false
