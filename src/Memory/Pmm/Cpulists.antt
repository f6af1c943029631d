-- ===== src/Memory/Pmm/Cpulists.antt =====
-- The per-CPU lists of pmm.zcomponent/core.cxx, on the zone they are filled from. A page on such a
-- list is linked by the word that also links a free block, its first one.
use zxfoundation.Base.{
  ℕ, zero, suc, ◌+◌, ◌-◌, ◌/◌, ◌%◌, ◌^◌, Bool, not, ◌&&◌, Outcome, done, fault, if◌then◌else◌, ltb,
  leb, ◌==◌,
}
use zxfoundation.Base.Arrays.{update}
use zxfoundation.Memory.Pmm.{
  ZoneState, buddy_owner, alloc_locked, is_allocatable_frame, describe, set_frame,
}
use zxfoundation.Memory.Pmm.Freeing.{free_locked}

abbrev pub pcp_batch : ℕ
pcp_batch = 16

abbrev pub pcp_high : ℕ
pcp_high = 128

pub record PcpList : Type 0 where
  pub head_phys : ℕ
  pub count : ℕ

pub record CpuZone : Type 0 where
  pub zone : ZoneState
  pub pages : PcpList

unfoldable pub pop_page : CpuZone → CpuZone × ℕ
pop_page s =
    let phys = s.pages.head_phys in
    (
      record s {
        pages = record {
          head_phys = s.zone.next_phys phys;
          count = (s.pages.count + (2 ^ 32 - 1)) % 2 ^ 32;
        };
      },
      phys,
    )

unfoldable pub pcp_pop : CpuZone → Outcome (CpuZone × ℕ)
unfolding pop_page
pcp_pop s =
    let phys = s.pages.head_phys in
    if phys == 0
    then done (s, 0)
    else if is_allocatable_frame s.zone phys
    then done (pop_page s)
    else fault

unfoldable pub pcp_push : ℕ → CpuZone → CpuZone
pcp_push phys s =
    let linked = update s.zone.next_phys phys s.pages.head_phys in
    record {
      zone = record s.zone { next_phys = linked };
      pages = record { head_phys = phys; count = (s.pages.count + 1) % 2 ^ 32 };
    }

-- One round of pcp_refill, after which `later` goes on where there was a block.
unfoldable pub refill_round :
    ℕ → ℕ → CpuZone → Outcome (ZoneState × ℕ) → (CpuZone → Outcome CpuZone) → Outcome CpuZone
refill_round ord node s fault later = fault
refill_round ord node s (done (z, phys)) later =
    let described = describe phys (set_frame ord buddy_owner node 0) z in
    let rest = later (pcp_push phys (record s { zone = described })) in
    if phys == 0 then done (record s { zone = z }) else rest

unfoldable pub refill_rounds : ℕ → ℕ → ℕ → CpuZone → Outcome CpuZone
refill_rounds ord node zero s = done s
refill_rounds ord node (suc tries) s =
    refill_round ord node s (alloc_locked ord node s.zone) (λ t. refill_rounds ord node tries t)

unfoldable pub pcp_refill : ℕ → ℕ → CpuZone → Outcome CpuZone
unfolding refill_round refill_rounds
pcp_refill ord node s = refill_rounds ord node pcp_batch s

drain_round : ℕ → ℕ → ℕ → Outcome (CpuZone × ℕ) → (CpuZone → Outcome CpuZone) → Outcome CpuZone
drain_round ord zone node fault later = fault
drain_round ord zone node (done (s, phys)) later =
    let rest = later (record s { zone = free_locked phys ord zone node s.zone }) in
    if phys == 0 then done s else rest

-- A round takes a page off the list, so the pages counted are rounds enough.
unfoldable pub drain_rounds : ℕ → ℕ → ℕ → ℕ → CpuZone → Outcome CpuZone
unfolding drain_round
drain_rounds ord zone node zero s = done s
drain_rounds ord zone node (suc fuel) s =
    let round = drain_round ord zone node (pcp_pop s) (λ t. drain_rounds ord zone node fuel t) in
    if ltb (pcp_high / 2) s.pages.count then round else done s

unfoldable pub pcp_drain : ℕ → ℕ → ℕ → CpuZone → Outcome CpuZone
pcp_drain ord zone node s = drain_rounds ord zone node s.pages.count s

abbrev pub pcp_max_order : ℕ
pcp_max_order = 3

-- pmm::free of the block at `phys`, none where that is 0, with the list of the running CPU for its
-- node, zone and order. `node` is frame_node_id of the block.
unfoldable pub free : Bool → ℕ → ℕ → ℕ → ℕ → CpuZone → Outcome CpuZone
free in_interrupt phys order zone node s =
    let described = describe phys (set_frame order buddy_owner node 0) s.zone in
    let pushed = pcp_push phys (record s { zone = described }) in
    if phys == 0
    then done s
    else if leb order pcp_max_order && not in_interrupt
    then (if ltb pcp_high pushed.pages.count then pcp_drain order zone node pushed else done pushed)
    else done (record s { zone = free_locked phys order zone node described })
