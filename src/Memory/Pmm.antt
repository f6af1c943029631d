-- ===== src/Memory/Pmm.antt =====
-- The buddy allocator of one node and one zone: zxfoundation/memory/pmm.zcomponent/core.cxx with
-- types.cxxm. Freeing is in Freeing, the nodes in Nodes, the per-CPU lists in Cpulists. A frame is
-- the physical address of its first byte; the links of a free block, which the source keeps in the
-- block's own first bytes, are functions of that address.
pub mod Freeing
pub mod Chain
pub mod Without
pub mod Lists
pub mod Removal
pub mod Zone
pub mod Splitting
pub mod Takes
pub mod Alloc
pub mod Buddies
pub mod Merging
pub mod Taking
pub mod Free
pub mod RoundTrip
pub mod Unlisted
pub mod Nodes
pub mod Attempts
pub mod Sources
pub mod Undisturbed
pub mod Placing
pub mod Cpulists
pub mod Cached
pub mod Frames
pub mod Pins
pub mod Checks
pub mod Reservations
pub mod Folios
use zxfoundation.Base.{
  ℕ, zero, suc, ◌+◌, ◌-◌, ◌*◌, ◌/◌, ◌%◌, ◌^◌, min, Bool, true, false, not, ◌&&◌, ◌||◌, Option, none,
  some, Result, ok, err, from_memory, out_of_memory, invalid_address, Outcome, done, fault,
  if◌then◌else◌, ltb, leb, ◌==◌, bit_and, bit_or, ◌>>=◌,
}
use zxfoundation.Base.Arrays.{update}
use zxfoundation.Scoms.Metadata.{invalid_id}

abbrev pub page_size : ℕ
page_size = 4096

abbrev pub max_order : ℕ
max_order = 10

abbrev pub zone_dma_limit : ℕ
zone_dma_limit = 0x80000000

-- `frame_owner` and `frame_flags`, by the enumerators' values.
abbrev pub none_owner : ℕ
none_owner = 0

abbrev pub reserved_owner : ℕ
reserved_owner = 1

abbrev pub buddy_owner : ℕ
buddy_owner = 2

abbrev pub page_table_owner : ℕ
page_table_owner = 5

abbrev pub ff_suspect : ℕ
ff_suspect = 1

abbrev pub ff_offline : ℕ
ff_offline = 2

abbrev pub ff_zeroed : ℕ
ff_zeroed = 4

abbrev pub ff_shared : ℕ
ff_shared = 8

-- `a - b` and `a + b` on u64.
abbrev pub wrapping_sub : ℕ → ℕ → ℕ
wrapping_sub a b = (a + (2 ^ 64 - b % 2 ^ 64)) % 2 ^ 64

abbrev pub wrapping_add : ℕ → ℕ → ℕ
wrapping_add a b = (a + b) % 2 ^ 64

pub record FrameDesc : Type 0 where
  pub order_owner : ℕ
  pub flags : ℕ
  pub numa_node : ℕ
  pub refcount : ℕ
  pub object_id : ℕ
  pub object_generation : ℕ

unfoldable pub order_of : FrameDesc → ℕ
order_of d = d.order_owner / 16

unfoldable pub owner_of : FrameDesc → ℕ
owner_of d = d.order_owner % 16

-- `frame_desc::set`
unfoldable pub set_frame : (order owner node flag_bits : ℕ) → FrameDesc
set_frame order owner node flag_bits = record {
  order_owner = bit_or (order * 16 % 2 ^ 8) owner;
  flags = flag_bits;
  numa_node = node;
  refcount = 0;
  object_id = invalid_id;
  object_generation = 0;
}

-- What the lock of one zone of one node protects, with the frame table: the lists of free blocks,
-- headed by order, and the links in the blocks.
pub record ZoneState : Type 0 where
  pub next_phys : ℕ → ℕ
  pub prev_phys : ℕ → ℕ
  pub heads : ℕ → ℕ
  pub counts : ℕ → ℕ
  pub free_pages : ℕ
  pub frames : ℕ → FrameDesc
  pub has_table : Bool
  pub max_pfn : ℕ

abbrev pub size_of : ℕ → ℕ
size_of order = page_size * 2 ^ order

unfoldable pub push : ℕ → ℕ → ZoneState → ZoneState
push ord phys s = record s {
  next_phys = update s.next_phys phys (s.heads ord);
  prev_phys =
      let fresh = update s.prev_phys phys 0 in
      if s.heads ord == 0 then fresh else update fresh (s.heads ord) phys;
  heads = update s.heads ord phys;
  counts = update s.counts ord (wrapping_add (s.counts ord) 1);
}

-- `pop` of a list that is not empty, and the block it gives: 0 where the list is empty.
unfoldable pub pop_state : ℕ → ZoneState → ZoneState
pop_state ord s =
    let next = s.next_phys (s.heads ord) in
    record s {
      heads = update s.heads ord next;
      prev_phys = if next == 0 then s.prev_phys else update s.prev_phys next 0;
      counts = update s.counts ord (wrapping_sub (s.counts ord) 1);
    }

unfoldable pub pop : ℕ → ZoneState → ZoneState × ℕ
pop ord s = if s.heads ord == 0 then (s, 0) else (pop_state ord s, s.heads ord)

unfoldable pub remove : ℕ → ℕ → ZoneState → ZoneState
remove ord phys s =
    let next = s.next_phys phys in
    let prev = s.prev_phys phys in
    record s {
      next_phys = if prev == 0 then s.next_phys else update s.next_phys prev next;
      heads = if prev == 0 then update s.heads ord next else s.heads;
      prev_phys = if next == 0 then s.prev_phys else update s.prev_phys next prev;
      counts = update s.counts ord (wrapping_sub (s.counts ord) 1);
    }

-- `zone::dma31` is 0 and `zone::normal` is 1.
unfoldable pub zone_of : ℕ → ℕ
zone_of phys = if ltb phys zone_dma_limit then 0 else 1

-- The index of the frame's descriptor.
unfoldable pub desc_of : ZoneState → ℕ → Result ℕ
desc_of s phys =
    if not s.has_table
    then err (from_memory out_of_memory)
    else if leb s.max_pfn (phys / page_size)
    then err (from_memory invalid_address)
    else ok (phys / page_size)

-- `if (auto fde = desc_of(phys)) (*fde)->set(...)`, and the same for another change.
unfoldable pub set_at : Result ℕ → FrameDesc → ZoneState → ZoneState
set_at (err e) d s = s
set_at (ok pfn) d s = record s { frames = update s.frames pfn d }

unfoldable pub describe : ℕ → FrameDesc → ZoneState → ZoneState
unfolding set_at
describe phys d s = set_at (desc_of s phys) d s

unfoldable pub owned_by : ZoneState → ℕ → Result ℕ → Bool
owned_by s owner (err e) = false
owned_by s owner (ok pfn) = owner_of (s.frames pfn) == owner

-- `assert_allocatable_frame` returns.
unfoldable pub is_allocatable_frame : ZoneState → ℕ → Bool
unfolding owned_by
is_allocatable_frame s phys =
    not (phys == 0)
    && (phys % page_size == 0)
    && ltb phys (s.max_pfn * page_size % 2 ^ 64)
    && owned_by s buddy_owner (desc_of s phys)

-- One half goes back to the list of the order below.
unfoldable pub split_once : ℕ → ℕ → ℕ → ZoneState → ZoneState
split_once node phys half s =
    let buddy_phys = wrapping_add phys (size_of half) in
    describe buddy_phys (set_frame half buddy_owner node 0) (push half buddy_phys s)

-- The block of order `order + levels` is split down to `order`.
unfoldable pub split : ℕ → ℕ → ℕ → ℕ → ZoneState → ZoneState
split node phys order zero s = s
split node phys order (suc levels) s =
    split node phys order levels (split_once node phys (order + levels) s)

unfoldable pub take_block : ℕ → ℕ → ℕ → ZoneState → Outcome (ZoneState × ℕ)
take_block node order ord s =
    let popped = pop_state ord s in
    let phys = s.heads ord in
    if is_allocatable_frame popped phys
    then (let divided = split node phys order (ord - order) popped in
        done (record divided { free_pages = wrapping_sub divided.free_pages (2 ^ order) }, phys))
    else fault

-- The orders `ord`, `ord + 1`, ... are tried, `tries` of them.
unfoldable pub alloc_from : ℕ → ℕ → ℕ → ℕ → ZoneState → Outcome (ZoneState × ℕ)
alloc_from node order zero ord s = done (s, 0)
alloc_from node order (suc tries) ord s =
    let later = alloc_from node order tries (suc ord) s in
    if s.heads ord == 0 then later else take_block node order ord s

unfoldable pub alloc_locked : ℕ → ℕ → ZoneState → Outcome (ZoneState × ℕ)
alloc_locked order node s = alloc_from node order (suc max_order - order) order s
