-- ===== src/Memory/Pmm/Cached.antt =====
-- pmm::free and pcp_pop on the list of a CPU.
use zxfoundation.Base.{
  ℕ, ◌+◌, ◌*◌, ◌/◌, ◌%◌, ◌^◌, ◌<◌, ◌≤◌, ◌≡◌, refl, sym, ap, subst, true, false, done, arith, ltb,
  leb, ◌==◌, ==_ne,
}
use zxfoundation.Base.Arrays.{update, update_self}
use zxfoundation.Memory.Pmm.{page_size, buddy_owner, set_frame}
use zxfoundation.Memory.Pmm.Lists.{IsBlock}
use zxfoundation.Memory.Pmm.Zone.{IsFree, describe-inside, set_frame-IsFree}
use zxfoundation.Memory.Pmm.Takes.{free-is_allocatable_frame}
use zxfoundation.Memory.Pmm.Cpulists.{
  CpuZone, pcp_high, pcp_max_order, pop_page, pcp_pop, pcp_push, free,
}

-- Outside an interrupt, a small block is freed to the CPU's list where that is not full: its
-- descriptor is then that of a free block without any flag, whatever its flags were, and the next
-- pcp_pop gives this block and leaves the list's head and count as they were.
free-pcp_pop :
    (phys order zone node : ℕ) (s : CpuZone)
    → s.zone.has_table ≡ true
    → s.zone.max_pfn * page_size < 2 ^ 64
    → IsBlock s.zone.max_pfn order phys
    → order ≤ pcp_max_order
    → s.pages.count < pcp_high
    → (t : CpuZone) × ((free false phys order zone node s ≡ done t)
        × (((t.zone.frames (phys / page_size)).flags ≡ 0)
            × ((u : CpuZone) × ((pcp_pop t ≡ done (u, phys))
                  × ((u.pages.head_phys ≡ s.pages.head_phys) × (u.pages.count ≡ s.pages.count))))))
unfolding free pcp_push pcp_pop pop_page set_frame
free-pcp_pop phys order zone node s table limit b small room =
    let d = set_frame order buddy_owner node 0 in
    let zoned = record s.zone { frames = update s.zone.frames (phys / page_size) d } in
    let pushed = pcp_push phys (record s { zone = zoned }) in
    let plain = describe-inside s.zone order phys d table b in
    let same = update_self s.zone.frames (phys / page_size) d in
    let good =
      free-is_allocatable_frame node order phys pushed.zone table limit b
        (subst (IsFree node order) (sym same) (set_frame-IsFree order node 0 b.in_order)) in
    let small_order : leb order pcp_max_order ≡ true = ground (arith, small) in
    let below : ltb pcp_high ((s.pages.count + 1) % 2 ^ 32) ≡ false = ground (arith, room) in
    let some_block : (phys == 0) ≡ false = ==_ne phys 0 b.non_zero in
    (
      pushed,
      (
        rw (some_block, plain, small_order, below) refl,
        (
          ap (λ f. f.flags) same,
          (
            (pop_page pushed).0,
            (
              rw (some_block, good) refl,
              (update_self s.zone.next_phys phys s.pages.head_phys, omega (arith, room)),
            ),
          ),
        ),
      ),
    )
