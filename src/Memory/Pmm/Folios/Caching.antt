-- ===== src/Memory/Pmm/Folios/Caching.antt =====
-- alloc_cached: what the list of the running CPU gives is a frame of the table.
use zxfoundation.Base.{
  ℕ, zero, suc, ◌≡◌, inl, inr, refl, sym, ◌∙◌, subst, done, arith, ◌==◌, Bool-cases, Outcome-cases,
}
use zxfoundation.Memory.Pmm.{buddy_owner, set_frame, describe, alloc_locked, is_allocatable_frame}
use zxfoundation.Memory.Pmm.Cpulists.{
  CpuZone, pop_page, pcp_pop, pcp_push, refill_round, refill_rounds,
}
use zxfoundation.Memory.Pmm.Folios.Checked.{
  IsFrame, IsFound, Keeps, Keeps-trans, describe-Keeps, alloc_locked-law, allocatable-IsFrame,
}

pcp_push-Keeps : (phys : ℕ) (c : CpuZone) → Keeps c.zone (pcp_push phys c).zone
unfolding pcp_push
pcp_push-Keeps phys c = record { same_table = refl; same_limit = refl }

pub refill_rounds-law :
    (ord node tries : ℕ) (c d : CpuZone)
    → refill_rounds ord node tries c ≡ done d
    → Keeps c.zone d.zone
unfolding refill_rounds refill_round
refill_rounds-law ord node zero c d e = record {
  same_table = ground arith;
  same_limit = ground arith;
}
refill_rounds-law ord node (suc tries) c d e = elim (Outcome-cases (alloc_locked ord node c.zone)) [
  | inl z ↦ absurd (ground arith)
  | inr (r, z) ↦
      let k = (alloc_locked-law node ord r.1 c.zone r.0 z).1 in
      elim (Bool-cases (r.1 == 0)) [
        | inl none ↦
            let f : refill_rounds ord node (suc tries) c ≡ done (record c { zone = r.0 }) =
              rw (z, none) refl in
            let g : done (record c { zone = r.0 }) ≡ done d = sym f ∙ e in
            record { same_table = ground (arith, k); same_limit = ground (arith, k) }
        | inr some ↦
            let described = describe r.1 (set_frame ord buddy_owner node 0) r.0 in
            let pushed = pcp_push r.1 (record c { zone = described }) in
            let f : refill_rounds ord node (suc tries) c ≡ refill_rounds ord node tries pushed =
              rw (z, some) refl in
            let before =
              Keeps-trans c.zone described pushed.zone
                (Keeps-trans c.zone r.0 described k
                  (describe-Keeps r.1 (set_frame ord buddy_owner node 0) r.0))
                (pcp_push-Keeps r.1 (record c { zone = described })) in
            Keeps-trans c.zone pushed.zone d.zone before
              (refill_rounds-law ord node tries pushed d (sym f ∙ e))
      ]
]

pub pcp_pop-law :
    (phys : ℕ) (c d : CpuZone)
    → pcp_pop c ≡ done (d, phys)
    → IsFound c.zone phys × Keeps c.zone d.zone
unfolding pcp_pop pop_page
pcp_pop-law phys c d e = elim (Bool-cases (c.pages.head_phys == 0)) [
  | inl none ↦ (inl (ground arith), record { same_table = ground arith; same_limit = ground arith })
  | inr some ↦ elim (Bool-cases (is_allocatable_frame c.zone c.pages.head_phys)) [
    | inr bad ↦ absurd (ground arith)
    | inl good ↦
        let f = allocatable-IsFrame c.zone c.pages.head_phys good in
        (
          inr (subst (IsFrame c.zone.has_table c.zone.max_pfn) (ground arith) f),
          record { same_table = ground arith; same_limit = ground arith },
        )
  ]
]
