-- ===== src/Sched/Cpupri/Index.antt =====
-- The masks agree with the cached top priorities, and what the search then finds.
use zxfoundation.Base.{
  ℕ, ◌<◌, ◌≡◌, refl, ap, ◌∙◌, arith, Bool, true, false, not, ◌&&◌, ◌==◌, leb, if◌then◌else◌,
  ℕ_discrete,
}
use zxfoundation.Base.Arrays.{update}
use zxfoundation.Sched.Cpupri.{CpupriIndex, cpupri_nr_priorities, has_mask, mark, pri_set, pri_top}

-- A CPU stands in the mask of its top priority and in no other; without one, in the free mask.
pub record IsIndexed (x : CpupriIndex) (cpu : ℕ) : Type 0 where
  pub masks : (p : ℕ) → p < cpupri_nr_priorities → x.pri_mask p cpu ≡ (x.cpu_top_pri cpu == p)
  pub free : x.free_mask cpu ≡ not (has_mask (x.cpu_top_pri cpu))

mark-pri_mask :
    (x : CpupriIndex) (cpu pri : ℕ) (b : Bool) (p c : ℕ)
    → (mark x cpu pri b).pri_mask p c
      ≡ (if has_mask pri && (pri == p) && (cpu == c) then b else x.pri_mask p c)
unfolding mark
mark-pri_mask x cpu pri b p c = ground arith

mark-free_mask :
    (x : CpupriIndex) (cpu pri : ℕ) (b : Bool) (c : ℕ)
    → (mark x cpu pri b).free_mask c
      ≡ (if not (has_mask pri) && (cpu == c) then b else x.free_mask c)
unfolding mark
mark-free_mask x cpu pri b c = ground arith

mark-cpu_top_pri :
    (x : CpupriIndex) (cpu pri : ℕ) (b : Bool) → (mark x cpu pri b).cpu_top_pri ≡ x.cpu_top_pri
unfolding mark
mark-cpu_top_pri x cpu pri b = ground arith

-- What `pri_set` does for a CPU that exists, with the cached priority as the old one.
abbrev moved : CpupriIndex → (cpu new_pri : ℕ) → CpupriIndex
moved x cpu new_pri =
    let marked = mark (mark x cpu (x.cpu_top_pri cpu) false) cpu new_pri true in
    record marked { cpu_top_pri = update marked.cpu_top_pri cpu new_pri }

pub pri_set-moved :
    (max_cpus : ℕ) (x : CpupriIndex) (cpu new_pri : ℕ)
    → cpu < max_cpus
    → pri_set max_cpus x cpu (pri_top max_cpus x cpu) new_pri ≡ moved x cpu new_pri
unfolding pri_set pri_top
pri_set-moved max_cpus x cpu new_pri below =
    let known : leb max_cpus cpu ≡ false = ground arith in rw known refl

moved-pri_mask :
    (x : CpupriIndex) (cpu new_pri p c : ℕ)
    → (moved x cpu new_pri).pri_mask p c ≡ (
        if has_mask new_pri && (new_pri == p) && (cpu == c)
        then true
        else if has_mask (x.cpu_top_pri cpu) && (x.cpu_top_pri cpu == p) && (cpu == c)
        then false
        else x.pri_mask p c)
moved-pri_mask x cpu new_pri p c =
    mark-pri_mask (mark x cpu (x.cpu_top_pri cpu) false) cpu new_pri true p c
    ∙ ap (λ b. if has_mask new_pri && (new_pri == p) && (cpu == c) then true else b)
        (mark-pri_mask x cpu (x.cpu_top_pri cpu) false p c)

moved-free_mask :
    (x : CpupriIndex) (cpu new_pri c : ℕ)
    → (moved x cpu new_pri).free_mask c ≡ (
        if not (has_mask new_pri) && (cpu == c)
        then true
        else if not (has_mask (x.cpu_top_pri cpu)) && (cpu == c)
        then false
        else x.free_mask c)
moved-free_mask x cpu new_pri c =
    mark-free_mask (mark x cpu (x.cpu_top_pri cpu) false) cpu new_pri true c
    ∙ ap (λ b. if not (has_mask new_pri) && (cpu == c) then true else b)
        (mark-free_mask x cpu (x.cpu_top_pri cpu) false c)

moved-cpu_top_pri :
    (x : CpupriIndex) (cpu new_pri c : ℕ)
    → (moved x cpu new_pri).cpu_top_pri c ≡ (if cpu == c then new_pri else x.cpu_top_pri c)
moved-cpu_top_pri x cpu new_pri c =
    ap (λ f. update f cpu new_pri c)
      (mark-cpu_top_pri (mark x cpu (x.cpu_top_pri cpu) false) cpu new_pri true
        ∙ mark-cpu_top_pri x cpu (x.cpu_top_pri cpu) false)

moved-IsIndexed :
    (x : CpupriIndex) (cpu new_pri c : ℕ)
    → IsIndexed x cpu
    → IsIndexed x c
    → IsIndexed (moved x cpu new_pri) c
moved-IsIndexed x cpu new_pri c i o = record {
  masks = λ p low.
      let here = i.masks p low in
      let there = o.masks p low in
      rw (moved-pri_mask x cpu new_pri p c, moved-cpu_top_pri x cpu new_pri c)
        (elim (ℕ_discrete cpu c) [ yes e ↦ ground arith | no ne ↦ ground arith ]);
  free =
      let here = i.free in
      let there = o.free in
      rw (moved-free_mask x cpu new_pri c, moved-cpu_top_pri x cpu new_pri c)
        (elim (ℕ_discrete cpu c) [ yes e ↦ ground arith | no ne ↦ ground arith ]);
}

-- Where the index agrees with a CPU's top priority, `pri_set` with that priority as the old one gives
-- the CPU the new one, and the index agrees with it and with every CPU that it agreed with before.
pub pri_set-IsIndexed :
    (max_cpus : ℕ) (x : CpupriIndex) (cpu new_pri : ℕ)
    → cpu < max_cpus
    → IsIndexed x cpu
    → let x' = pri_set max_cpus x cpu (pri_top max_cpus x cpu) new_pri in
      IsIndexed x' cpu
      × (pri_top max_cpus x' cpu ≡ new_pri)
      × ((other : ℕ) → IsIndexed x other → IsIndexed x' other)
unfolding pri_top
pri_set-IsIndexed max_cpus x cpu new_pri below i =
    let known : leb max_cpus cpu ≡ false = ground arith in
    let top = moved-cpu_top_pri x cpu new_pri cpu in
    rw (pri_set-moved max_cpus x cpu new_pri below) (
      moved-IsIndexed x cpu new_pri cpu i i,
      ground arith,
      λ other o. moved-IsIndexed x cpu new_pri other i o,
    )
