-- ===== src/Memory/Pmm/Folios/Checked.antt =====
-- What a zone gives: a frame of the table, since it is checked.
use zxfoundation.Base.{
  ℕ, zero, suc, ◌+◌, ◌-◌, ◌*◌, ◌%◌, ◌<◌, ◌≡◌, ◌≢◌, ◌⊎◌, inl, inr, refl, sym, ◌∙◌, subst, Bool, true,
  Result, done, ok, err, arith, ◌==◌, Bool-cases,
}
use zxfoundation.Memory.Pmm.{
  ZoneState, FrameDesc, page_size, desc_of, is_allocatable_frame, owned_by, pop_state, describe,
  set_at, split_once, split, take_block, alloc_from, alloc_locked, push, set_frame, buddy_owner,
  wrapping_add, size_of, max_order,
}

-- A frame of the table that is given out.
pub record IsFrame (has_table : Bool) (max_pfn phys : ℕ) : Type 0 where
  pub table : has_table ≡ true
  pub non_zero : phys ≢ 0
  pub aligned : phys % page_size ≡ 0
  pub below : phys < max_pfn * page_size

-- There is no block, or its first frame is one of the table.
abbrev pub IsFound : ZoneState → ℕ → Type 0
IsFound s phys = (phys ≡ 0) ⊎ IsFrame s.has_table s.max_pfn phys

-- The table stays what it is.
pub record Keeps (s t : ZoneState) : Type 0 where
  pub same_table : t.has_table ≡ s.has_table
  pub same_limit : t.max_pfn ≡ s.max_pfn

pub allocatable-IsFrame :
    (s : ZoneState) (phys : ℕ)
    → is_allocatable_frame s phys ≡ true
    → IsFrame s.has_table s.max_pfn phys
unfolding is_allocatable_frame owned_by desc_of
allocatable-IsFrame s phys e = ground (arith, e)

pub Keeps-trans : (s t u : ZoneState) → Keeps s t → Keeps t u → Keeps s u
Keeps-trans s t u a b = record {
  same_table = b.same_table ∙ a.same_table;
  same_limit = b.same_limit ∙ a.same_limit;
}

set_at-Keeps : (r : Result ℕ) (d : FrameDesc) (s : ZoneState) → Keeps s (set_at r d s)
unfolding set_at
set_at-Keeps (err e) d s = record { same_table = refl; same_limit = refl }
set_at-Keeps (ok pfn) d s = record { same_table = refl; same_limit = refl }

pub describe-Keeps : (phys : ℕ) (d : FrameDesc) (s : ZoneState) → Keeps s (describe phys d s)
unfolding describe
describe-Keeps phys d s = set_at-Keeps (desc_of s phys) d s

split-Keeps :
    (node phys order levels : ℕ) (s : ZoneState) → Keeps s (split node phys order levels s)
unfolding split split_once push
split-Keeps node phys order zero s = record { same_table = refl; same_limit = refl }
split-Keeps node phys order (suc levels) s =
    let half = order + levels in
    let upper = wrapping_add phys (size_of half) in
    let pushed = push half upper s in
    let d = set_frame half buddy_owner node 0 in
    let k = describe-Keeps upper d pushed in
    Keeps-trans s (describe upper d pushed) (split node phys order (suc levels) s)
      (record { same_table = k.same_table; same_limit = k.same_limit })
      (split-Keeps node phys order levels (describe upper d pushed))

take_block-law :
    (node order ord phys : ℕ) (s t : ZoneState)
    → take_block node order ord s ≡ done (t, phys)
    → IsFound s phys × Keeps s t
unfolding take_block pop_state
take_block-law node order ord phys s t e =
    let popped = pop_state ord s in
    let k = split-Keeps node (s.heads ord) order (ord - order) popped in
    elim (Bool-cases (is_allocatable_frame popped (s.heads ord))) [
      | inr bad ↦ absurd (ground arith)
      | inl good ↦
          let f = allocatable-IsFrame popped (s.heads ord) good in
          (
            inr (subst (IsFrame s.has_table s.max_pfn) (ground arith) f),
            record { same_table = ground (arith, k); same_limit = ground (arith, k) },
          )
    ]

alloc_from-law :
    (node order tries ord phys : ℕ) (s t : ZoneState)
    → alloc_from node order tries ord s ≡ done (t, phys)
    → IsFound s phys × Keeps s t
unfolding alloc_from
alloc_from-law node order zero ord phys s t e =
    (inl (ground arith), record { same_table = ground arith; same_limit = ground arith })
alloc_from-law node order (suc tries) ord phys s t e = elim (Bool-cases (s.heads ord == 0)) [
  | inl none ↦
      let f : alloc_from node order (suc tries) ord s ≡ alloc_from node order tries (suc ord) s =
        rw none refl in
      alloc_from-law node order tries (suc ord) phys s t (sym f ∙ e)
  | inr some ↦
      let f : alloc_from node order (suc tries) ord s ≡ take_block node order ord s =
        rw some refl in
      take_block-law node order ord phys s t (sym f ∙ e)
]

-- What alloc_locked gives is a frame of the table.
pub alloc_locked-law :
    (node order phys : ℕ) (s t : ZoneState)
    → alloc_locked order node s ≡ done (t, phys)
    → IsFound s phys × Keeps s t
unfolding alloc_locked
alloc_locked-law node order phys s t e =
    alloc_from-law node order (suc max_order - order) order phys s t e
