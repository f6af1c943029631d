-- ===== src/Memory/Pmm/Alloc.antt =====
-- alloc_locked of pmm.zcomponent/core.cxx in a zone in order.
use zxfoundation.Base.{
  ℕ, zero, suc, ◌+◌, ◌-◌, ◌≤◌, ◌<◌, ◌≡◌, ◌⊎◌, inl, inr, refl, sym, ap, ◌∙◌, true, List, [], ◌∷◌,
  arith, ◌==◌, ==_ne, ℕ_discrete, done,
}
use zxfoundation.Memory.Pmm.{ZoneState, max_order, alloc_from, alloc_locked}
use zxfoundation.Memory.Pmm.Chain.{IsChain}
use zxfoundation.Memory.Pmm.Zone.{IsExactBut, IsZone}
use zxfoundation.Memory.Pmm.Takes.{IsTaken, IsTakenExact, take_block-IsTaken}

-- `heads` 0 means no block of that order.
head_zero-empty :
    (next prev : ℕ → ℕ) (before head : ℕ) (xs : List ℕ)
    → IsChain next prev before head xs
    → head ≡ 0
    → xs ≡ []
unfolding IsChain
head_zero-empty next prev before head [] c h = refl
head_zero-empty next prev before head (x ∷ xs) (at, non_zero, back, rest) h =
    absurd (non_zero (sym at ∙ h))

-- No block of the order or a higher one is free, and nothing changes.
abbrev pub IsExhausted : ℕ → (ℕ → List ℕ) → ZoneState → ZoneState → ℕ → Type 0
IsExhausted order before s t phys =
    (phys ≡ 0) × (t ≡ s) × ((o : ℕ) → order ≤ o → o ≤ max_order → before o ≡ [])

-- There is no block, or one is taken.
abbrev pub IsAllocated : ℕ → ℕ → (ℕ → List ℕ) → ZoneState → ZoneState → ℕ → Type 0
IsAllocated node order before s t phys =
    IsExhausted order before s t phys ⊎ IsTaken node order before t phys

alloc_from-IsTakenExact :
    (E : ℕ → Type 0) (node order tries ord : ℕ) (s : ZoneState) (before : ℕ → List ℕ)
    → IsZone node s before
    → order ≤ ord
    → ord + tries ≡ suc max_order
    → ((o : ℕ) → order ≤ o → o < ord → before o ≡ [])
    → IsExactBut E node s before
    → (t : ZoneState) × ((phys : ℕ) × ((alloc_from node order tries ord s ≡ done (t, phys))
          × (IsExhausted order before s t phys ⊎ IsTakenExact E node order before t phys)))
unfolding alloc_from
alloc_from-IsTakenExact E node order zero ord s before w enough all none_yet exact =
    (s, (0, (refl, inl (refl, refl, λ o low high. none_yet o low (omega (arith, all, high))))))
alloc_from-IsTakenExact E node order (suc tries) ord s before w enough all none_yet exact =
    elim (ℕ_discrete (s.heads ord) 0) [
      | yes e ↦
          let h : (s.heads ord == 0) ≡ true = ground arith in
          let empty =
            head_zero-empty s.next_phys s.prev_phys 0 (s.heads ord) (before ord)
              (w.stocked.listed.chains ord) e in
          rw h (
            alloc_from-IsTakenExact E node order tries (suc ord) s before w (omega (arith, enough))
              (omega (arith, all))
              (λ o low below. elim (ℕ_discrete o ord) [
                | yes f ↦ ap before f ∙ empty
                | no ne ↦ none_yet o low (omega (arith, below, ne))
              ])
              exact)
      | no ne ↦
          let taken = take_block-IsTaken E node order ord s before w enough ne exact in
          rw (==_ne (s.heads ord) 0 ne) (taken.0, (s.heads ord, (taken.1.0, inr taken.1.1)))
    ]

-- The same for alloc_locked, with the frames told apart by their descriptors.
pub alloc_locked-IsTakenExact :
    (E : ℕ → Type 0) (order node : ℕ) (s : ZoneState) (before : ℕ → List ℕ)
    → IsZone node s before
    → order ≤ max_order
    → IsExactBut E node s before
    → (t : ZoneState) × ((phys : ℕ) × ((alloc_locked order node s ≡ done (t, phys))
          × (IsExhausted order before s t phys ⊎ IsTakenExact E node order before t phys)))
unfolding alloc_locked
alloc_locked-IsTakenExact E order node s before w h exact =
    alloc_from-IsTakenExact E node order (suc max_order - order) order s before w (omega arith)
      (omega (arith, h)) (λ o low below. absurd (omega (arith, low, below))) exact

-- In a zone in order, alloc_locked does not stop the kernel. Either no block of the order or a higher
-- one is free, and the answer is 0 with nothing changed; or the answer is where a free block of at
-- least the order starts, the zone is in order again, the block given lies apart from every block
-- still free, and the pages still free are those that were, less the block's.
pub alloc_locked-IsAllocated :
    (order node : ℕ) (s : ZoneState) (before : ℕ → List ℕ)
    → IsZone node s before
    → order ≤ max_order
    → (t : ZoneState) × ((phys : ℕ) × ((alloc_locked order node s ≡ done (t, phys))
          × IsAllocated node order before s t phys))
alloc_locked-IsAllocated order node s before w h =
    let found =
      alloc_locked-IsTakenExact (λ q. Unit) order node s before w h
        (λ k q page in_table free. inr tt) in
    (
      found.0,
      (
        found.1.0,
        (found.1.1.0, elim found.1.1.1 [ inl none ↦ inl none | inr (taken, exact) ↦ inr taken ]),
      ),
    )
