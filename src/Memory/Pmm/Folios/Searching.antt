-- ===== src/Memory/Pmm/Folios/Searching.antt =====
-- The search for a block: what the nodes give is a frame of the table.
use zxfoundation.Base.{
  ℕ, ◌^◌, ◌≡◌, ◌⊎◌, inl, inr, refl, ap, ◌∙◌, subst, Bool, false, not, Outcome, done, fault, arith,
  ltb, ◌==◌, Bool-cases, Outcome-cases,
}
use zxfoundation.Memory.Numa.{AllocationPolicy, Topology}
use zxfoundation.Memory.Pmm.Nodes.{
  Pmm, NodeAllocation, no_allocation, zone_state, with_zone, allocated, try_alloc_node, or_else,
  placed_at, alloc_node_aware, normalize_node_id, node_is_allocatable,
}
use zxfoundation.Memory.Pmm.{alloc_locked}
use zxfoundation.Memory.Pmm.Attempts.{alloc_node_aware_every}
use zxfoundation.Memory.Pmm.Folios.Checked.{IsFrame, alloc_locked-law}

-- The table of the allocator stays, and a block that is found is a frame of it.
pub record IsSearch (p q : Pmm) (phys : ℕ) : Type 0 where
  pub same_table : q.has_table ≡ p.has_table
  pub same_limit : q.max_pfn ≡ p.max_pfn
  pub found : (phys ≡ 0) ⊎ IsFrame p.has_table p.max_pfn phys

pub IsSearch-trans :
    (p q r : Pmm) (phys : ℕ) → IsSearch p q 0 → IsSearch q r phys → IsSearch p r phys
IsSearch-trans p q r phys a b = record {
  same_table = b.same_table ∙ a.same_table;
  same_limit = b.same_limit ∙ a.same_limit;
  found =
      subst (λ t. (phys ≡ 0) ⊎ IsFrame t p.max_pfn phys) a.same_table
        (subst (λ n. (phys ≡ 0) ⊎ IsFrame q.has_table n phys) a.same_limit b.found);
}

pub IsSearch-none : (p : Pmm) → IsSearch p p 0
IsSearch-none p = record { same_table = refl; same_limit = refl; found = inl refl }

result_pmm : Pmm → Outcome (Pmm × NodeAllocation) → Pmm × NodeAllocation
result_pmm p fault = (p, no_allocation)
result_pmm p (done r) = r

-- Every search that ends is such a search.
abbrev pub IsSafe : Pmm → Outcome (Pmm × NodeAllocation) → Type 0
IsSafe p o = (q : Pmm) (a : NodeAllocation) → o ≡ done (q, a) → IsSearch p q a.phys

done-IsSafe : (p q : Pmm) (a : NodeAllocation) → IsSearch p q a.phys → IsSafe p (done (q, a))
unfolding result_pmm
done-IsSafe p q a h r b e = subst (λ x. IsSearch p x.0 x.1.phys) (ap (result_pmm p) e) h

module _ (t : Topology) (zone : ℕ) where
  allocated-IsSafe :
      (node order : ℕ) (p : Pmm)
      → IsSafe p (allocated node zone p (alloc_locked order node (zone_state node zone p)))
  unfolding allocated with_zone zone_state
  allocated-IsSafe node order p =
      let s = zone_state node zone p in
      elim (Outcome-cases (alloc_locked order node s)) [
        | inl z ↦ rw z (λ q a e. absurd (ground arith))
        | inr (r, z) ↦
            let law = alloc_locked-law node order r.1 s r.0 z in
            elim (Bool-cases (r.1 == 0)) [
              | inl none ↦
                  rw (z, none)
                    (done-IsSafe p (with_zone node zone r.0 p) no_allocation
                      (record { same_table = refl; same_limit = refl; found = inl refl }))
              | inr some ↦
                  rw (z, some)
                    (done-IsSafe p (with_zone node zone r.0 p)
                      (record { phys = r.1; node_id = node; fallback_distance = 0; remote = false })
                      (record { same_table = refl; same_limit = refl; found = law.0 }))
            ]
      ]

  try_alloc_node-IsSafe : (order node : ℕ) (p : Pmm) → IsSafe p (try_alloc_node t zone order node p)
  unfolding try_alloc_node
  try_alloc_node-IsSafe order node p =
      let n = normalize_node_id node in
      let none = done-IsSafe p p no_allocation (IsSearch-none p) in
      elim (Bool-cases (not (node_is_allocatable t n))) [
        | inl h ↦ rw h none
        | inr h ↦ elim (Bool-cases (ltb (p.node_zones n zone).free_pages (2 ^ order))) [
          | inl g ↦ rw (h, g) none
          | inr g ↦ rw (h, g) (allocated-IsSafe n order p)
        ]
      ]

  or_else-IsSafe :
      (o : Outcome (Pmm × NodeAllocation)) (distance : ℕ) (is_remote : Bool)
      (later : Pmm → Outcome (Pmm × NodeAllocation)) (p : Pmm)
      → IsSafe p o
      → ((r : Pmm) → IsSafe r (later r))
      → IsSafe p (or_else t zone o distance is_remote later)
  unfolding or_else placed_at
  or_else-IsSafe fault distance is_remote later p first rest = λ q a e. absurd (ground arith)
  or_else-IsSafe (done (r, b)) distance is_remote later p first rest =
      elim (Bool-cases (b.phys == 0)) [
        | inl none ↦
            let z : b.phys ≡ 0 = ground (arith, none) in
            rw none (λ q a e.
              IsSearch-trans p r q a.phys (subst (IsSearch p r) z (first r b refl)) (rest r q a e))
        | inr some ↦ rw some (
            done-IsSafe p r (record b { fallback_distance = distance; remote = is_remote })
              (first r b refl))
      ]

  -- What alloc_node_aware gives is a frame of the table.
  pub alloc_node_aware-IsSafe :
      (order : ℕ) (policy : AllocationPolicy) (local_node : ℕ) (p : Pmm)
      → IsSafe p (alloc_node_aware t zone order policy local_node p)
  alloc_node_aware-IsSafe order =
      alloc_node_aware_every t zone order IsSafe
        (λ p. done-IsSafe p p no_allocation (IsSearch-none p))
        (λ node p. try_alloc_node-IsSafe order node p)
        (λ o distance is_remote later p. or_else-IsSafe o distance is_remote later p)
