-- ===== src/Memory/Pmm/Sources.antt =====
-- Where the block of an attempt comes from.
use zxfoundation.Base.{
  ℕ, ◌^◌, ◌≡◌, ◌⊎◌, inl, inr, refl, ap, subst, Bool, false, not, Outcome, done, fault, arith, ltb,
  ◌==◌, Bool-cases, Outcome-cases,
}
use zxfoundation.Memory.Numa.{AllocationPolicy, Topology}
use zxfoundation.Memory.Pmm.{ZoneState, alloc_locked}
use zxfoundation.Memory.Pmm.Nodes.{
  Pmm, NodeAllocation, no_allocation, normalize_node_id, node_is_allocatable, zone_state, with_zone,
  allocated, try_alloc_node, or_else, placed_at, alloc_node_aware,
}
use zxfoundation.Memory.Pmm.Attempts.{alloc_node_aware_every}

-- The block was taken by alloc_locked, for the order, out of the zone of the node that it is said to
-- be of; `before` is the state that this attempt met.
pub record IsTakenFrom (zone order : ℕ) (q : Pmm) (phys node : ℕ) : Type 0 where
  pub before : Pmm
  pub left : ZoneState
  pub given : alloc_locked order node (zone_state node zone before) ≡ done (left, phys)
  pub after : with_zone node zone left before ≡ q

-- Every search that ends finds nothing, or a block so taken.
abbrev IsSourced : ℕ → ℕ → Outcome (Pmm × NodeAllocation) → Type 0
IsSourced zone order o =
    (q : Pmm) (a : NodeAllocation)
    → o ≡ done (q, a)
    → (a.phys ≡ 0) ⊎ IsTakenFrom zone order q a.phys a.node_id

result_pmm : Pmm → Outcome (Pmm × NodeAllocation) → Pmm × NodeAllocation
result_pmm p fault = (p, no_allocation)
result_pmm p (done r) = r

done-IsSourced :
    (zone order : ℕ) (q : Pmm) (a : NodeAllocation)
    → (a.phys ≡ 0) ⊎ IsTakenFrom zone order q a.phys a.node_id
    → IsSourced zone order (done (q, a))
unfolding result_pmm
done-IsSourced zone order q a h r b e =
    subst (λ x. (x.1.phys ≡ 0) ⊎ IsTakenFrom zone order x.0 x.1.phys x.1.node_id)
      (ap (result_pmm q) e) h

module _ (t : Topology) (zone order : ℕ) where
  allocated-IsSourced :
      (node : ℕ) (p : Pmm)
      → IsSourced zone order
          (allocated node zone p (alloc_locked order node (zone_state node zone p)))
  unfolding allocated
  allocated-IsSourced node p =
      elim (Outcome-cases (alloc_locked order node (zone_state node zone p))) [
        | inl z ↦ rw z (λ q a e. absurd (ground arith))
        | inr (r, z) ↦ elim (Bool-cases (r.1 == 0)) [
          | inl none ↦
              rw (z, none)
                (done-IsSourced zone order (with_zone node zone r.0 p) no_allocation (inl refl))
          | inr some ↦
              rw (z, some)
                (done-IsSourced zone order (with_zone node zone r.0 p)
                  (record { phys = r.1; node_id = node; fallback_distance = 0; remote = false })
                  (inr (record { before = p; left = r.0; given = z; after = refl })))
        ]
      ]

  try_alloc_node-IsSourced :
      (node : ℕ) (p : Pmm) → IsSourced zone order (try_alloc_node t zone order node p)
  unfolding try_alloc_node
  try_alloc_node-IsSourced node p =
      let n = normalize_node_id node in
      let none = done-IsSourced zone order p no_allocation (inl refl) in
      elim (Bool-cases (not (node_is_allocatable t n))) [
        | inl h ↦ rw h none
        | inr h ↦ elim (Bool-cases (ltb (p.node_zones n zone).free_pages (2 ^ order))) [
          | inl g ↦ rw (h, g) none
          | inr g ↦ rw (h, g) (allocated-IsSourced n p)
        ]
      ]

  or_else-IsSourced :
      (o : Outcome (Pmm × NodeAllocation)) (distance : ℕ) (is_remote : Bool)
      (later : Pmm → Outcome (Pmm × NodeAllocation)) (p : Pmm)
      → IsSourced zone order o
      → ((r : Pmm) → IsSourced zone order (later r))
      → IsSourced zone order (or_else t zone o distance is_remote later)
  unfolding or_else placed_at
  or_else-IsSourced fault distance is_remote later p first rest = λ q a e. absurd (ground arith)
  or_else-IsSourced (done (r, b)) distance is_remote later p first rest =
      elim (Bool-cases (b.phys == 0)) [
        | inl none ↦ rw none (rest r)
        | inr some ↦ rw some (
            done-IsSourced zone order r
              (record b { fallback_distance = distance; remote = is_remote }) (first r b refl))
      ]

  -- What alloc_node_aware gives was taken from the zone of the node that it names.
  pub alloc_node_aware-IsTakenFrom :
      (policy : AllocationPolicy) (local_node : ℕ) (p q : Pmm) (a : NodeAllocation)
      → alloc_node_aware t zone order policy local_node p ≡ done (q, a)
      → (a.phys ≡ 0) ⊎ IsTakenFrom zone order q a.phys a.node_id
  alloc_node_aware-IsTakenFrom policy local_node p =
      alloc_node_aware_every t zone order (λ p. IsSourced zone order)
        (λ p. done-IsSourced zone order p no_allocation (inl refl)) try_alloc_node-IsSourced
        or_else-IsSourced policy local_node p
