-- ===== src/Memory/Pmm/Undisturbed.antt =====
-- alloc_node_aware where an attempt that fails changes nothing.
use zxfoundation.Base.{
  ℕ, ◌^◌, ◌<◌, ◌≡◌, ◌≢◌, ◌⊎◌, inl, inr, refl, ap, ◌∙◌, Bool, true, false, not, Outcome, done, arith,
  ltb, ◌==◌, Bool-cases,
}
use zxfoundation.Memory.Numa.{max_numa_nodes, AllocationPolicy, Topology, node_id_is_valid}
use zxfoundation.Memory.Pmm.{ZoneState, alloc_locked}
use zxfoundation.Memory.Pmm.Nodes.{
  Pmm, NodeAllocation, no_allocation, normalize_node_id, node_is_allocatable, zone_state, with_zone,
  allocated, try_alloc_node, or_else, placed_at, alloc_node_aware,
}
use zxfoundation.Memory.Pmm.Attempts.{alloc_node_aware_every}

-- In every node's zone alloc_locked ends, and changes nothing where it gives no block.
abbrev pub IsReady : (zone order : ℕ) → Pmm → Type 0
IsReady zone order p =
    (node : ℕ)
    → node < max_numa_nodes
    → (s : ZoneState) × (phys : ℕ) × (alloc_locked order node (zone_state node zone p)
        ≡ done (s, phys))
      × (phys ≡ 0 → with_zone node zone s p ≡ p)

-- A block was taken from a zone of the state `p`.
pub record IsTakenAt (zone order : ℕ) (p q : Pmm) (phys node : ℕ) : Type 0 where
  pub below : node < max_numa_nodes
  pub non_zero : phys ≢ 0
  pub left : ZoneState
  pub given : alloc_locked order node (zone_state node zone p) ≡ done (left, phys)
  pub after : with_zone node zone left p ≡ q

abbrev pub IsOutcome : (zone order : ℕ) → Pmm → Pmm → NodeAllocation → Type 0
IsOutcome zone order p q a = ((a.phys ≡ 0) × (q ≡ p)) ⊎ IsTakenAt zone order p q a.phys a.node_id

-- The search ends, and has changed nothing or taken a block of the state that it met.
abbrev IsSettled : (zone order : ℕ) → Pmm → Outcome (Pmm × NodeAllocation) → Type 0
IsSettled zone order p o =
    IsReady zone order p
    → (q : Pmm) × (a : NodeAllocation) × (o ≡ done (q, a)) × IsOutcome zone order p q a

normalize-below : (n : ℕ) → normalize_node_id n < max_numa_nodes
unfolding normalize_node_id node_id_is_valid
normalize-below n = ground arith

module _ (t : Topology) (zone order : ℕ) where
  try_alloc_node-IsSettled :
      (node : ℕ) (p : Pmm) → IsSettled zone order p (try_alloc_node t zone order node p)
  unfolding try_alloc_node allocated
  try_alloc_node-IsSettled node p ready =
      let n = normalize_node_id node in
      elim (Bool-cases (not (node_is_allocatable t n))) [
        | inl h ↦ (p, no_allocation, rw h refl, inl (refl, refl))
        | inr h ↦ elim (Bool-cases (ltb (p.node_zones n zone).free_pages (2 ^ order))) [
          | inl g ↦ (p, no_allocation, rw (h, g) refl, inl (refl, refl))
          | inr g ↦
              let (s, phys, e, same) = ready n (normalize-below node) in
              elim (Bool-cases (phys == 0)) [
                | inl none ↦ (
                  with_zone n zone s p,
                  no_allocation,
                  rw (h, g, e, none) refl,
                  inl (refl, same (ground (arith, none))),
                )
                | inr some ↦ (
                  with_zone n zone s p,
                  record { phys = phys; node_id = n; fallback_distance = 0; remote = false },
                  rw (h, g, e, some) refl,
                  inr (record {
                    below = normalize-below node;
                    non_zero = ground (arith, some);
                    left = s;
                    given = e;
                    after = refl;
                  }),
                )
              ]
        ]
      ]

  or_else-IsSettled :
      (o : Outcome (Pmm × NodeAllocation)) (distance : ℕ) (is_remote : Bool)
      (later : Pmm → Outcome (Pmm × NodeAllocation)) (p : Pmm)
      → IsSettled zone order p o
      → ((r : Pmm) → IsSettled zone order r (later r))
      → IsSettled zone order p (or_else t zone o distance is_remote later)
  unfolding or_else placed_at
  or_else-IsSettled o distance is_remote later p first rest ready =
      let (r, b, e, found) = first ready in
      elim found [
        | inl (none, same) ↦
            let (q, a, f, out) = rest p ready in
            let test : (b.phys == 0) ≡ true = ground (arith, none) in
            (q, a, rw (e, test) (ap later same ∙ f), out)
        | inr taken ↦
            let test : (b.phys == 0) ≡ false = ground (arith, taken.non_zero) in
            (
              r,
              record b { fallback_distance = distance; remote = is_remote },
              rw (e, test) refl,
              inr taken,
            )
      ]

  -- In such a state the search ends, and has changed nothing or taken a block of the state.
  pub alloc_node_aware-IsOutcome :
      (policy : AllocationPolicy) (local_node : ℕ) (p : Pmm)
      → IsReady zone order p
      → (q : Pmm) × (a : NodeAllocation) × (alloc_node_aware t zone order policy local_node p
          ≡ done (q, a))
        × IsOutcome zone order p q a
  alloc_node_aware-IsOutcome policy local_node p =
      alloc_node_aware_every t zone order (IsSettled zone order)
        (λ p ready. (p, no_allocation, refl, inl (refl, refl))) try_alloc_node-IsSettled
        or_else-IsSettled policy local_node p
