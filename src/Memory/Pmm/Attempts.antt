-- ===== src/Memory/Pmm/Attempts.antt =====
-- What holds of every attempt, and of attempts one after the other, holds of alloc_node_aware.
use zxfoundation.Base.{
  ℕ, zero, suc, ◌+◌, ◌-◌, ◌%◌, Bool, false, not, ◌||◌, inl, inr, Outcome, done, if◌then◌else◌, ◌==◌,
  Bool-cases,
}
use zxfoundation.Memory.Numa.{
  max_numa_nodes, FallbackMode, emergency_any, AllocationPolicy, Topology,
}
use zxfoundation.Memory.Pmm.Nodes.{
  Pmm, NodeAllocation, no_allocation, try_alloc_node, or_else, alloc_anywhere, alloc_emergency,
  alloc_nearby, is_strict, preferred_of, alloc_node_aware,
}

module _ (t : Topology) (zone order : ℕ) (W : Pmm → Outcome (Pmm × NodeAllocation) → Type 0)
    (none : (p : Pmm) → W p (done (p, no_allocation)))
    (tried : (node : ℕ) (p : Pmm) → W p (try_alloc_node t zone order node p))
    (attempt : (o : Outcome (Pmm × NodeAllocation)) (distance : ℕ) (is_remote : Bool)
        (later : Pmm → Outcome (Pmm × NodeAllocation)) (p : Pmm)
      → W p o
      → ((r : Pmm) → W r (later r))
      → W p (or_else t zone o distance is_remote later)) where
  alloc_anywhere_every :
      (preferred tries candidate : ℕ) (p : Pmm)
      → W p (alloc_anywhere t zone order preferred tries candidate p)
  unfolding alloc_anywhere
  alloc_anywhere_every preferred zero candidate p = none p
  alloc_anywhere_every preferred (suc tries) candidate p =
      attempt (try_alloc_node t zone order candidate p)
        ((candidate + max_numa_nodes - preferred) % max_numa_nodes) (not (candidate == preferred))
        (λ q. alloc_anywhere t zone order preferred tries (suc candidate) q) p (tried candidate p)
        (λ r. alloc_anywhere_every preferred tries (suc candidate) r)

  alloc_emergency_every :
      (mode : FallbackMode) (preferred : ℕ) (p : Pmm)
      → W p (alloc_emergency t zone mode order preferred p)
  unfolding alloc_emergency
  alloc_emergency_every emergency_any preferred p =
      alloc_anywhere_every preferred max_numa_nodes 0 p
  alloc_emergency_every _ preferred p = none p

  alloc_nearby_every :
      (mode : FallbackMode) (preferred tries distance : ℕ) (p : Pmm)
      → W p (alloc_nearby t zone mode order preferred tries distance p)
  unfolding alloc_nearby
  alloc_nearby_every mode preferred zero distance p = alloc_emergency_every mode preferred p
  alloc_nearby_every mode preferred (suc tries) distance p =
      let candidate = (preferred + distance) % max_numa_nodes in
      attempt (try_alloc_node t zone order candidate p) distance (not (candidate == preferred))
        (λ q. alloc_nearby t zone mode order preferred tries (suc distance) q) p (tried candidate p)
        (λ r. alloc_nearby_every mode preferred tries (suc distance) r)

  pub alloc_node_aware_every :
      (policy : AllocationPolicy) (local_node : ℕ) (p : Pmm)
      → W p (alloc_node_aware t zone order policy local_node p)
  unfolding alloc_node_aware
  alloc_node_aware_every policy local_node p =
      let preferred = preferred_of policy local_node in
      let strict = is_strict policy.fallback || not policy.allow_remote in
      attempt (try_alloc_node t zone order preferred p) 0 false
        (λ q.
          if strict
          then done (q, no_allocation)
          else alloc_nearby t zone policy.fallback order preferred (max_numa_nodes - 1) 1 q)
        p (tried preferred p)
        (λ q. elim (Bool-cases strict) [
          | inl s ↦ rw s (none q)
          | inr s ↦ rw s (alloc_nearby_every policy.fallback preferred (max_numa_nodes - 1) 1 q)
        ])
