-- ===== src/Memory/Pmm/Placing.antt =====
-- alloc_node_aware: which node a block comes from.
use zxfoundation.Base.{
  ℕ, zero, suc, ◌+◌, ◌-◌, ◌%◌, ◌^◌, ◌≤◌, ◌<◌, ◌≡◌, ◌⊎◌, inl, inr, refl, sym, ap, ◌∙◌, subst, Bool,
  true, false, not, ◌||◌, Outcome, done, fault, arith, if◌then◌else◌, ltb, ◌==◌, ==_ne, ==_refl,
  Bool-cases, ℕ_discrete, Outcome-cases,
}
use zxfoundation.Memory.Numa.{
  max_numa_nodes, numa_node_any, FallbackMode, local_first, strict_local, interleave, emergency_any,
  AllocationPolicy, Topology, node_id_is_valid,
}
use zxfoundation.Memory.Pmm.{ZoneState, alloc_locked}
use zxfoundation.Memory.Pmm.Sources.{IsTakenFrom, alloc_node_aware-IsTakenFrom}
use zxfoundation.Memory.Pmm.Nodes.{
  normalize_node_id, node_is_allocatable, Pmm, zone_state, NodeAllocation, no_allocation, allocated,
  try_alloc_node, or_else, placed_at, alloc_anywhere, alloc_emergency, alloc_nearby, is_strict,
  preferred_of, alloc_node_aware,
}

-- The block comes from a node that may serve memory, and its placement is told truly.
pub record IsPlaced (t : Topology) (preferred : ℕ) (a : NodeAllocation) : Type 0 where
  pub below : a.node_id < max_numa_nodes
  pub serves : node_is_allocatable t a.node_id ≡ true
  pub remote_told : a.remote ≡ not (a.node_id == preferred)
  pub distance_told :
      a.fallback_distance ≡ (a.node_id + max_numa_nodes - preferred) % max_numa_nodes

-- There is no block, or it is placed so.
abbrev pub IsAnswer : Topology → ℕ → NodeAllocation → Type 0
IsAnswer t preferred a = (a.phys ≡ 0) ⊎ IsPlaced t preferred a

answer_of : Outcome (Pmm × NodeAllocation) → NodeAllocation
answer_of fault = no_allocation
answer_of (done (q, a)) = a

normalize-below : (n : ℕ) → normalize_node_id n < max_numa_nodes
unfolding normalize_node_id node_id_is_valid
normalize-below n = ground arith

preferred-below :
    (policy : AllocationPolicy) (local_node : ℕ) → preferred_of policy local_node < max_numa_nodes
unfolding preferred_of
preferred-below policy local_node =
    normalize-below
      (if policy.preferred_node == numa_node_any then local_node else policy.preferred_node)

normalize-same : (n : ℕ) → n < max_numa_nodes → normalize_node_id n ≡ n
unfolding normalize_node_id node_id_is_valid
normalize-same n h = ground arith

module _ (t : Topology) (zone : ℕ) where
  allocated-law :
      (node : ℕ) (p q : Pmm) (o : Outcome (ZoneState × ℕ)) (a : NodeAllocation)
      → allocated node zone p o ≡ done (q, a)
      → (a.phys ≡ 0) ⊎ (a.node_id ≡ node)
  unfolding allocated
  allocated-law node p q fault a e = absurd (ground arith)
  allocated-law node p q (done (s, phys)) a e = elim (ℕ_discrete phys 0) [
    | yes z ↦ inl (ground arith)
    | no z ↦ inr (ground arith)
  ]

  -- An attempt at a node gives a block of that node or none.
  try_alloc_node-law :
      (order node : ℕ) (p q : Pmm) (a : NodeAllocation)
      → try_alloc_node t zone order node p ≡ done (q, a)
      → (a.phys ≡ 0)
        ⊎ ((a.node_id ≡ normalize_node_id node)
            × (node_is_allocatable t (normalize_node_id node) ≡ true))
  unfolding try_alloc_node
  try_alloc_node-law order node p q a e =
      let n = normalize_node_id node in
      elim (Bool-cases (node_is_allocatable t n)) [
        | inr h ↦ inl (ground arith)
        | inl h ↦ elim (Bool-cases (ltb (p.node_zones n zone).free_pages (2 ^ order))) [
          | inl g ↦ inl (ground arith)
          | inr g ↦
              let run = allocated n zone p (alloc_locked order n (zone_state n zone p)) in
              let f : try_alloc_node t zone order node p ≡ run = rw (h, g) refl in
              elim (allocated-law n p q (alloc_locked order n (zone_state n zone p)) a
                (sym f ∙ e)) [ inl z ↦ inl z | inr z ↦ inr (z, h) ]
        ]
      ]

  -- Where every later answer is good, so is the answer of an attempt and what follows.
  or_else-law :
      (P : NodeAllocation → Type 0) (preferred node distance : ℕ) (is_remote : Bool) (order : ℕ)
      (later : Pmm → Outcome (Pmm × NodeAllocation)) (p q : Pmm) (a : NodeAllocation)
      → node < max_numa_nodes
      → is_remote ≡ not (node == preferred)
      → distance ≡ (node + max_numa_nodes - preferred) % max_numa_nodes
      → ((b : NodeAllocation) → IsPlaced t preferred b → b.node_id ≡ node → P b)
      → ((r : Pmm) → later r ≡ done (q, a) → (a.phys ≡ 0) ⊎ P a)
      → or_else t zone (try_alloc_node t zone order node p) distance is_remote later ≡ done (q, a)
      → (a.phys ≡ 0) ⊎ P a
  unfolding or_else placed_at answer_of
  or_else-law P preferred node distance is_remote order later p q a below told far intro rest e =
      elim (Outcome-cases (try_alloc_node t zone order node p)) [
        | inl z ↦ absurd (ground arith)
        | inr (r, z) ↦ elim (ℕ_discrete r.1.phys 0) [
          | yes none ↦
              let f : or_else t zone (try_alloc_node t zone order node p) distance is_remote later
                  ≡ later r.0 =
                rw (z, none) refl in
              rest r.0 (sym f ∙ e)
          | no block ↦
              let result = placed_at t zone distance is_remote (r.0, r.1) in
              let f : or_else t zone (try_alloc_node t zone order node p) distance is_remote later
                  ≡ done result =
                rw (z, ==_ne r.1.phys 0 block) refl in
              let g : done result ≡ done (q, a) = sym f ∙ e in
              let same : result.1 ≡ a = ap answer_of g in
              elim (try_alloc_node-law order node p r.0 r.1 z) [
                | inl none ↦ absurd (block none)
                | inr (at, serves) ↦
                    let here : r.1.node_id ≡ node = at ∙ normalize-same node below in
                    let placed : IsPlaced t preferred result.1 = record {
                      below = omega (arith, here, below);
                      serves = subst (λ k. node_is_allocatable t k ≡ true) (sym at) serves;
                      remote_told = told ∙ ap (λ k. not (k == preferred)) (sym here);
                      distance_told = omega (arith, far, here);
                    } in
                    inr (subst P same (intro result.1 placed here))
              ]
        ]
      ]

  none-answer :
      (P : NodeAllocation → Type 0) (p q : Pmm) (a : NodeAllocation)
      → ◌≡◌ {A = Outcome (Pmm × NodeAllocation)} (done (p, no_allocation)) (done (q, a))
      → (a.phys ≡ 0) ⊎ P a
  unfolding answer_of
  none-answer P p q a e = inl (ap (λ o. (answer_of o).phys) (sym e))

  alloc_anywhere-law :
      (order preferred tries candidate : ℕ) (p q : Pmm) (a : NodeAllocation)
      → candidate + tries ≤ max_numa_nodes
      → alloc_anywhere t zone order preferred tries candidate p ≡ done (q, a)
      → IsAnswer t preferred a
  unfolding alloc_anywhere
  alloc_anywhere-law order preferred zero candidate p q a h e =
      none-answer (IsPlaced t preferred) p q a e
  alloc_anywhere-law order preferred (suc tries) candidate p q a h e =
      or_else-law (IsPlaced t preferred) preferred candidate
        ((candidate + max_numa_nodes - preferred) % max_numa_nodes) (not (candidate == preferred))
        order (λ r. alloc_anywhere t zone order preferred tries (suc candidate) r) p q a
        (omega (arith, h)) refl refl (λ b placed at. placed)
        (λ r f. alloc_anywhere-law order preferred tries (suc candidate) r q a (omega (arith, h)) f)
        e

  alloc_emergency-law :
      (mode : FallbackMode) (order preferred : ℕ) (p q : Pmm) (a : NodeAllocation)
      → alloc_emergency t zone mode order preferred p ≡ done (q, a)
      → IsAnswer t preferred a
  unfolding alloc_emergency
  alloc_emergency-law emergency_any order preferred p q a e =
      alloc_anywhere-law order preferred max_numa_nodes 0 p q a (omega arith) e
  alloc_emergency-law local_first order preferred p q a e =
      none-answer (IsPlaced t preferred) p q a e
  alloc_emergency-law strict_local order preferred p q a e =
      none-answer (IsPlaced t preferred) p q a e
  alloc_emergency-law interleave order preferred p q a e =
      none-answer (IsPlaced t preferred) p q a e

  alloc_nearby-law :
      (mode : FallbackMode) (order preferred tries distance : ℕ) (p q : Pmm) (a : NodeAllocation)
      → preferred < max_numa_nodes
      → distance + tries ≤ max_numa_nodes
      → alloc_nearby t zone mode order preferred tries distance p ≡ done (q, a)
      → IsAnswer t preferred a
  unfolding alloc_nearby
  alloc_nearby-law mode order preferred zero distance p q a b h e =
      alloc_emergency-law mode order preferred p q a e
  alloc_nearby-law mode order preferred (suc tries) distance p q a b h e =
      let candidate = (preferred + distance) % max_numa_nodes in
      or_else-law (IsPlaced t preferred) preferred candidate distance (not (candidate == preferred))
        order (λ r. alloc_nearby t zone mode order preferred tries (suc distance) r) p q a
        (omega arith) refl (omega (arith, b, h)) (λ c placed at. placed)
        (λ r f.
          alloc_nearby-law mode order preferred tries (suc distance) r q a b (omega (arith, h)) f)
        e

  alloc_node_aware-law :
      (order : ℕ) (policy : AllocationPolicy) (local_node : ℕ) (p q : Pmm) (a : NodeAllocation)
      → alloc_node_aware t zone order policy local_node p ≡ done (q, a)
      → (a.phys ≡ 0)
        ⊎ (IsPlaced t (preferred_of policy local_node) a
            × (((is_strict policy.fallback || not policy.allow_remote) ≡ false)
                ⊎ (a.node_id ≡ preferred_of policy local_node)))
  unfolding alloc_node_aware
  alloc_node_aware-law order policy local_node p q a e =
      let preferred = preferred_of policy local_node in
      let strict = is_strict policy.fallback || not policy.allow_remote in
      or_else-law (λ b. IsPlaced t preferred b × ((strict ≡ false) ⊎ (b.node_id ≡ preferred)))
        preferred preferred 0 false order
        (λ r.
          if strict
          then done (r, no_allocation)
          else alloc_nearby t zone policy.fallback order preferred (max_numa_nodes - 1) 1 r)
        p q a (preferred-below policy local_node) (ap not (sym (==_refl preferred)))
        (omega (arith, preferred-below policy local_node)) (λ b placed at. (placed, inr at))
        (λ r f. elim (Bool-cases strict) [
          | inl s ↦
              none-answer
                (λ b. IsPlaced t preferred b × ((strict ≡ false) ⊎ (b.node_id ≡ preferred))) r q a
                (subst
                  (λ c.
                    (if c
                      then done (r, no_allocation)
                      else alloc_nearby t zone policy.fallback order preferred (max_numa_nodes - 1)
                          1 r)
                    ≡ done (q, a))
                  s f)
          | inr s ↦
              elim (alloc_nearby-law policy.fallback order preferred (max_numa_nodes - 1) 1 r q a
                (preferred-below policy local_node) (omega arith)
                (subst
                  (λ c.
                    (if c
                      then done (r, no_allocation)
                      else alloc_nearby t zone policy.fallback order preferred (max_numa_nodes - 1)
                          1 r)
                    ≡ done (q, a))
                  s f)) [ inl none ↦ inl none | inr placed ↦ inr (placed, inl s) ]
        ])
        e

  -- The block that alloc_node_aware gives, where it gives one, was taken by alloc_locked, for the
  -- order asked for, from the zone of the node that it names, which is in the table and may serve
  -- memory; whether it is remote, and at what distance, is told as it is; and where the policy is
  -- strict or allows no remote memory, the node is the preferred one.
  pub alloc_node_aware-IsPlaced :
      (order : ℕ) (policy : AllocationPolicy) (local_node : ℕ) (p q : Pmm) (a : NodeAllocation)
      → alloc_node_aware t zone order policy local_node p ≡ done (q, a)
      → (a.phys ≡ 0)
        ⊎ (IsPlaced t (preferred_of policy local_node) a
            × IsTakenFrom zone order q a.phys a.node_id
            × (((is_strict policy.fallback || not policy.allow_remote) ≡ false)
                ⊎ (a.node_id ≡ preferred_of policy local_node)))
  alloc_node_aware-IsPlaced order policy local_node p q a e =
      elim (alloc_node_aware-law order policy local_node p q a e) [
        | inl none ↦ inl none
        | inr (placed, strict) ↦
            elim (alloc_node_aware-IsTakenFrom t zone order policy local_node p q a e) [
              | inl none ↦ inl none
              | inr source ↦ inr (placed, source, strict)
            ]
      ]
