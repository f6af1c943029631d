-- ===== src/Memory/Numa/Resolving.antt =====
-- resolve_policy: the node that it gives, and where it gives none.
use zxfoundation.Base.{
  ℕ, zero, suc, ◌+◌, ◌-◌, ◌%◌, ◌≤◌, ◌<◌, ◌≡◌, ◌≢◌, ◌⊎◌, inl, inr, refl, sym, ap, ◌∙◌, subst, Bool,
  true, false, not, Option, none, some, ok, err, from_memory, zone_exhausted, arith, ◌==◌,
  Bool-cases, ℕ_discrete,
}
use zxfoundation.Memory.Numa.{
  max_numa_nodes, NodeTopology, FallbackMode, local_first, strict_local, interleave, emergency_any,
  AllocationPolicy, PlacementResult, Topology, node_id_is_valid,
}
use zxfoundation.Memory.Numa.Policies.{
  has_room, has_page, placement_at, resolve_nearby, resolve_anywhere, resolve_emergency,
  keeps_local, preferred_node_of, exhausted_unless, resolve_policy,
}

-- The node is one of the table, and its placement is told truly.
pub record IsTold (preferred : ℕ) (r : PlacementResult) : Type 0 where
  pub below : r.selected_node < max_numa_nodes
  pub remote_told : r.remote ≡ not (r.selected_node == preferred)
  pub distance_told :
      r.fallback_distance ≡ (r.selected_node + max_numa_nodes - preferred) % max_numa_nodes

-- One of the nodes that are tried qualifies and is given, or none of them does.
abbrev IsTried : (ℕ → Bool) → (ℕ → Type 0) → ℕ → Option PlacementResult → Type 0
IsTried test Tried preferred none = (n : ℕ) → Tried n → test n ≡ false
IsTried test Tried preferred (some r) = IsTold preferred r × (test r.selected_node ≡ true)

-- Nodes that were tried in vain may be added.
IsTried-more :
    (test : ℕ → Bool) (Tried More : ℕ → Type 0) (preferred : ℕ) (r : Option PlacementResult)
    → IsTried test Tried preferred r
    → ((n : ℕ) → More n → (test n ≡ false) ⊎ Tried n)
    → IsTried test More preferred r
IsTried-more test Tried More preferred none h more =
    λ n m. elim (more n m) [ inl vain ↦ vain | inr t ↦ h n t ]
IsTried-more test Tried More preferred (some r) h more = h

-- The nodes at distances from `low`, `count` of them.
abbrev IsNear : ℕ → ℕ → ℕ → ℕ → Type 0
IsNear preferred low count n =
    (d : ℕ) × ((low ≤ d) × ((d < low + count) × ((preferred + d) % max_numa_nodes ≡ n)))

resolve_nearby-law :
    (nodes : ℕ → NodeTopology) (preferred tries distance : ℕ)
    → preferred < max_numa_nodes
    → 0 < distance
    → distance + tries ≤ suc max_numa_nodes
    → has_room (nodes preferred) ≡ false
    → IsTried
        (λ n. has_room (nodes n))
        (IsNear preferred distance tries)
        preferred
        (resolve_nearby nodes preferred tries distance)
unfolding resolve_nearby placement_at
resolve_nearby-law nodes preferred zero distance b pos h full =
    λ n (d, (low, (high, e))). absurd (omega (arith, low, high))
resolve_nearby-law nodes preferred (suc tries) distance b pos h full =
    let candidate = (preferred + distance) % max_numa_nodes in
    elim (Bool-cases (has_room (nodes candidate))) [
      | inl room ↦
          let other : candidate ≢ preferred =
            λ e. absurd (ground (arith, room, full, ap (λ n. has_room (nodes n)) e)) in
          rw room (
            record {
              below = omega arith;
              remote_told = refl;
              distance_told = omega (arith, b, h, other);
            },
            room,
          )
      | inr no_room ↦ rw no_room (
          IsTried-more (λ n. has_room (nodes n)) (IsNear preferred (suc distance) tries)
            (IsNear preferred distance (suc tries)) preferred
            (resolve_nearby nodes preferred tries (suc distance))
            (resolve_nearby-law nodes preferred tries (suc distance) b (omega arith)
              (omega (arith, h)) full)
            (λ n (d, (low, (high, e))). elim (ℕ_discrete d distance) [
              | yes here ↦ inl (
                  subst (λ m. has_room (nodes m) ≡ false)
                    (ap (λ k. (preferred + k) % max_numa_nodes) (sym here) ∙ e) no_room)
              | no ne ↦ inr (d, (omega (arith, low, ne), (omega (arith, high), e)))
            ]))
    ]

resolve_anywhere-law :
    (nodes : ℕ → NodeTopology) (preferred tries candidate : ℕ)
    → candidate + tries ≤ max_numa_nodes
    → IsTried
        (λ n. has_page (nodes n))
        (λ n. (candidate ≤ n) × (n < candidate + tries))
        preferred
        (resolve_anywhere nodes preferred tries candidate)
unfolding resolve_anywhere placement_at
resolve_anywhere-law nodes preferred zero candidate h =
    λ n (low, high). absurd (omega (arith, low, high))
resolve_anywhere-law nodes preferred (suc tries) candidate h =
    elim (Bool-cases (has_page (nodes candidate))) [
      | inl page ↦
          rw page
            (record { below = omega (arith, h); remote_told = refl; distance_told = refl }, page)
      | inr no_page ↦ rw no_page (
          IsTried-more (λ n. has_page (nodes n))
            (λ n. (suc candidate ≤ n) × (n < suc candidate + tries))
            (λ n. (candidate ≤ n) × (n < candidate + suc tries)) preferred
            (resolve_anywhere nodes preferred tries (suc candidate))
            (resolve_anywhere-law nodes preferred tries (suc candidate) (omega (arith, h)))
            (λ n (low, high). elim (ℕ_discrete n candidate) [
              | yes here ↦ inl (subst (λ m. has_page (nodes m) ≡ false) (sym here) no_page)
              | no ne ↦ inr (omega (arith, low, ne), omega (arith, high))
            ]))
    ]

-- The policy is for an emergency.
abbrev pub IsEmergency : FallbackMode → Type 0
IsEmergency mode = mode ≡ emergency_any

resolve_emergency-law :
    (mode : FallbackMode) (nodes : ℕ → NodeTopology) (preferred : ℕ)
    → IsTried
        (λ n. has_page (nodes n))
        (λ n. IsEmergency mode × (n < max_numa_nodes))
        preferred
        (resolve_emergency mode nodes preferred)
unfolding resolve_emergency
resolve_emergency-law emergency_any nodes preferred =
    IsTried-more (λ n. has_page (nodes n)) (λ n. (0 ≤ n) × (n < 0 + max_numa_nodes))
      (λ n. IsEmergency emergency_any × (n < max_numa_nodes)) preferred
      (resolve_anywhere nodes preferred max_numa_nodes 0)
      (resolve_anywhere-law nodes preferred max_numa_nodes 0 (omega arith))
      (λ n (e, below). inr (omega arith, omega (arith, below)))
resolve_emergency-law local_first nodes preferred = λ n (e, below). absurd (cc e)
resolve_emergency-law strict_local nodes preferred = λ n (e, below). absurd (cc e)
resolve_emergency-law interleave nodes preferred = λ n (e, below). absurd (cc e)

-- The node has room, or in an emergency a page; it is the preferred one where that has room or where
-- the policy keeps the memory local.
pub record IsResolved (t : Topology) (policy : AllocationPolicy) (preferred : ℕ)
    (r : PlacementResult) : Type 0 where
  pub told : IsTold preferred r
  pub room :
      (has_room (t.nodes r.selected_node) ≡ true)
      ⊎ (IsEmergency policy.fallback × (has_page (t.nodes r.selected_node) ≡ true))
  pub preferred_first : has_room (t.nodes preferred) ≡ true → r.selected_node ≡ preferred
  pub stays_local : keeps_local policy ≡ true → r.selected_node ≡ preferred

-- The preferred node has no room, and no other node serves.
abbrev pub IsUnresolved : Topology → AllocationPolicy → ℕ → Type 0
IsUnresolved t policy preferred =
    (has_room (t.nodes preferred) ≡ false)
    × ((keeps_local policy ≡ true)
        ⊎ ((n : ℕ)
            → n < max_numa_nodes
            → (has_room (t.nodes n) ≡ false)
              × (IsEmergency policy.fallback → has_page (t.nodes n) ≡ false)))

exhausted_unless-law :
    (t : Topology) (policy : AllocationPolicy) (preferred : ℕ) (near last : Option PlacementResult)
    → has_room (t.nodes preferred) ≡ false
    → keeps_local policy ≡ false
    → preferred < max_numa_nodes
    → IsTried (λ n. has_room (t.nodes n)) (IsNear preferred 1 max_numa_nodes) preferred near
    → IsTried
        (λ n. has_page (t.nodes n))
        (λ n. IsEmergency policy.fallback × (n < max_numa_nodes))
        preferred
        last
    → IsEmergency policy.fallback ⊎ (last ≡ none)
    → ((r : PlacementResult) × ((exhausted_unless near last ≡ ok r)
          × IsResolved t policy preferred r))
      ⊎ ((exhausted_unless near last ≡ err (from_memory zone_exhausted))
          × IsUnresolved t policy preferred)
unfolding exhausted_unless
exhausted_unless-law t policy preferred (some r) last full remote b near far mode = inl (
  r,
  (
    refl,
    record {
      told = near.0;
      room = inl near.1;
      preferred_first = λ e. absurd (ground arith);
      stays_local = λ e. absurd (ground arith);
    },
  ),
)
exhausted_unless-law t policy preferred none (some r) full remote b near far mode = inl (
  r,
  (
    refl,
    record {
      told = far.0;
      room = elim mode [ inl e ↦ inr (e, far.1) | inr e ↦ absurd (ground arith) ];
      preferred_first = λ e. absurd (ground arith);
      stays_local = λ e. absurd (ground arith);
    },
  ),
)
exhausted_unless-law t policy preferred none none full remote b near far mode = inr (
  refl,
  (
    full,
    inr (λ n below. (
      near n (
        (n + max_numa_nodes - preferred - 1) % max_numa_nodes + 1,
        (omega arith, (omega arith, omega (arith, b, below))),
      ),
      λ e. far n (e, below),
    )),
  ),
)

IsEmergency-or_none :
    (mode : FallbackMode) (nodes : ℕ → NodeTopology) (preferred : ℕ)
    → IsEmergency mode ⊎ (resolve_emergency mode nodes preferred ≡ none)
unfolding resolve_emergency
IsEmergency-or_none emergency_any nodes preferred = inl refl
IsEmergency-or_none local_first nodes preferred = inr refl
IsEmergency-or_none strict_local nodes preferred = inr refl
IsEmergency-or_none interleave nodes preferred = inr refl

-- Once the topology is there, a policy with a valid preferred node is resolved to a node of the
-- table with more free pages than its low watermark, or in an emergency with any free page; the
-- placement says truly whether it is remote and how far; the preferred node is taken where it has
-- room, and no other where the policy keeps memory local. Otherwise the zone is exhausted, and then
-- the preferred node has no room and either the policy keeps memory local or no node has room, nor
-- in an emergency a page.
pub resolve_policy-IsResolved :
    (t : Topology) (policy : AllocationPolicy) (local_node : ℕ)
    → t.is_initialized ≡ true
    → node_id_is_valid (preferred_node_of policy local_node) ≡ true
    → let preferred = preferred_node_of policy local_node in
      let resolved = resolve_policy t policy local_node in
      ((r : PlacementResult) × ((resolved ≡ ok r) × IsResolved t policy preferred r))
      ⊎ ((resolved ≡ err (from_memory zone_exhausted)) × IsUnresolved t policy preferred)
unfolding resolve_policy node_id_is_valid placement_at
resolve_policy-IsResolved t policy local_node ready valid =
    let preferred = preferred_node_of policy local_node in
    let b : preferred < max_numa_nodes = ground (arith, valid) in
    elim (Bool-cases (has_room (t.nodes preferred))) [
      | inl room ↦ inl (
        placement_at preferred preferred 0,
        (
          rw (ready, valid, room) refl,
          record {
            told = record { below = b; remote_told = refl; distance_told = omega (arith, b) };
            room = inl room;
            preferred_first = λ e. refl;
            stays_local = λ e. refl;
          },
        ),
      )
      | inr full ↦ elim (Bool-cases (keeps_local policy)) [
        | inl keeps ↦ inr (rw (ready, valid, full, keeps) refl, (full, inl keeps))
        | inr remote ↦
            let near = resolve_nearby t.nodes preferred max_numa_nodes 1 in
            let last = resolve_emergency policy.fallback t.nodes preferred in
            let run : resolve_policy t policy local_node ≡ exhausted_unless near last =
              rw (ready, valid, full, remote) refl in
            rw run (
              exhausted_unless-law t policy preferred near last full remote b
                (resolve_nearby-law t.nodes preferred max_numa_nodes 1 b (omega arith) (omega arith)
                  full)
                (resolve_emergency-law policy.fallback t.nodes preferred)
                (IsEmergency-or_none policy.fallback t.nodes preferred))
      ]
    ]
