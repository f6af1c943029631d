-- ===== src/Memory/Pmm/Folios/Located.antt =====
-- find_block: the block that is found is a frame of the table, whatever a reclaim did before.
use zxfoundation.Base.{
  ℕ, ◌^◌, ◌≡◌, ◌⊎◌, inl, inr, refl, sym, ap, ◌∙◌, subst, Bool, true, false, not, ◌||◌, Outcome,
  done, fault, arith, if◌then◌else◌, leb, ◌==◌, ◌>>=◌, Bool-cases, Outcome-cases,
}
use zxfoundation.Memory.Numa.{AllocationPolicy, Topology}
use zxfoundation.Memory.Pmm.Sources.{IsTakenFrom, alloc_node_aware-IsTakenFrom}
use zxfoundation.Memory.Pmm.Nodes.{
  NodeAllocation, no_allocation, normalize_node_id, zone_state, with_zone, alloc_node_aware,
}
use zxfoundation.Memory.Pmm.Cpulists.{
  CpuZone, pcp_max_order, pcp_pop, pcp_refill, pcp_batch, refill_rounds,
}
use zxfoundation.Memory.Pmm.Folios.{AllocationRequest, CpuState, cpu_zone, with_cpu_zone}
use zxfoundation.Memory.Pmm.Folios.Allocating.{
  refilled, alloc_cached, unless_found, alloc_from_nodes, alloc_reclaiming, find_block,
}
use zxfoundation.Memory.Pmm.Folios.Checked.{IsFrame, Keeps}
use zxfoundation.Memory.Pmm.Folios.Searching.{alloc_node_aware-IsSafe}
use zxfoundation.Memory.Pmm.Folios.Caching.{refill_rounds-law, pcp_pop-law}

-- The block was popped from the list of the running CPU, for the node, the zone and the order, after
-- the refill where the list was empty; `before` is the state that the search met.
pub record IsPopped (zone order : ℕ) (s : CpuState) (phys node : ℕ) : Type 0 where
  pub before : CpuState
  pub full : CpuZone
  pub left : CpuZone
  pub is_refilled : refilled order node (cpu_zone node zone order before) ≡ done full
  pub given : pcp_pop full ≡ done (left, phys)
  pub after : with_cpu_zone node zone order left before ≡ s

-- Where the block comes from: that list, or the zone of the node.
abbrev pub IsSource : (zone order : ℕ) (s : CpuState) (phys node : ℕ) → Type 0
IsSource zone order s phys node =
    IsPopped zone order s phys node ⊎ IsTakenFrom zone order s.pmm phys node

-- No block was found, or it comes from there and its first frame is one of the table.
abbrev pub IsHere : AllocationRequest → CpuState → NodeAllocation → Type 0
IsHere request s a =
    (a.phys ≡ 0)
    ⊎ (IsFrame s.pmm.has_table s.pmm.max_pfn a.phys
        × IsSource request.mem_zone request.order s a.phys a.node_id)

-- What a step gives, where it ends, is there.
abbrev pub Gives : AllocationRequest → Outcome (CpuState × NodeAllocation) → Type 0
Gives request o = (t : CpuState) (a : NodeAllocation) → o ≡ done (t, a) → IsHere request t a

value_of : CpuState → Outcome (CpuState × NodeAllocation) → CpuState × NodeAllocation
value_of s fault = (s, no_allocation)
value_of s (done r) = r

done-Gives :
    (request : AllocationRequest) (s : CpuState) (a : NodeAllocation)
    → IsHere request s a
    → Gives request (done (s, a))
unfolding value_of
done-Gives request s a h t b e = subst (λ r. IsHere request r.0 r.1) (ap (value_of s) e) h

bind-Gives :
    (request : AllocationRequest) (m : Outcome (CpuState × NodeAllocation))
    (f : CpuState × NodeAllocation → Outcome (CpuState × NodeAllocation))
    → Gives request m
    → ((s : CpuState) (a : NodeAllocation) → IsHere request s a → Gives request (f (s, a)))
    → Gives request (m >>= f)
bind-Gives request fault f first then_gives = λ t a e. absurd (ground arith)
bind-Gives request (done (s, a)) f first then_gives = then_gives s a (first s a refl)

unless_found-Gives :
    (request : AllocationRequest) (next : CpuState → Outcome (CpuState × NodeAllocation))
    (s : CpuState) (a : NodeAllocation)
    → IsHere request s a
    → ((t : CpuState) → Gives request (next t))
    → Gives request (unless_found next (s, a))
unfolding unless_found
unless_found-Gives request next s a h later = elim (Bool-cases (a.phys == 0)) [
  | inl none ↦ rw none (later s)
  | inr some ↦ rw some (done-Gives request s a h)
]

refilled-Keeps :
    (order node : ℕ) (c d : CpuZone) → refilled order node c ≡ done d → Keeps c.zone d.zone
unfolding refilled pcp_refill
refilled-Keeps order node c d e = elim (Bool-cases (c.pages.head_phys == 0)) [
  | inl none ↦
      let f : refilled order node c ≡ refill_rounds order node pcp_batch c = rw none refl in
      refill_rounds-law order node pcp_batch c d (sym f ∙ e)
  | inr some ↦ record { same_table = ground arith; same_limit = ground arith }
]

cached-IsHere :
    (order node phys : ℕ) (s : CpuState) (zone : ℕ) (d d' : CpuZone)
    → refilled order node (cpu_zone node zone order s) ≡ done d
    → pcp_pop d ≡ done (d', phys)
    → (phys ≡ 0) ⊎ IsFrame s.pmm.has_table s.pmm.max_pfn phys
unfolding cpu_zone zone_state
cached-IsHere order node phys s zone d d' e f =
    let k = refilled-Keeps order node (cpu_zone node zone order s) d e in
    subst (λ b. (phys ≡ 0) ⊎ IsFrame b s.pmm.max_pfn phys) k.same_table
      (subst (λ n. (phys ≡ 0) ⊎ IsFrame d.zone.has_table n phys) k.same_limit
        (pcp_pop-law phys d d' f).0)

alloc_cached-Gives :
    (request : AllocationRequest) (placement : AllocationPolicy) (local_node : ℕ) (s : CpuState)
    → Gives request (alloc_cached request placement local_node s)
unfolding alloc_cached with_cpu_zone with_zone
alloc_cached-Gives request placement local_node s =
    let node = normalize_node_id placement.preferred_node in
    let c = cpu_zone node request.mem_zone request.order s in
    elim (Outcome-cases (refilled request.order node c)) [
      | inl z ↦ rw z (λ t a e. absurd (ground arith))
      | inr (d, z) ↦ elim (Outcome-cases (pcp_pop d)) [
        | inl y ↦ rw (z, y) (λ t a e. absurd (ground arith))
        | inr (r, y) ↦
            rw (z, y)
              (done-Gives request (with_cpu_zone node request.mem_zone request.order r.0 s)
                (record {
                  phys = r.1;
                  node_id = node;
                  fallback_distance = 0;
                  remote = not (node == local_node);
                })
                (elim (cached-IsHere request.order node r.1 s request.mem_zone d r.0 z y) [
                  | inl none ↦ inl none
                  | inr frame ↦ inr (
                    frame,
                    inl (record {
                      before = s;
                      full = d;
                      left = r.0;
                      is_refilled = z;
                      given = y;
                      after = refl;
                    }),
                  )
                ]))
      ]
    ]

module _ (topology : Topology) where
  alloc_from_nodes-Gives :
      (request : AllocationRequest) (placement : AllocationPolicy) (local_node : ℕ) (s : CpuState)
      → Gives request (alloc_from_nodes topology request placement local_node s)
  unfolding alloc_from_nodes
  alloc_from_nodes-Gives request placement local_node s =
      elim (Outcome-cases
        (alloc_node_aware topology request.mem_zone request.order placement local_node s.pmm)) [
          | inl z ↦ rw z (λ t a e. absurd (ground arith))
          | inr (r, z) ↦
              let law =
                alloc_node_aware-IsSafe topology request.mem_zone request.order placement local_node
                  s.pmm r.0 r.1 z in
              rw z (
                done-Gives request (record s { pmm = r.0 }) r.1
                  (elim law.found [
                    | inl none ↦ inl none
                    | inr frame ↦
                        elim (alloc_node_aware-IsTakenFrom topology request.mem_zone request.order
                          placement local_node s.pmm r.0 r.1 z) [
                            | inl none ↦ inl none
                            | inr source ↦ inr (
                              subst (λ b. IsFrame b r.0.max_pfn r.1.phys) (sym law.same_table)
                                  (subst (λ n. IsFrame s.pmm.has_table n r.1.phys)
                                    (sym law.same_limit) frame),
                              inr source,
                            )
                          ]
                  ]))
        ]

  alloc_reclaiming-Gives :
      (reclaim_node : ℕ → ℕ → CpuState → Outcome CpuState) (can_sleep : Bool)
      (request : AllocationRequest) (placement : AllocationPolicy) (local_node : ℕ) (s : CpuState)
      → Gives request
          (alloc_reclaiming topology reclaim_node can_sleep request placement local_node s)
  unfolding alloc_reclaiming
  alloc_reclaiming-Gives reclaim_node can_sleep request placement local_node s =
      elim (Bool-cases (not can_sleep || s.is_reclaiming)) [
        | inl g ↦ rw g (done-Gives request s no_allocation (inl refl))
        | inr g ↦
            elim (Outcome-cases (
              reclaim_node placement.preferred_node (2 ^ request.order)
                (record s { is_reclaiming = true }))) [
                  | inl z ↦ rw (g, z) (λ t a e. absurd (ground arith))
                  | inr (t, z) ↦
                      rw (g, z)
                        (alloc_from_nodes-Gives request placement local_node
                          (record t { is_reclaiming = false }))
                ]
      ]

  -- Whatever a reclaim does, the block that is found is there in the end.
  pub find_block-Gives :
      (reclaim_node : ℕ → ℕ → CpuState → Outcome CpuState) (can_sleep : Bool)
      (request : AllocationRequest) (placement : AllocationPolicy) (local_node : ℕ) (s : CpuState)
      → Gives request (find_block topology reclaim_node can_sleep request placement local_node s)
  unfolding find_block
  find_block-Gives reclaim_node can_sleep request placement local_node s =
      let near = alloc_from_nodes topology request placement local_node in
      let last = alloc_reclaiming topology reclaim_node can_sleep request placement local_node in
      bind-Gives request
        (if leb request.order pcp_max_order
          then alloc_cached request placement local_node s
          else done (s, no_allocation))
        (λ cached. unless_found near cached >>= unless_found last)
        (elim (Bool-cases (leb request.order pcp_max_order)) [
          | inl z ↦ rw z (alloc_cached-Gives request placement local_node s)
          | inr z ↦ rw z (done-Gives request s no_allocation (inl refl))
        ])
        (λ t a h.
          bind-Gives request (unless_found near (t, a)) (unless_found last)
            (unless_found-Gives request near t a h
              (λ u. alloc_from_nodes-Gives request placement local_node u))
            (λ u b g.
              unless_found-Gives request last u b g (λ v.
                alloc_reclaiming-Gives reclaim_node can_sleep request placement local_node v)))
