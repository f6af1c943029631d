-- ===== src/Memory/Pmm/Folios/RollingBack.antt =====
-- A transaction that is not committed gives its block back.
use zxfoundation.Base.{
  ℕ, ◌+◌, ◌-◌, ◌/◌, ◌^◌, ◌≤◌, ◌<◌, ◌≡◌, ◌⊎◌, inl, inr, refl, sym, ap, ◌∙◌, subst, true, false, List,
  [], ◌∷◌, ok, done, arith, ltb, ◌==◌, bit_and, Bool-cases, ==_ne,
}
use zxfoundation.Base.Arrays.{update, update_self}
use zxfoundation.Memory.Numa.{max_numa_nodes, Topology, node_id_is_valid}
use zxfoundation.Memory.Pmm.{ZoneState, FrameDesc, page_size, max_order, set_frame, ff_offline}
use zxfoundation.Memory.Pmm.Freeing.{free_locked}
use zxfoundation.Memory.Pmm.Chain.{IsIn}
use zxfoundation.Memory.Pmm.Lists.{size-pos}
use zxfoundation.Memory.Pmm.Zone.{IsZone, IsExactBut}
use zxfoundation.Memory.Pmm.Buddies.{IsAligned}
use zxfoundation.Memory.Pmm.Free.{free_locked-IsReturned}
use zxfoundation.Memory.Pmm.Takes.{IsTakenExact}
use zxfoundation.Memory.Pmm.Alloc.{alloc_locked-IsTakenExact}
use zxfoundation.Memory.Pmm.RoundTrip.{IsRestored, IsAligned-smaller}
use zxfoundation.Memory.Pmm.Nodes.{
  Pmm, NodeAllocation, no_allocation, normalize_node_id, node_is_allocatable, zone_state, with_zone,
  allocated, try_alloc_node,
}
use zxfoundation.Memory.Pmm.Folios.{Purpose, owner_for_purpose, set_desc}
use zxfoundation.Memory.Pmm.Folios.Checked.{IsFrame, alloc_locked-law}
use zxfoundation.Memory.Pmm.Folios.Finishing.{frame-desc_of, set_desc-frame}
use zxfoundation.Memory.Pmm.Folios.Transactions.{FolioSlot, roll_back_slot, rolled_at, on_rollback}
use zxfoundation.Memory.Pmm.Folios.Relabelling.{
  relabelled, relabelled-IsZone, relabelled-IsExactBut, free_locked-Keeps, zone_state-with_zone,
}

-- A block taken from a zone in order, whatever descriptor it has got since, is freed.
taken-IsRestored :
    (node order zone phys : ℕ) (d : FrameDesc) (t : ZoneState) (before : ℕ → List ℕ)
    → ((k q : ℕ) → IsIn q (before k) → IsAligned k q)
    → IsTakenExact (λ q. ⊥) node order before t phys
    → IsRestored node before (free_locked phys order zone node (relabelled phys d t))
taken-IsRestored node order zone phys d t before aligned (taken, exact) =
    let more : order + (taken.from_order - order) ≡ taken.from_order =
      omega (arith, taken.large_enough) in
    let a =
      IsAligned-smaller order (taken.from_order - order) phys
        (subst (λ o. IsAligned o phys) (sym more) (aligned taken.from_order phys taken.was_free)) in
    let back =
      free_locked-IsReturned phys order zone node (relabelled phys d t) taken.lists
        (relabelled-IsZone node order phys d t taken.lists taken.zone taken.block taken.new)
        taken.block a taken.new
        (λ k q page in_table free.
          elim (relabelled-IsExactBut (λ x. ⊥ ⊎ (x ≡ phys)) node phys d t taken.lists
            taken.block.aligned (inr refl) exact k q page in_table free) [
              | inl i ↦ inl i
              | inr x ↦ elim x [
                | inl no_frame ↦ absurd no_frame
                | inr at ↦ inr (omega (arith, at), omega (arith, at, size-pos order))
              ]
            ]) in
    record { lists = back.lists; zone = back.zone; same_pages = back.balance ∙ taken.balance }

-- The block of a slot whose frame is not offline is freed in its zone.
roll_back_slot-frees :
    (slot : FolioSlot) (p : Pmm) (s : ZoneState)
    → slot.node_id < max_numa_nodes
    → IsFrame p.has_table p.max_pfn slot.phys
    → bit_and (p.frames (slot.phys / page_size)).flags ff_offline ≡ 0
    → zone_state slot.node_id slot.z p ≡ s
    → zone_state slot.node_id slot.z (roll_back_slot slot p)
      ≡ free_locked slot.phys slot.order slot.z slot.node_id s
unfolding roll_back_slot rolled_at normalize_node_id node_id_is_valid zone_state
roll_back_slot-frees slot p s valid frame present same =
    let node = slot.node_id in
    let freed = free_locked slot.phys slot.order slot.z node (zone_state node slot.z p) in
    let k = free_locked-Keeps slot.phys slot.order slot.z node (zone_state node slot.z p) in
    let known : ltb node max_numa_nodes ≡ true = ground (arith, valid) in
    let here : (bit_and (p.frames (slot.phys / page_size)).flags ff_offline == 0) ≡ true =
      ground (arith, present) in
    let at : rolled_at slot (ok (slot.phys / page_size)) p ≡ with_zone node slot.z freed p =
      rw (known, here) refl in
    ap (zone_state node slot.z)
      (ap (λ r. rolled_at slot r p) (frame-desc_of p slot.phys frame) ∙ at)
    ∙ zone_state-with_zone node slot.z freed p k.same_table k.same_limit
    ∙ ap (free_locked slot.phys slot.order slot.z node) same

-- What a transaction records of a block that it got from `node`, and the allocator once the block has
-- its descriptor.
abbrev pub slot_for : ℕ → ℕ → ℕ → Purpose → ℕ → FolioSlot
slot_for node zone order purpose phys = record {
  phys = phys;
  order = order;
  z = zone;
  purpose = purpose;
  node_id = node;
}

abbrev pub owned_for : ℕ → ℕ → Purpose → ℕ → Pmm → Pmm
owned_for node order purpose phys q =
    set_desc phys (set_frame order (owner_for_purpose purpose) node 0) q

pub rolled-IsRestored :
    (node zone order : ℕ) (purpose : Purpose) (p : Pmm) (before : ℕ → List ℕ) (t : ZoneState)
    (phys : ℕ)
    → node < max_numa_nodes
    → ((k q : ℕ) → IsIn q (before k) → IsAligned k q)
    → t.has_table ≡ p.has_table
    → t.max_pfn ≡ p.max_pfn
    → IsTakenExact (λ q. ⊥) node order before t phys
    → IsRestored node before (
        zone_state node zone (
          on_rollback
            (slot_for node zone order purpose phys ∷ [])
            (owned_for node order purpose phys (with_zone node zone t p))))
unfolding on_rollback set_frame with_zone zone_state
rolled-IsRestored node zone order purpose p before t phys valid aligned table limit taken =
    let q = with_zone node zone t p in
    let d = set_frame order (owner_for_purpose purpose) node 0 in
    let slot = slot_for node zone order purpose phys in
    let b = taken.0.block in
    let frame : IsFrame q.has_table q.max_pfn phys =
      subst (λ b. IsFrame b p.max_pfn phys) table
        (subst (λ n. IsFrame t.has_table n phys) limit
          (record {
            table = taken.0.zone.stocked.table;
            non_zero = b.non_zero;
            aligned = b.aligned;
            below = omega (arith, b.inside, size-pos order);
          })) in
    let plain : Pmm = record q { frames = update q.frames (phys / page_size) d } in
    let same : zone_state node zone plain ≡ relabelled phys d t =
      ap (relabelled phys d) (zone_state-with_zone node zone t p table limit) in
    let run =
      roll_back_slot-frees slot plain (relabelled phys d t) valid frame
        (ap (λ f. bit_and f.flags ff_offline) (update_self q.frames (phys / page_size) d)) same in
    subst (IsRestored node before)
      (sym (
        ap (λ x. zone_state node zone (roll_back_slot slot x)) (set_desc-frame q phys d frame)
        ∙ run))
      (taken-IsRestored node order zone phys d t before aligned taken)

-- In a zone in order of a node that may serve memory, with blocks aligned to their sizes and every
-- frame described as free on its list, a try for a block ends, and either gives none, or gives one
-- that a transaction which is rolled back returns, whatever its purpose was: the zone is in order
-- again with as many free pages as before.
on_rollback-try_alloc_node :
    (topology : Topology) (node zone order : ℕ) (purpose : Purpose) (p : Pmm) (before : ℕ → List ℕ)
    → node < max_numa_nodes
    → node_is_allocatable topology node ≡ true
    → IsZone node (zone_state node zone p) before
    → order ≤ max_order
    → ((k q : ℕ) → IsIn q (before k) → IsAligned k q)
    → IsExactBut (λ q. ⊥) node (zone_state node zone p) before
    → (q : Pmm) × ((a : NodeAllocation) × ((try_alloc_node topology zone order node p ≡ done (q, a))
          × ((a.phys ≡ 0)
              ⊎ IsRestored node before (
                  zone_state node zone (
                    on_rollback
                      (slot_for node zone order purpose a.phys ∷ [])
                      (owned_for node order purpose a.phys q))))))
unfolding try_alloc_node allocated normalize_node_id node_id_is_valid zone_state
on_rollback-try_alloc_node topology node zone order purpose p before valid serves w h aligned
      exact =
    let known : ltb node max_numa_nodes ≡ true = ground (arith, valid) in
    let s = zone_state node zone p in
    elim (Bool-cases (ltb (p.node_zones node zone).free_pages (2 ^ order))) [
      | inl few ↦ (p, (no_allocation, (rw (known, serves, few) refl, inl refl)))
      | inr enough ↦
          let found = alloc_locked-IsTakenExact (λ q. ⊥) order node s before w h exact in
          let t = found.0 in
          let phys = found.1.0 in
          let e = found.1.1.0 in
          let k = (alloc_locked-law node order phys s t e).1 in
          let q = with_zone node zone t p in
          elim found.1.1.1 [
            | inl none ↦
                (q, (no_allocation, (rw (known, serves, enough, e, none.0) refl, inl refl)))
            | inr taken ↦
                let some : (phys == 0) ≡ false = ==_ne phys 0 taken.0.block.non_zero in
                (
                  q,
                  (
                    record { phys = phys; node_id = node; fallback_distance = 0; remote = false },
                    (
                      rw (known, serves, enough, e, some) refl,
                      inr (
                          rolled-IsRestored node zone order purpose p before t phys valid aligned
                            k.same_table k.same_limit taken),
                    ),
                  ),
                )
          ]
    ]
