-- ===== src/Memory/Pmm/Folios/Finishing.antt =====
-- The descriptor and the contents of a block that alloc finishes.
use zxfoundation.Base.{
  ℕ, ◌+◌, ◌/◌, ◌≤◌, ◌<◌, ◌≡◌, refl, ap, Bool, true, false, Result, ok, err, arith,
}
use zxfoundation.Base.Arrays.{update}
use zxfoundation.Memory.Pmm.{FrameDesc, page_size, size_of, desc_of, describe, set_at}
use zxfoundation.Memory.Pmm.Nodes.{Pmm, NodeAllocation, zone_state}
use zxfoundation.Memory.Pmm.Checks.{IsTableBlock}
use zxfoundation.Memory.Pmm.Folios.{
  AllocationRequest, AllocationResult, table_of, set_desc, zero_fill, result_of, finish_valid,
}
use zxfoundation.Memory.Pmm.Folios.Checked.{IsFrame}

pub frame-desc_of :
    (p : Pmm) (phys : ℕ)
    → IsFrame p.has_table p.max_pfn phys
    → desc_of (table_of p) phys ≡ ok (phys / page_size)
unfolding desc_of zone_state
frame-desc_of p phys f = ground (arith, f.table, f.below)

pub set_desc-frame :
    (p : Pmm) (phys : ℕ) (d : FrameDesc)
    → IsFrame p.has_table p.max_pfn phys
    → set_desc phys d p ≡ record p { frames = update p.frames (phys / page_size) d }
unfolding set_desc describe set_at zone_state
set_desc-frame p phys d f =
    ap (λ r. record p { frames = (set_at r d (table_of p)).frames }) (frame-desc_of p phys f)

-- Filling with zeros changes no descriptor.
pub zero_fill-IsTableBlock :
    (z : Bool) (base o phys order zone node : ℕ) (p : Pmm)
    → IsTableBlock phys order zone node (table_of p)
    → IsTableBlock phys order zone node (table_of (zero_fill z base o p))
unfolding zero_fill zone_state
zero_fill-IsTableBlock false base o phys order zone node p b = b
zero_fill-IsTableBlock true base o phys order zone node p b = record {
  small = b.small;
  aligned = b.aligned;
  inside = b.inside;
  in_zone = b.in_zone;
  owner = b.owner;
  of_order = b.of_order;
  on_node = b.on_node;
  usable = b.usable;
}

pub zero_fill-table :
    (z : Bool) (base o : ℕ) (p : Pmm)
    → ((zero_fill z base o p).frames ≡ p.frames)
      × ((zero_fill z base o p).has_table ≡ p.has_table)
      × ((zero_fill z base o p).max_pfn ≡ p.max_pfn)
unfolding zero_fill
zero_fill-table false base o p = (refl, refl, refl)
zero_fill-table true base o p = (refl, refl, refl)

pub zero_fill-zones :
    (z : Bool) (base o : ℕ) (p : Pmm) → (zero_fill z base o p).node_zones ≡ p.node_zones
unfolding zero_fill
zero_fill-zones false base o p = refl
zero_fill-zones true base o p = refl

pub zero_fill-zero :
    (z : Bool) (base o q : ℕ) (p : Pmm)
    → z ≡ true
    → base ≤ q
    → q < base + size_of o
    → ((zero_fill z base o p).next_phys q ≡ 0) × ((zero_fill z base o p).prev_phys q ≡ 0)
unfolding zero_fill
zero_fill-zero false base o q p e low high = absurd (ground arith)
zero_fill-zero true base o q p e low high = (ground arith, ground arith)

-- The state and the result where the check of the block passes.
pub finish_valid-ok :
    (request : AllocationRequest) (a : NodeAllocation) (p q : Pmm) (check : Result (Unit {0}))
    (r : AllocationResult)
    → finish_valid request a p check ≡ (q, ok r)
    → (check ≡ ok tt)
      × (zero_fill request.zeroed a.phys request.order p ≡ q)
      × (result_of request a ≡ r)
unfolding finish_valid
finish_valid-ok request a p q (err e) r f = absurd (ground arith)
finish_valid-ok request a p q (ok tt) r f =
    let g : ok (result_of request a) ≡ ok r = ap (λ x. x.1) f in (refl, ap (λ x. x.0) f, cc)
