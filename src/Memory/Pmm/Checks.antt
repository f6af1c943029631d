-- ===== src/Memory/Pmm/Checks.antt =====
-- frame_validate_mapping and validate_page_table_allocation where they accept.
use zxfoundation.Base.{
  ℕ, zero, suc, ◌+◌, ◌-◌, ◌*◌, ◌/◌, ◌%◌, ◌^◌, ◌≤◌, ◌<◌, ◌≡◌, inl, inr, refl, sym, ap, ◌∙◌, subst,
  Bool, true, not, ◌||◌, ok, arith, ltb, leb, ◌==◌, Bool-cases, Result-cases, ℕ_discrete, bit_and,
}
use zxfoundation.Memory.Pmm.{
  ZoneState, page_size, max_order, size_of, wrapping_add, desc_of, zone_of, order_of, owner_of,
  page_table_owner, ff_offline, ff_shared,
}
use zxfoundation.Memory.Pmm.Zone.{desc_of-ok}
use zxfoundation.Memory.Pmm.Takes.{size-le}
use zxfoundation.Memory.Pmm.Frames.{
  carries, validate_at, validate_pages, frame_validate_mapping, validate_descriptor,
  validate_page_table_allocation,
}

-- The page's frame is in the table, carries the object's identity and is not offline.
abbrev pub IsCarried : ℕ → ℕ → ZoneState → ℕ → Type 0
IsCarried object_id object_generation s q =
    (desc_of s q ≡ ok (q / page_size))
    × (carries object_id object_generation (s.frames (q / page_size)) ≡ true)

validate_pages-law :
    (object_id object_generation pages phys j : ℕ) (s : ZoneState)
    → validate_pages object_id object_generation s pages phys ≡ ok tt
    → j < pages
    → IsCarried object_id object_generation s (phys + j * page_size)
unfolding validate_pages validate_at
validate_pages-law object_id object_generation zero phys j s e h = absurd (omega (arith, h))
validate_pages-law object_id object_generation (suc pages) phys j s e h =
    elim (Result-cases (desc_of s phys)) [
      | inl (x, z) ↦ absurd (ground arith)
      | inr (pfn, z) ↦ elim (Bool-cases (carries object_id object_generation (s.frames pfn))) [
        | inr bad ↦ absurd (ground arith)
        | inl good ↦
            let later : validate_pages object_id object_generation s pages (phys + page_size)
                ≡ ok tt =
              let f : validate_pages object_id object_generation s (suc pages) phys
                  ≡ validate_pages object_id object_generation s pages (phys + page_size) =
                rw (z, good) refl in
              sym f ∙ e in
            let frame = desc_of-ok s phys pfn z in
            elim (ℕ_discrete j 0) [
              | yes first ↦
                  let here : phys ≡ phys + j * page_size = omega (arith, first) in
                  subst (IsCarried object_id object_generation s) here (
                    subst (λ n. desc_of s phys ≡ ok n) frame z,
                    subst (λ n. carries object_id object_generation (s.frames n) ≡ true) frame good,
                  )
              | no further ↦
                  let rest =
                    validate_pages-law object_id object_generation pages (phys + page_size) (j - 1)
                      s later (omega (arith, h, further)) in
                  let moved : phys + page_size + (j - 1) * page_size ≡ phys + j * page_size =
                    omega (arith, further) in
                  subst (IsCarried object_id object_generation s) moved rest
            ]
      ]
    ]

-- A mapped range that frame_validate_mapping accepts is made of whole pages, does not wrap round, and
-- each of its pages is a frame of the table that carries exactly the object's identity and is not
-- offline.
pub frame_validate_mapping-IsCarried :
    (phys_start length object_id object_generation j : ℕ) (s : ZoneState)
    → phys_start < 2 ^ 64
    → length < 2 ^ 64
    → frame_validate_mapping phys_start length object_id object_generation s ≡ ok tt
    → j * page_size < length
    → (phys_start + length < 2 ^ 64)
      × (phys_start % page_size ≡ 0)
      × (length % page_size ≡ 0)
      × IsCarried object_id object_generation s (phys_start + j * page_size)
unfolding frame_validate_mapping
frame_validate_mapping-IsCarried phys_start length object_id object_generation j s a b e h =
    let bad =
      (length == 0)
      || not (phys_start % page_size == 0)
      || not (length % page_size == 0)
      || ltb (wrapping_add phys_start length) phys_start in
    elim (Bool-cases bad) [
      | inl g ↦ absurd (ground arith)
      | inr g ↦
          let pages = (wrapping_add phys_start length - phys_start) / page_size in
          let run : frame_validate_mapping phys_start length object_id object_generation s
              ≡ validate_pages object_id object_generation s pages phys_start =
            rw g refl in
          let whole : phys_start + length < 2 ^ 64 = ground (arith, g, a, b, h) in
          let start : phys_start % page_size ≡ 0 = ground (arith, g) in
          let full : length % page_size ≡ 0 = ground (arith, g) in
          (
            whole,
            start,
            full,
            validate_pages-law object_id object_generation pages phys_start j s (sym run ∙ e)
                (omega (arith, whole, full, h)),
          )
    ]

-- What a block of page tables is like.
pub record IsTableBlock (phys order zone node : ℕ) (s : ZoneState) : Type 0 where
  pub small : order ≤ max_order
  pub aligned : phys % size_of order ≡ 0
  pub inside : phys + size_of order ≤ s.max_pfn * page_size
  pub in_zone : zone_of phys ≡ zone
  pub owner : owner_of (s.frames (phys / page_size)) ≡ page_table_owner
  pub of_order : order_of (s.frames (phys / page_size)) ≡ order
  pub on_node : (s.frames (phys / page_size)).numa_node ≡ node
  pub usable : bit_and (s.frames (phys / page_size)).flags (ff_offline + ff_shared) ≡ 0

validate_descriptor-law :
    (order node phys : ℕ) (s : ZoneState)
    → validate_descriptor order node s (desc_of s phys) ≡ ok tt
    → let d = s.frames (phys / page_size) in
      (owner_of d ≡ page_table_owner)
      × (order_of d ≡ order)
      × (d.numa_node ≡ node)
      × (bit_and d.flags (ff_offline + ff_shared) ≡ 0)
unfolding validate_descriptor
validate_descriptor-law order node phys s e = elim (Result-cases (desc_of s phys)) [
  | inl (x, z) ↦ absurd (ground arith)
  | inr (pfn, z) ↦
      let at = desc_of-ok s phys pfn z in
      let f : validate_descriptor order node s (ok (phys / page_size)) ≡ ok tt =
        subst (λ r. validate_descriptor order node s r ≡ ok tt) (z ∙ ap (λ n. ok n) at) e in
      (ground arith, ground arith, ground arith, ground arith)
]

-- A block that validate_page_table_allocation accepts, where the physical addresses are below 2 ^ 63,
-- is aligned to its size, lies below the highest frame and in the zone, is mapped by the HHDM, comes
-- from a node that may serve memory, and its descriptor says page table, the order and the node,
-- and neither offline nor shared.
pub validate_page_table_allocation-IsTableBlock :
    (mapped : ℕ → ℕ → Bool) (allocatable : ℕ → Bool) (phys order zone node : ℕ) (s : ZoneState)
    → s.max_pfn * page_size < 2 ^ 63
    → validate_page_table_allocation mapped allocatable phys order zone node s ≡ ok tt
    → IsTableBlock phys order zone node s
      × (mapped phys (size_of order) ≡ true)
      × (allocatable node ≡ true)
unfolding validate_page_table_allocation
validate_page_table_allocation-IsTableBlock mapped allocatable phys order zone node s limit e =
    let size = page_size * 2 ^ order % 2 ^ 64 in
    let max_phys = s.max_pfn * page_size % 2 ^ 64 in
    elim (Bool-cases (not s.has_table || ltb max_order order || (size == 0))) [
      | inl g ↦ absurd (ground arith)
      | inr g₁ ↦ elim (Bool-cases (not (phys % page_size == 0) || not (phys % size == 0))) [
        | inl g ↦ absurd (ground arith)
        | inr g₂ ↦
            elim (Bool-cases (
              leb max_phys phys
              || ltb (wrapping_add phys size) phys
              || ltb max_phys (wrapping_add phys size))) [
                | inl g ↦ absurd (ground arith)
                | inr g₃ ↦ elim (Bool-cases (mapped phys size)) [
                  | inr g ↦ absurd (ground arith)
                  | inl g₄ ↦
                      elim (Bool-cases (not (zone_of phys == zone) || not (allocatable node))) [
                        | inl g ↦ absurd (ground arith)
                        | inr g₅ ↦
                            let small : order ≤ max_order = ground (arith, g₁) in
                            let plain : size ≡ size_of order =
                              omega (arith, size-le order max_order small) in
                            let run : validate_page_table_allocation mapped allocatable phys order
                                  zone node s
                                ≡ validate_descriptor order node s (desc_of s phys) =
                              rw (g₁, g₂, g₃, g₄, g₅) refl in
                            let d = validate_descriptor-law order node phys s (sym run ∙ e) in
                            (
                              record {
                                small = small;
                                aligned = ground (arith, g₂, plain);
                                inside =
                                    ground (arith, g₃, plain, limit, size-le order max_order small);
                                in_zone = ground (arith, g₅);
                                owner = d.0;
                                of_order = d.1;
                                on_node = d.2;
                                usable = d.3;
                              },
                              subst (λ n. mapped phys n ≡ true) plain g₄,
                              ground (arith, g₅),
                            )
                      ]
                ]
              ]
      ]
    ]
