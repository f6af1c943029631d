-- ===== src/Memory/Pmm/Takes.antt =====
-- One order of alloc_locked: a block is taken off its list and split.
use zxfoundation.Base.{
  ℕ, zero, suc, ◌+◌, ◌-◌, ◌*◌, ◌/◌, ◌^◌, ◌≤◌, ◌<◌, ◌≡◌, ◌≢◌, ◌⊎◌, inl, inr, refl, sym, ap, subst,
  true, List, arith, ℕ_discrete, done,
}
use zxfoundation.Base.Arrays.{update}
use zxfoundation.Memory.Pmm.{
  desc_of, ZoneState, page_size, size_of, wrapping_sub, pop_state, is_allocatable_frame, owned_by,
  split, take_block,
}
use zxfoundation.Memory.Pmm.Chain.{IsIn, without}
use zxfoundation.Memory.Pmm.Lists.{IsBlock, size-pos}
use zxfoundation.Memory.Pmm.Removal.{IsIn-removed, pop-IsLists, head-first}
use zxfoundation.Memory.Pmm.Taking.{IsIn-left}
use zxfoundation.Memory.Pmm.Zone.{
  IsExactBut, IsFree, IsStocked, IsZone, IsNew, pages_of, desc_of-inside, pages_of-without,
}
use zxfoundation.Memory.Pmm.Splitting.{split-IsDivided}

-- The zone is in order with `lists` for the free blocks `before`: the block at `phys`, the first part
-- of a block that was free, is apart from all of them, and no page is lost.
pub record IsTaken (node order : ℕ) (before : ℕ → List ℕ) (t : ZoneState) (phys : ℕ) : Type 0 where
  pub lists : ℕ → List ℕ
  pub zone : IsZone node t lists
  pub block : IsBlock t.max_pfn order phys
  pub new : IsNew order phys lists
  pub from_order : ℕ
  pub large_enough : order ≤ from_order
  pub was_free : IsIn phys (before from_order)
  pub balance : pages_of lists + 2 ^ order ≡ pages_of before

pop-IsStocked :
    (node ord : ℕ) (s : ZoneState) (lists : ℕ → List ℕ)
    → IsStocked node s lists
    → s.heads ord ≢ 0
    → IsStocked node (pop_state ord s) (update lists ord (without (s.heads ord) (lists ord)))
unfolding pop_state
pop-IsStocked node ord s lists w non_zero =
    let member =
      (head-first s.next_phys s.prev_phys s.heads s.counts s.max_pfn lists w.listed ord
        non_zero).0 in
    record {
      listed =
          pop-IsLists s.next_phys s.prev_phys s.heads s.counts s.max_pfn lists w.listed ord
            non_zero;
      described = λ k q i.
          w.described k q
            (IsIn-removed s.next_phys s.prev_phys s.heads s.counts s.max_pfn lists w.listed ord
              (s.heads ord) k q member i).0;
      table = w.table;
      limit = w.limit;
    }

pub free-is_allocatable_frame :
    (node o p : ℕ) (s : ZoneState)
    → s.has_table ≡ true
    → s.max_pfn * page_size < 2 ^ 64
    → IsBlock s.max_pfn o p
    → IsFree node o (s.frames (p / page_size))
    → is_allocatable_frame s p ≡ true
unfolding is_allocatable_frame owned_by
free-is_allocatable_frame node o p s table limit b free =
    rw (desc_of-inside s o p table b)
      (ground (arith, b.non_zero, b.aligned, b.inside, size-pos o, free.by_buddy))

pub size-le : (a b : ℕ) → a ≤ b → size_of a ≤ size_of b
size-le a zero h = let e : a ≡ 0 = omega (arith, h) in rw e (omega arith)
size-le a (suc b) h = elim (ℕ_discrete a (suc b)) [
  | yes e ↦ rw e (omega arith)
  | no ne ↦ let less = size-le a b (omega (arith, h, ne)) in ground (arith, less)
]

-- Besides what was excepted, the block taken is.
abbrev pub IsOrAt : (ℕ → Type 0) → ℕ → ℕ → Type 0
IsOrAt E p q = E q ⊎ (q ≡ p)

-- A block is taken, and the other frames are still told apart by their descriptors.
abbrev pub IsTakenExact : (ℕ → Type 0) → ℕ → ℕ → (ℕ → List ℕ) → ZoneState → ℕ → Type 0
IsTakenExact E node order before t phys =
    (taken : IsTaken node order before t phys) × IsExactBut (IsOrAt E phys) node t taken.lists

pop-IsExactBut :
    (E : ℕ → Type 0) (node ord : ℕ) (s : ZoneState) (lists : ℕ → List ℕ)
    → IsExactBut E node s lists
    → IsExactBut
        (IsOrAt E (s.heads ord))
        node
        (pop_state ord s)
        (update lists ord (without (s.heads ord) (lists ord)))
unfolding pop_state desc_of
pop-IsExactBut E node ord s lists exact k q page in_table free = elim (ℕ_discrete q (s.heads ord)) [
  | yes e ↦ inr (inr e)
  | no ne ↦ elim (exact k q page in_table free) [
    | inl i ↦ inl (IsIn-left lists ord (s.heads ord) k q i ne)
    | inr x ↦ inr (inl x)
  ]
]

-- Taking a block of any order that is large enough.
pub take_block-IsTaken :
    (E : ℕ → Type 0) (node order ord : ℕ) (s : ZoneState) (before : ℕ → List ℕ)
    → IsZone node s before
    → order ≤ ord
    → s.heads ord ≢ 0
    → IsExactBut E node s before
    → (t : ZoneState) × ((take_block node order ord s ≡ done (t, s.heads ord))
        × IsTakenExact E node order before t (s.heads ord))
unfolding take_block pop_state desc_of
take_block-IsTaken E node order ord s before w enough non_zero exact =
    let p = s.heads ord in
    let popped = pop_state ord s in
    let member =
      (head-first s.next_phys s.prev_phys s.heads s.counts s.max_pfn before w.stocked.listed ord
        non_zero).0 in
    let b = w.stocked.listed.placed ord p member in
    let rest = pop-IsStocked node ord s before w.stocked non_zero in
    let after = update before ord (without p (before ord)) in
    let good =
      free-is_allocatable_frame node ord p popped w.stocked.table w.stocked.limit b
        (w.stocked.described ord p member) in
    let levels : order + (ord - order) ≡ ord = omega (arith, enough) in
    let new : IsNew ord p after = λ k q i.
      let j =
        IsIn-removed s.next_phys s.prev_phys s.heads s.counts s.max_pfn before w.stocked.listed ord
          p k q member i in
      elim (w.stocked.listed.apart ord p k q member j.0) [
        | inl (e, f) ↦ absurd (j.1 (sym f))
        | inr a ↦ a
      ] in
    let found =
      split-IsDivided (IsOrAt E p) node order (ord - order) p popped after rest
        (subst (λ t. IsBlock s.max_pfn t p) (sym levels) b)
        (subst (λ t. IsNew t p after) (sym levels) new)
        (pop-IsExactBut E node ord s before exact) in
    let d = found.0 in
    let divided = split node p order (ord - order) popped in
    let lost =
      pages_of-without s.next_phys s.prev_phys s.heads s.counts s.max_pfn before w.stocked.listed
        ord p member in
    let weights : 2 ^ (order + (ord - order)) ≡ 2 ^ ord = ap (λ t. 2 ^ t) levels in
    let balance : pages_of d.lists + 2 ^ order ≡ pages_of before =
      omega (arith, d.balance, lost, weights) in
    (
      record divided { free_pages = wrapping_sub divided.free_pages (2 ^ order) },
      (
        rw good refl,
        (
          record {
            lists = d.lists;
            zone = record {
              stocked = record {
                listed = d.stocked.listed;
                described = d.stocked.described;
                table = d.stocked.table;
                limit = d.stocked.limit;
              };
              pages = omega (arith, balance, d.same_pages, w.pages);
            };
            block = record {
              in_order = omega (arith, b.in_order, enough);
              non_zero = b.non_zero;
              aligned = b.aligned;
              inside =
                  subst (λ t. p + size_of order ≤ t * page_size) (sym d.same_limit)
                    (omega (arith, b.inside, size-le order ord enough));
            };
            new = d.new;
            from_order = ord;
            large_enough = enough;
            was_free = member;
            balance = balance;
          },
          found.1,
        ),
      ),
    )
