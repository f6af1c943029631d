-- ===== src/Memory/Pmm/Free.antt =====
-- The rounds of free_locked in a zone in order.
use zxfoundation.Base.{
  ℕ, zero, suc, ◌+◌, ◌-◌, ◌/◌, ◌≤◌, ◌<◌, ◌≡◌, ◌⊎◌, inl, inr, refl, sym, ap, ◌∙◌, subst, List, arith,
  ℕ_discrete, min,
}
use zxfoundation.Base.Arrays.{update, update_self, update_ne}
use zxfoundation.Memory.Pmm.{
  ZoneState, page_size, max_order, size_of, none_owner, desc_of, set_frame,
}
use zxfoundation.Memory.Pmm.Chain.{IsIn}
use zxfoundation.Memory.Pmm.Lists.{IsBlock, size-pos}
use zxfoundation.Memory.Pmm.Removal.{IsIn-removed}
use zxfoundation.Memory.Pmm.Zone.{IsFree, IsZone, IsNew, pages_of-without, set_frame-law}
use zxfoundation.Memory.Pmm.Freeing.{
  Merging, stop, stop_suspect, merge, merging, buddy_of, take_buddy, mark_suspect, finish,
  merge_from, free_locked,
}
use zxfoundation.Memory.Pmm.Buddies.{
  IsAligned, IsHalved, aligned-IsHalved, aligned-page, merging-IsMergeable, IsApart-whole,
  whole-IsBlock,
}
use zxfoundation.Memory.Pmm.Merging.{
  IsReturned, IsHonest, insert_block-IsReturned, mark_suspect-IsZone,
}
use zxfoundation.Memory.Pmm.Taking.{left_by, take_buddy-IsZone, IsIn-left}

-- The descriptor that a buddy taken in is left with is not that of a free block.
none-IsFree : (node order : ℕ) → IsFree node order (set_frame 0 none_owner node 0) → ⊥
none-IsFree node order f =
    absurd
      (omega (arith, f.by_buddy, (set_frame-law 0 none_owner node 0 (omega arith) (omega arith)).1))

-- Where `q` is in one of two halves, it is in the whole.
inside-whole :
    (order p b q : ℕ)
    → (b ≡ p + size_of order) ⊎ (b + size_of order ≡ p)
    → (p ≤ q) × (q < p + size_of order)
    → (min p b ≤ q) × (q < min p b + size_of (suc order))
inside-whole order p b q (inl e) (low, high) = (omega (arith, low), ground (arith, e, high))
inside-whole order p b q (inr e) (low, high) = (omega (arith, low, e), ground (arith, e, high))

buddy-outside :
    (order p b : ℕ)
    → (b ≡ p + size_of order) ⊎ (b + size_of order ≡ p)
    → (p ≤ b) × (b < p + size_of order)
    → ⊥
buddy-outside order p b (inl e) (low, high) = absurd (omega (arith, e, high))
buddy-outside order p b (inr e) (low, high) = absurd (omega (arith, e, low, size-pos order))

desc_of-same :
    (s t : ZoneState) (q : ℕ)
    → t.max_pfn ≡ s.max_pfn
    → t.has_table ≡ s.has_table
    → desc_of t q ≡ desc_of s q
unfolding desc_of
desc_of-same s t q e f = ground (arith, e, f)

Merging-cases : (m : Merging) → (m ≡ merge) ⊎ ((m ≡ stop) ⊎ (m ≡ stop_suspect))
Merging-cases stop = inr (inl refl)
Merging-cases stop_suspect = inr (inr refl)
Merging-cases merge = inl refl

-- One round: the buddy is in the lists, and everything goes on with the block of the next order.
record IsMerged (node order p : ℕ) (s : ZoneState) (lists : ℕ → List ℕ) : Type 0 where
  member : IsIn (buddy_of p order) (lists order)
  next :
      IsZone node
        (take_buddy node order (buddy_of p order) s)
        (left_by lists order (buddy_of p order))
  block :
      IsBlock
        (take_buddy node order (buddy_of p order) s).max_pfn
        (suc order)
        (min p (buddy_of p order))
  new : IsNew (suc order) (min p (buddy_of p order)) (left_by lists order (buddy_of p order))
  honest :
      IsHonest node
        (suc order)
        (min p (buddy_of p order))
        (take_buddy node order (buddy_of p order) s)
        (left_by lists order (buddy_of p order))

merge-IsMerged :
    (node zone order p : ℕ) (s : ZoneState) (lists : ℕ → List ℕ)
    → IsZone node s lists
    → IsBlock s.max_pfn order p
    → IsHalved order p
    → IsNew order p lists
    → IsHonest node order p s lists
    → suc order ≤ max_order
    → merging node zone order p s ≡ merge
    → IsMerged node order p s lists
merge-IsMerged node zone order p s lists w b v new honest room e =
    let buddy = buddy_of p order in
    let m = merging-IsMergeable node zone order p s b.in_order e in
    let member : IsIn buddy (lists order) =
      elim (honest order buddy (aligned-page order buddy v.buddy_aligned) m.in_table m.free) [
        | inl i ↦ i
        | inr inner ↦ absurd (buddy-outside order p buddy v.halves inner)
      ] in
    let taken = take_buddy-IsZone node order buddy s lists w member in
    let c = w.stocked.listed.placed order buddy member in
    record {
      member = member;
      next = taken.0;
      block =
          subst (λ t. IsBlock t (suc order) (min p buddy)) (sym taken.1.0)
            (whole-IsBlock s.max_pfn order p room v b c);
      new = λ k q i.
          let j =
            IsIn-removed s.next_phys s.prev_phys s.heads s.counts s.max_pfn lists w.stocked.listed
              order buddy k q member i in
          elim (w.stocked.listed.apart order buddy k q member j.0) [
            | inl (f, g) ↦ absurd (j.1 (sym g))
            | inr a ↦
                IsApart-whole order p buddy (size_of k) q v.halves (size-pos k) (new k q j.0) a
          ];
      honest = λ k q page in_table free.
          let free_there = subst (λ f. IsFree node k (f (q / page_size))) taken.1.1 free in
          let known =
            desc_of-same s (take_buddy node order buddy s) q taken.1.0
              (taken.0.stocked.table ∙ sym w.stocked.table) in
          elim (ℕ_discrete (buddy / page_size) (q / page_size)) [
            | yes f ↦ absurd (
                none-IsFree node k (
                  subst (IsFree node k)
                    (ap (update s.frames (buddy / page_size) (set_frame 0 none_owner node 0))
                        (sym f)
                      ∙ update_self s.frames (buddy / page_size) (set_frame 0 none_owner node 0))
                    free_there))
            | no ne ↦
                elim (honest k q page (sym known ∙ in_table) (
                  subst (IsFree node k)
                    (update_ne s.frames (buddy / page_size) (q / page_size)
                      (set_frame 0 none_owner node 0) ne)
                    free_there)) [
                      | inl i ↦ inl (
                          IsIn-left lists order buddy k q i
                            (λ z. ne (sym (ap (λ t. t / page_size) z))))
                      | inr inner ↦ inr (inside-whole order p buddy q v.halves inner)
                    ]
          ];
    }

merge_from-IsReturned :
    (node zone levels order p : ℕ) (s : ZoneState) (lists : ℕ → List ℕ)
    → order + levels ≡ max_order
    → IsZone node s lists
    → IsBlock s.max_pfn order p
    → IsAligned order p
    → IsNew order p lists
    → IsHonest node order p s lists
    → IsReturned node order p lists (merge_from node zone levels order p s)
unfolding merge_from finish
merge_from-IsReturned node zone zero order p s lists all w b a new honest =
    insert_block-IsReturned node order p s lists w b new
merge_from-IsReturned node zone (suc levels) order p s lists all w b a new honest =
    elim (Merging-cases (merging node zone order p s)) [
      | inl e ↦
          let v = aligned-IsHalved order p a in
          let buddy = buddy_of p order in
          let one =
            merge-IsMerged node zone order p s lists w b v new honest (omega (arith, all)) e in
          let rest =
            merge_from-IsReturned node zone levels (suc order) (min p buddy)
              (take_buddy node order buddy s) (left_by lists order buddy) (omega (arith, all))
              one.next one.block v.start_aligned one.new one.honest in
          let lost =
            pages_of-without s.next_phys s.prev_phys s.heads s.counts s.max_pfn lists
              w.stocked.listed order buddy one.member in
          rw e (record {
            lists = rest.lists;
            zone = rest.zone;
            into_order = rest.into_order;
            start = rest.start;
            listed = rest.listed;
            from_start = omega (arith, rest.from_start);
            to_end = elim v.halves [
              | inl f ↦ ground (arith, f, rest.to_end)
              | inr f ↦ ground (arith, f, rest.to_end)
            ];
            balance = ground (arith, rest.balance, lost);
          })
      | inr (inl e) ↦ rw e (insert_block-IsReturned node order p s lists w b new)
      | inr (inr e) ↦
          let marked = mark_suspect-IsZone node order p s lists w b new in
          rw e (
            insert_block-IsReturned node order p (mark_suspect p s) lists marked.0
              (subst (λ t. IsBlock t order p) (sym marked.1) b) new)
    ]

-- A block that lies apart from the free ones, and is aligned to its size, goes back to a zone in
-- order: the zone is in order again, the block is inside a free block, and the pages free are the
-- block's more. No frame outside the block may have the descriptor of a free block of the zone
-- without being on its list.
pub free_locked-IsReturned :
    (phys order zone node : ℕ) (s : ZoneState) (lists : ℕ → List ℕ)
    → IsZone node s lists
    → IsBlock s.max_pfn order phys
    → IsAligned order phys
    → IsNew order phys lists
    → IsHonest node order phys s lists
    → IsReturned node order phys lists (free_locked phys order zone node s)
unfolding free_locked
free_locked-IsReturned phys order zone node s lists w b a new honest =
    merge_from-IsReturned node zone (max_order - order) order phys s lists
      (omega (arith, b.in_order)) w b a new honest
