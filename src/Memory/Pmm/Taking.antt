-- ===== src/Memory/Pmm/Taking.antt =====
-- One round of free_locked: a free buddy is taken into the block that is being freed.
use zxfoundation.Base.{
  ℕ, ◌/◌, ◌^◌, ◌≡◌, ◌≢◌, ◌⊎◌, inl, inr, refl, sym, ◌∙◌, subst, true, List, [], ◌∷◌, arith, ◌==◌,
  ==_ne, ==_refl, ℕ_discrete,
}
use zxfoundation.Base.Arrays.{update, update_ne}
use zxfoundation.Memory.Pmm.{
  ZoneState, page_size, size_of, wrapping_sub, none_owner, set_frame, remove,
}
use zxfoundation.Memory.Pmm.Chain.{IsIn, without}
use zxfoundation.Memory.Pmm.Lists.{IsApart, IsBlock}
use zxfoundation.Memory.Pmm.Removal.{IsIn-removed, remove-IsLists}
use zxfoundation.Memory.Pmm.Zone.{IsFree, IsZone, describe-inside, pages_of-without, other_frame}
use zxfoundation.Memory.Pmm.Freeing.{take_buddy}

-- The lists without the buddy.
abbrev pub left_by : (ℕ → List ℕ) → ℕ → ℕ → ℕ → List ℕ
left_by lists order b = update lists order (without b (lists order))

take_buddy-plain :
    (node order b : ℕ) (s : ZoneState)
    → s.has_table ≡ true
    → IsBlock s.max_pfn order b
    → take_buddy node order b s ≡ (
        let unlinked = remove order b s in
        record unlinked {
          free_pages = wrapping_sub unlinked.free_pages (2 ^ order);
          frames = update s.frames (b / page_size) (set_frame 0 none_owner node 0);
        })
unfolding take_buddy remove
take_buddy-plain node order b s table c =
    let unlinked = remove order b s in
    describe-inside (record unlinked { free_pages = wrapping_sub unlinked.free_pages (2 ^ order) })
      order b (set_frame 0 none_owner node 0) table c

pub take_buddy-IsZone :
    (node order b : ℕ) (s : ZoneState) (lists : ℕ → List ℕ)
    → IsZone node s lists
    → IsIn b (lists order)
    → IsZone node (take_buddy node order b s) (left_by lists order b)
      × (((take_buddy node order b s).max_pfn ≡ s.max_pfn)
          × ((take_buddy node order b s).frames
              ≡ update s.frames (b / page_size) (set_frame 0 none_owner node 0)))
unfolding remove
take_buddy-IsZone node order b s lists w member =
    let c = w.stocked.listed.placed order b member in
    let d = set_frame 0 none_owner node 0 in
    let lost =
      pages_of-without s.next_phys s.prev_phys s.heads s.counts s.max_pfn lists w.stocked.listed
        order b member in
    let apart : (k q : ℕ) → IsIn q (lists k) → q ≢ b → IsApart b (size_of order) q (size_of k) =
      λ k q i ne. elim (w.stocked.listed.apart order b k q member i) [
        | inl (e, f) ↦ absurd (ne (sym f))
        | inr a ↦ a
      ] in
    subst
      (λ t.
        IsZone node t (left_by lists order b)
        × ((t.max_pfn ≡ s.max_pfn) × (t.frames ≡ update s.frames (b / page_size) d)))
      (sym (take_buddy-plain node order b s w.stocked.table c))
      (
        record {
          stocked = record {
            listed =
                remove-IsLists s.next_phys s.prev_phys s.heads s.counts s.max_pfn lists
                  w.stocked.listed order b member;
            described = λ k q i.
                let j =
                  IsIn-removed s.next_phys s.prev_phys s.heads s.counts s.max_pfn lists
                    w.stocked.listed order b k q member i in
                subst (IsFree node k)
                  (sym (
                    update_ne s.frames (b / page_size) (q / page_size) d (
                      other_frame s.max_pfn order b k q c (w.stocked.listed.placed k q j.0)
                        (apart k q j.0 j.1))))
                  (w.stocked.described k q j.0);
            table = w.stocked.table;
            limit = w.stocked.limit;
          };
          pages = omega (arith, lost, w.pages);
        },
        (refl, refl),
      )

IsIn-kept : (q y : ℕ) (xs : List ℕ) → IsIn q xs → q ≢ y → IsIn q (without y xs)
unfolding IsIn without
IsIn-kept q y [] i ne = absurd i
IsIn-kept q y (x ∷ xs) i ne = elim (ℕ_discrete y x) [
  | yes e ↦ let h : (y == x) ≡ true = rw (e, ==_refl x) in rw h (later i (λ z. ne (z ∙ sym e)))
  | no differ ↦ rw (==_ne y x differ) (keep i (λ j. IsIn-kept q y xs j ne))
]
  where
    later : (q ≡ x) ⊎ IsIn q xs → q ≢ x → IsIn q xs
    later (inl e) f = absurd (f e)
    later (inr j) f = j

    keep :
        (q ≡ x) ⊎ IsIn q xs → (IsIn q xs → IsIn q (without y xs)) → (q ≡ x) ⊎ IsIn q (without y xs)
    keep (inl e) f = inl e
    keep (inr j) f = inr (f j)

pub IsIn-left :
    (lists : ℕ → List ℕ) (order b k q : ℕ)
    → IsIn q (lists k)
    → q ≢ b
    → IsIn q (left_by lists order b k)
IsIn-left lists order b k q i ne = elim (ℕ_discrete order k) [
  | yes e ↦
      subst (λ t. IsIn q (left_by lists order b t)) e
        (rw (==_refl order)
          (IsIn-kept q b (lists order) (subst (λ t. IsIn q (lists t)) (sym e) i) ne))
  | no differ ↦ rw (==_ne order k differ) i
]
