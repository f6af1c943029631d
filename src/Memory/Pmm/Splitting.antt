-- ===== src/Memory/Pmm/Splitting.antt =====
-- The splitting loop of alloc_locked.
use zxfoundation.Base.{
  true, ◌==◌, ==_refl, ==_ne, ℕ_discrete, ℕ, zero, suc, ◌+◌, ◌/◌, ◌^◌, ◌≡◌, inl, inr, refl, sym, ap,
  ◌∙◌, subst, List, ◌∷◌, arith,
}
use zxfoundation.Base.Arrays.{update, update_self, update_ne}
use zxfoundation.Memory.Pmm.{
  desc_of, ZoneState, page_size, size_of, wrapping_add, buddy_owner, set_frame, push, split_once,
  split,
}
use zxfoundation.Memory.Pmm.Chain.{IsIn}
use zxfoundation.Memory.Pmm.Lists.{IsApart, IsBlock, IsIn-push, size-pos}
use zxfoundation.Memory.Pmm.Zone.{
  IsFree, IsExactBut, set_frame-IsFree, IsStocked, IsNew, pages_of, push-IsStocked, describe-inside,
  pages_of-push,
}

-- What splitting leaves: new lists, in order, that have the block's pages but for the first part.
pub record IsDivided (node order p : ℕ) (before : ℕ → List ℕ) (pages : ℕ) (s t : ZoneState)
    : Type 0 where
  pub lists : ℕ → List ℕ
  pub stocked : IsStocked node t lists
  pub new : IsNew order p lists
  pub balance : pages_of lists + 2 ^ order ≡ pages_of before + pages
  pub same_pages : t.free_pages ≡ s.free_pages
  pub same_limit : t.max_pfn ≡ s.max_pfn

-- The part of a block that is its first half is apart from what the block is apart from.
lower_half : (half p m q : ℕ) → IsApart p (size_of (suc half)) q m → IsApart p (size_of half) q m
unfolding IsApart
lower_half half p m q (inl h) = inl (ground (arith, h))
lower_half half p m q (inr h) = inr h

upper_half :
    (half p m q : ℕ)
    → IsApart p (size_of (suc half)) q m
    → IsApart (p + size_of half) (size_of half) q m
unfolding IsApart
upper_half half p m q (inl h) = inl (ground (arith, h))
upper_half half p m q (inr h) = inr (ground (arith, h))

halves-IsApart : (half p : ℕ) → IsApart p (size_of half) (p + size_of half) (size_of half)
unfolding IsApart
halves-IsApart half p = inl (omega arith)

half-IsBlock :
    (max_pfn half p : ℕ) → IsBlock max_pfn (suc half) p → IsBlock max_pfn half (p + size_of half)
half-IsBlock max_pfn half p b = record {
  in_order = omega (arith, b.in_order);
  non_zero = ground (arith, b.non_zero);
  aligned = omega (arith, b.aligned);
  inside = ground (arith, b.inside);
}

lower-IsBlock : (max_pfn half p : ℕ) → IsBlock max_pfn (suc half) p → IsBlock max_pfn half p
lower-IsBlock max_pfn half p b = record {
  in_order = omega (arith, b.in_order);
  non_zero = b.non_zero;
  aligned = b.aligned;
  inside = ground (arith, b.inside);
}

split_once-plain :
    (node half p : ℕ) (s : ZoneState) (lists : ℕ → List ℕ)
    → IsStocked node s lists
    → IsBlock s.max_pfn (suc half) p
    → split_once node p half s ≡ (
        let upper = p + size_of half in
        push half upper (record s {
          frames = update s.frames (upper / page_size) (set_frame half buddy_owner node 0);
        }))
unfolding split_once push
split_once-plain node half p s lists w b =
    let upper = p + size_of half in
    let c = half-IsBlock s.max_pfn half p b in
    let e : wrapping_add p (size_of half) ≡ upper =
      ground (arith, c.inside, w.limit, size-pos half) in
    rw e
      (describe-inside (push half upper s) half upper (set_frame half buddy_owner node 0) w.table c)

IsIn-pushed :
    (lists : ℕ → List ℕ) (o p k q : ℕ) → IsIn q (lists k) → IsIn q (update lists o (p ∷ lists o) k)
unfolding IsIn
IsIn-pushed lists o p k q i = elim (ℕ_discrete o k) [
  | yes e ↦
      let h : (o == k) ≡ true = rw (e, ==_refl k) in
      rw h (inr (subst (λ t. IsIn q (lists t)) (sym e) i))
  | no ne ↦ rw (==_ne o k ne) i
]

split_once-IsDivided :
    (E : ℕ → Type 0) (node half p : ℕ) (s : ZoneState) (lists : ℕ → List ℕ)
    → IsStocked node s lists
    → IsBlock s.max_pfn (suc half) p
    → IsNew (suc half) p lists
    → IsExactBut E node s lists
    → (d : IsDivided node half p lists (2 ^ suc half) s (split_once node p half s)) × IsExactBut E
        node
        (split_once node p half s)
        d.lists
unfolding push desc_of IsIn
split_once-IsDivided E node half p s lists w b new exact =
    let upper = p + size_of half in
    let c = half-IsBlock s.max_pfn half p b in
    let fresh : IsNew half upper lists = λ k q i. upper_half half p (size_of k) q (new k q i) in
    subst (λ t. (d : IsDivided node half p lists (2 ^ suc half) s t) × IsExactBut E node t d.lists)
      (sym (split_once-plain node half p s lists w b))
      (
        record {
          lists = update lists half (upper ∷ lists half);
          stocked = push-IsStocked node half upper 0 s lists w c fresh;
          new = λ k q i.
              elim (IsIn-push s.next_phys s.prev_phys s.heads s.counts s.max_pfn lists w.listed half
                upper k q i) [
                  | inl (e, z) ↦
                      subst (λ t. IsApart p (size_of half) q (size_of t)) e
                        (subst (λ t. IsApart p (size_of half) t (size_of half)) (sym z)
                          (halves-IsApart half p))
                  | inr j ↦ lower_half half p (size_of k) q (new k q j)
                ];
          balance = omega (arith, pages_of-push lists half upper c.in_order, double half);
          same_pages = refl;
          same_limit = refl;
        },
        λ k q page in_table described. elim (ℕ_discrete (upper / page_size) (q / page_size)) [
          | yes e ↦
              let at : q ≡ upper = omega (arith, e, page, c.aligned) in
              let free =
                subst (IsFree node k)
                  (ap (update s.frames (upper / page_size) (set_frame half buddy_owner node 0))
                      (sym e)
                    ∙ update_self s.frames (upper / page_size) (set_frame half buddy_owner node 0))
                  described in
              let o : half ≡ k =
                sym (set_frame-IsFree half node 0 c.in_order).at_order ∙ free.at_order in
              inl (
                subst (λ t. IsIn q (update lists half (upper ∷ lists half) t)) o
                  (first half upper q at))
          | no ne ↦
              elim (exact k q page in_table (
                subst (IsFree node k)
                  (update_ne s.frames (upper / page_size) (q / page_size)
                    (set_frame half buddy_owner node 0) ne)
                  described)) [ inl i ↦ inl (IsIn-pushed lists half upper k q i) | inr x ↦ inr x ]
        ],
      )
  where
    first : (o x q : ℕ) → q ≡ x → IsIn q (update lists o (x ∷ lists o) o)
    first o x q e = rw (==_refl o) (inl e)

    double : (n : ℕ) → 2 ^ suc n ≡ 2 ^ n + 2 ^ n
    double n = ground arith

pub split-IsDivided :
    (E : ℕ → Type 0) (node order levels p : ℕ) (s : ZoneState) (lists : ℕ → List ℕ)
    → IsStocked node s lists
    → IsBlock s.max_pfn (order + levels) p
    → IsNew (order + levels) p lists
    → IsExactBut E node s lists
    → (d : IsDivided node order p lists (2 ^ (order + levels)) s (split node p order levels s))
      × IsExactBut E node (split node p order levels s) d.lists
unfolding split
split-IsDivided E node order zero p s lists w b new exact =
    let e : order + 0 ≡ order = omega arith in
    (
      record {
        lists = lists;
        stocked = w;
        new = subst (λ t. IsNew t p lists) e new;
        balance = ap (λ t. pages_of lists + 2 ^ t) (sym e);
        same_pages = refl;
        same_limit = refl;
      },
      exact,
    )
split-IsDivided E node order (suc levels) p s lists w b new exact =
    let e : order + suc levels ≡ suc (order + levels) = omega arith in
    let weights : 2 ^ (order + suc levels) ≡ 2 ^ suc (order + levels) = ap (λ t. 2 ^ t) e in
    let bigger = subst (λ t. IsBlock s.max_pfn t p) e b in
    let found =
      split_once-IsDivided E node (order + levels) p s lists w bigger
        (subst (λ t. IsNew t p lists) e new) exact in
    let one = found.0 in
    let smaller =
      subst (λ t. IsBlock t (order + levels) p) (sym one.same_limit)
        (lower-IsBlock s.max_pfn (order + levels) p bigger) in
    let later =
      split-IsDivided E node order levels p (split_once node p (order + levels) s) one.lists
        one.stocked smaller one.new found.1 in
    let rest = later.0 in
    (
      record {
        lists = rest.lists;
        stocked = rest.stocked;
        new = rest.new;
        balance = omega (arith, rest.balance, one.balance, weights);
        same_pages = rest.same_pages ∙ one.same_pages;
        same_limit = rest.same_limit ∙ one.same_limit;
      },
      later.1,
    )
