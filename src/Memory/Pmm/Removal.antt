-- ===== src/Memory/Pmm/Removal.antt =====
-- The free lists of a zone under buddy_zone::remove and buddy_zone::pop.
use zxfoundation.Base.{
  ℕ, ◌%◌, ◌^◌, ◌≡◌, ◌≢◌, ◌⊎◌, inl, inr, refl, sym, ap, ◌∙◌, subst, Bool, true, false, List, [], ◌∷◌,
  arith, if◌then◌else◌, ◌==◌, ==_refl, ==_ne, ℕ_discrete,
}
use zxfoundation.Base.Arrays.{update, update_self, update_ne}
use zxfoundation.Base.Sums.{length}
use zxfoundation.Memory.Pmm.{wrapping_sub}
use zxfoundation.Memory.Pmm.Chain.{
  IsIn, IsDistinct, IsChain, without, skip, relink, relink_ne, skip_ne, IsChain-same,
  IsChain-without, next-IsIn, prev-IsIn,
}
use zxfoundation.Memory.Pmm.Without.{IsIn-without, without-law}
use zxfoundation.Memory.Pmm.Lists.{IsLists, at_order, elsewhere, not-zero}

module _ (next prev heads counts : ℕ → ℕ) (max_pfn : ℕ) (lists : ℕ → List ℕ)
    (w : IsLists next prev heads counts max_pfn lists) where
  -- What remains on a list was on it, and is not the block taken off.
  pub IsIn-removed :
      (o y k q : ℕ)
      → IsIn y (lists o)
      → IsIn q (update lists o (without y (lists o)) k)
      → IsIn q (lists k) × (q ≢ y)
  IsIn-removed o y k q member i = elim (ℕ_discrete o k) [
    | yes e ↦
        let h : (o == k) ≡ true = rw (e, ==_refl k) in
        let j : IsIn q (without y (lists o)) =
          subst (λ b. IsIn q (if b then without y (lists o) else lists k)) h i in
        (
          subst (λ t. IsIn q (lists t)) e (IsIn-without q y (lists o) j),
          λ z.
              (without-law y (lists o) (w.distinct o) member).1
                (subst (λ t. IsIn t (without y (lists o))) z j),
        )
    | no ne ↦
        let j : IsIn q (lists k) =
          subst (λ b. IsIn q (if b then without y (lists o) else lists k)) (==_ne o k ne) i in
        (j, λ z. elsewhere next prev heads counts max_pfn lists w o k y q ne (inr member) j (sym z))
  ]

  head_same :
      (b : Bool) (o v : ℕ) → (if b then update heads o v else heads) o ≡ (if b then v else heads o)
  head_same true o v = update_self heads o v
  head_same false o v = refl

  head_other : (b : Bool) (o k v : ℕ) → o ≢ k → (if b then update heads o v else heads) k ≡ heads k
  head_other true o k v ne = update_ne heads o k v ne
  head_other false o k v ne = refl

  removed-IsChain :
      (o y : ℕ)
      → IsIn y (lists o)
      → (k : ℕ)
      → IsChain
          (skip next (prev y) (next y))
          (relink prev (next y) (prev y))
          0
          ((if prev y == 0 then update heads o (next y) else heads) k)
          (update lists o (without y (lists o)) k)
  removed-IsChain o y member =
      at_order
        (λ k.
          IsChain (skip next (prev y) (next y)) (relink prev (next y) (prev y)) 0
            ((if prev y == 0 then update heads o (next y) else heads) k)
            (update lists o (without y (lists o)) k))
        o
        (rw (head_same (prev y == 0) o (next y), ==_refl o)
          (IsChain-without next prev 0 (heads o) y (lists o) (w.distinct o) member
            (λ i. not-zero next prev heads counts max_pfn lists w o 0 i refl) (w.chains o)))
        (λ k ne.
          let after : (next y ≡ 0) ⊎ IsIn (next y) (lists o) =
            next-IsIn next prev 0 (heads o) y (lists o) (w.chains o) member in
          let before : (prev y ≡ 0) ⊎ IsIn (prev y) (lists o) =
            elim (prev-IsIn next prev 0 (heads o) y (lists o) (w.chains o) member) [
              | inl e ↦ inl e
              | inr (i, non_zero) ↦ inr i
            ] in
          rw (head_other (prev y == 0) o k (next y) ne, ==_ne o k ne)
            (IsChain-same next prev (skip next (prev y) (next y)) (relink prev (next y) (prev y)) 0
              (heads k) (lists k)
              (λ z i. sym (
                skip_ne next (prev y) (next y) z
                  (elsewhere next prev heads counts max_pfn lists w o k (prev y) z ne before i)))
              (λ z i. sym (
                relink_ne prev (next y) (prev y) z
                  (elsewhere next prev heads counts max_pfn lists w o k (next y) z ne after i)))
              (w.chains k)))

  pub remove-IsLists :
      (o y : ℕ)
      → IsIn y (lists o)
      → IsLists
          (skip next (prev y) (next y))
          (relink prev (next y) (prev y))
          (if prev y == 0 then update heads o (next y) else heads)
          (update counts o (wrapping_sub (counts o) 1))
          max_pfn
          (update lists o (without y (lists o)))
  remove-IsLists o y member =
      let law = without-law y (lists o) (w.distinct o) member in
      record {
        chains = removed-IsChain o y member;
        distinct =
            at_order (λ k. IsDistinct (update lists o (without y (lists o)) k)) o
              (rw (==_refl o) law.0) (λ k ne. rw (==_ne o k ne) (w.distinct k));
        placed = λ k q i. w.placed k q (IsIn-removed o y k q member i).0;
        apart = λ m r k q i j.
            w.apart m r k q (IsIn-removed o y m r member i).0 (IsIn-removed o y k q member j).0;
        counted =
            at_order
              (λ k.
                update counts o (wrapping_sub (counts o) 1) k
                ≡ length (update lists o (without y (lists o)) k) % 2 ^ 64)
              o (rw (==_refl o) (omega (arith, w.counted o, law.2)))
              (λ k ne. rw (==_ne o k ne) (w.counted k));
      }

  -- The head of a list that is not empty is a block of it with nothing before it.
  pub head-first : (o : ℕ) → heads o ≢ 0 → IsIn (heads o) (lists o) × (prev (heads o) ≡ 0)
  unfolding IsChain IsIn
  head-first o non_zero = first (lists o) (w.chains o)
    where
      first :
          (xs : List ℕ)
          → IsChain next prev 0 (heads o) xs
          → IsIn (heads o) xs × (prev (heads o) ≡ 0)
      first [] c = absurd (non_zero c)
      first (x ∷ xs) (at, q, back, rest) = (inl at, ap prev at ∙ back)

  -- `pop` is `remove` of the head.
  pub pop-IsLists :
      (o : ℕ)
      → heads o ≢ 0
      → IsLists next
          (relink prev (next (heads o)) 0)
          (update heads o (next (heads o)))
          (update counts o (wrapping_sub (counts o) 1))
          max_pfn
          (update lists o (without (heads o) (lists o)))
  pop-IsLists o non_zero =
      let first = head-first o non_zero in
      subst
        (λ t.
          IsLists (skip next t (next (heads o))) (relink prev (next (heads o)) t)
            (if t == 0 then update heads o (next (heads o)) else heads)
            (update counts o (wrapping_sub (counts o) 1)) max_pfn
            (update lists o (without (heads o) (lists o))))
        first.1 (remove-IsLists o (heads o) first.0)
