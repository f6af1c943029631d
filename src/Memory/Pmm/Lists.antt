-- ===== src/Memory/Pmm/Lists.antt =====
-- The free lists of a zone taken together, which share the memory their links stand in, and
-- buddy_zone::push on them.
use zxfoundation.Base.{
  ℕ, zero, suc, ◌+◌, ◌*◌, ◌%◌, ◌^◌, ◌≤◌, ◌<◌, ◌≡◌, ◌≢◌, ◌⊎◌, inl, inr, refl, sym, ◌∙◌, subst, true,
  List, ◌∷◌, arith, if◌then◌else◌, ◌==◌, ==_refl, ==_ne, ℕ_discrete,
}
use zxfoundation.Base.Arrays.{update, update_self, update_ne}
use zxfoundation.Base.Sums.{length}
use zxfoundation.Memory.Pmm.{page_size, max_order, size_of, wrapping_add}
use zxfoundation.Memory.Pmm.Chain.{
  IsIn, IsDistinct, IsChain, relink, relink_ne, IsChain-same, IsChain-relink, head-IsIn, IsIn-ne,
}

-- The first block ends before the second one starts, or the other way round.
unfoldable pub IsApart : ℕ → ℕ → ℕ → ℕ → Type 0
IsApart p m q n = (p + m ≤ q) ⊎ (q + n ≤ p)

-- A block of this order that may be on a free list.
pub record IsBlock (max_pfn order p : ℕ) : Type 0 where
  pub in_order : order ≤ max_order
  pub non_zero : p ≢ 0
  pub aligned : p % page_size ≡ 0
  pub inside : p + size_of order ≤ max_pfn * page_size

pub record IsLists (next prev heads counts : ℕ → ℕ) (max_pfn : ℕ) (lists : ℕ → List ℕ)
    : Type 0 where
  pub chains : (o : ℕ) → IsChain next prev 0 (heads o) (lists o)
  pub distinct : (o : ℕ) → IsDistinct (lists o)
  pub placed : (o p : ℕ) → IsIn p (lists o) → IsBlock max_pfn o p
  pub apart :
      (o p k q : ℕ)
      → IsIn p (lists o)
      → IsIn q (lists k)
      → ((o ≡ k) × (p ≡ q)) ⊎ IsApart p (size_of o) q (size_of k)
  pub counted : (o : ℕ) → counts o ≡ length (lists o) % 2 ^ 64

pub size-pos : (o : ℕ) → 0 < size_of o
size-pos zero = omega arith
size-pos (suc o) = ground (arith, size-pos o)

pub IsApart-ne : (p m q n : ℕ) → 0 < m → 0 < n → IsApart p m q n → p ≢ q
unfolding IsApart
IsApart-ne p m q n h g a e = absurd (ground arith)

pub IsApart-sym : (p m q n : ℕ) → IsApart p m q n → IsApart q n p m
unfolding IsApart
IsApart-sym p m q n (inl h) = inr h
IsApart-sym p m q n (inr h) = inl h

-- A change at one order of a property of every order.
pub at_order : (P : ℕ → Type 0) (o : ℕ) → P o → ((k : ℕ) → o ≢ k → P k) → (k : ℕ) → P k
at_order P o here there k = elim (ℕ_discrete o k) [ yes e ↦ subst P e here | no ne ↦ there k ne ]

module _ (next prev heads counts : ℕ → ℕ) (max_pfn : ℕ) (lists : ℕ → List ℕ)
    (w : IsLists next prev heads counts max_pfn lists) where
  -- Blocks of different lists have different addresses.
  across : (o k p q : ℕ) → o ≢ k → IsIn p (lists o) → IsIn q (lists k) → p ≢ q
  across o k p q ne i j = elim (w.apart o p k q i j) [
    | inl (e, f) ↦ absurd (ne e)
    | inr a ↦ IsApart-ne p (size_of o) q (size_of k) (size-pos o) (size-pos k) a
  ]

  pub not-zero : (o p : ℕ) → IsIn p (lists o) → p ≢ 0
  not-zero o p i = (w.placed o p i).non_zero

  -- An address that is 0 or of another list.
  pub elsewhere : (o k p q : ℕ) → o ≢ k → (p ≡ 0) ⊎ IsIn p (lists o) → IsIn q (lists k) → p ≢ q
  elsewhere o k p q ne (inl e) j = λ z. not-zero k q j (sym z ∙ e)
  elsewhere o k p q ne (inr i) j = across o k p q ne i j

  not_member :
      (o p : ℕ)
      → ((k q : ℕ) → IsIn q (lists k) → IsApart p (size_of o) q (size_of k))
      → (k : ℕ) → IsIn p (lists k)
      → ⊥
  not_member o p fresh k i =
      IsApart-ne p (size_of o) p (size_of k) (size-pos o) (size-pos k) (fresh k p i) refl

  pub head-list : (o : ℕ) → (heads o ≡ 0) ⊎ IsIn (heads o) (lists o)
  head-list o = head-IsIn next prev 0 (heads o) (lists o) (w.chains o)

  pub IsIn-push :
      (o p k q : ℕ)
      → IsIn q (update lists o (p ∷ lists o) k)
      → ((o ≡ k) × (q ≡ p)) ⊎ IsIn q (lists k)
  unfolding IsIn
  IsIn-push o p k q i = elim (ℕ_discrete o k) [
    | yes e ↦
        let h : (o == k) ≡ true = rw (e, ==_refl k) in
        let j : (q ≡ p) ⊎ IsIn q (lists o) =
          subst (λ b. IsIn q (if b then p ∷ lists o else lists k)) h i in
        elim j [ inl z ↦ inl (e, z) | inr z ↦ inr (subst (λ w. IsIn q (lists w)) e z) ]
    | no ne ↦ inr (subst (λ b. IsIn q (if b then p ∷ lists o else lists k)) (==_ne o k ne) i)
  ]

  pushed-IsChain :
      (o p : ℕ)
      → p ≢ 0
      → ((k : ℕ) → IsIn p (lists k) → ⊥)
      → (k : ℕ)
      → IsChain
          (update next p (heads o))
          (relink (update prev p 0) (heads o) p)
          0
          (update heads o p k)
          (update lists o (p ∷ lists o) k)
  unfolding IsChain
  pushed-IsChain o p non_zero out =
      at_order
        (λ k.
          IsChain (update next p (heads o)) (relink (update prev p 0) (heads o) p) 0
            (update heads o p k) (update lists o (p ∷ lists o) k))
        o
        (let first : heads o ≢ p = elim (head-list o) [
          | inl z ↦ λ e. non_zero (sym e ∙ z)
          | inr i ↦ λ e. out o (subst (λ w. IsIn w (lists o)) e i)
        ] in
          let tail =
            IsChain-relink (update next p (heads o)) (update prev p 0) 0 p (heads o) (lists o)
              (w.distinct o)
              (IsChain-same next prev (update next p (heads o)) (update prev p 0) 0 (heads o)
                (lists o)
                (λ y i. sym (update_ne next p y (heads o) (IsIn-ne p y (lists o) (out o) i)))
                (λ y i. sym (update_ne prev p y 0 (IsIn-ne p y (lists o) (out o) i)))
                (w.chains o)) in
          subst
            (λ b.
              IsChain (update next p (heads o)) (relink (update prev p 0) (heads o) p) 0
                (if b then p else heads o) (if b then p ∷ lists o else lists o))
            (sym (==_refl o))
            (
              refl,
              non_zero,
              relink_ne (update prev p 0) (heads o) p p first ∙ update_self prev p 0,
              subst
                  (λ h.
                    IsChain (update next p (heads o)) (relink (update prev p 0) (heads o) p) p h
                      (lists o))
                  (sym (update_self next p (heads o))) tail,
            ))
        (λ k ne.
          subst
            (λ b.
              IsChain (update next p (heads o)) (relink (update prev p 0) (heads o) p) 0
                (if b then p else heads k) (if b then p ∷ lists o else lists k))
            (sym (==_ne o k ne))
            (IsChain-same next prev (update next p (heads o)) (relink (update prev p 0) (heads o) p)
              0 (heads k) (lists k)
              (λ y i. sym (update_ne next p y (heads o) (IsIn-ne p y (lists k) (out k) i)))
              (λ y i. sym (
                relink_ne (update prev p 0) (heads o) p y
                  (elsewhere o k (heads o) y ne (head-list o) i)
                ∙ update_ne prev p y 0 (IsIn-ne p y (lists k) (out k) i)))
              (w.chains k)))

  -- A block that is apart from all the free ones goes on a list.
  pub push-IsLists :
      (o p : ℕ)
      → IsBlock max_pfn o p
      → ((k q : ℕ) → IsIn q (lists k) → IsApart p (size_of o) q (size_of k))
      → IsLists
          (update next p (heads o))
          (relink (update prev p 0) (heads o) p)
          (update heads o p)
          (update counts o (wrapping_add (counts o) 1))
          max_pfn
          (update lists o (p ∷ lists o))
  unfolding IsDistinct length IsApart
  push-IsLists o p b fresh = record {
    chains = pushed-IsChain o p b.non_zero (not_member o p fresh);
    distinct =
        at_order (λ k. IsDistinct (update lists o (p ∷ lists o) k)) o
          (rw (==_refl o) (not_member o p fresh o, w.distinct o))
          (λ k ne. rw (==_ne o k ne) (w.distinct k));
    placed = λ k q i. elim (IsIn-push o p k q i) [
      | inl (e, z) ↦ subst (λ m. IsBlock max_pfn m q) e (subst (λ m. IsBlock max_pfn o m) (sym z) b)
      | inr j ↦ w.placed k q j
    ];
    apart = λ m r k q i j. elim (IsIn-push o p m r i) [
      | inl (e, z) ↦ elim (IsIn-push o p k q j) [
        | inl (f, y) ↦ inl (sym e ∙ f, z ∙ sym y)
        | inr y ↦ inr (
            subst (λ t. IsApart r (size_of t) q (size_of k)) e
              (subst (λ t. IsApart t (size_of o) q (size_of k)) (sym z) (fresh k q y)))
      ]
      | inr x ↦ elim (IsIn-push o p k q j) [
        | inl (f, y) ↦ inr (
            subst (λ t. IsApart r (size_of m) q (size_of t)) f
              (subst (λ t. IsApart r (size_of m) t (size_of o)) (sym y)
                (IsApart-sym p (size_of o) r (size_of m) (fresh m r x))))
        | inr y ↦ w.apart m r k q x y
      ]
    ];
    counted =
        at_order
          (λ k.
            update counts o (wrapping_add (counts o) 1) k
            ≡ length (update lists o (p ∷ lists o) k) % 2 ^ 64)
          o (rw (==_refl o) (omega (arith, w.counted o))) (λ k ne. rw (==_ne o k ne) (w.counted k));
  }
