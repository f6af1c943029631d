-- ===== src/Memory/Pmm/Chain.antt =====
-- A free list in memory, doubly linked, as a list of addresses, under the operations of buddy_zone.
use zxfoundation.Base.{
  ℕ, ◌≡◌, ◌≢◌, ◌⊎◌, inl, inr, refl, sym, ap, ◌∙◌, subst, true, false, List, [], ◌∷◌, arith,
  if◌then◌else◌, ◌==◌, ==_refl, ==_ne, ℕ_discrete,
}
use zxfoundation.Base.Arrays.{update}

unfoldable pub IsIn : ℕ → List ℕ → Type 0
IsIn p [] = ⊥
IsIn p (x ∷ xs) = (p ≡ x) ⊎ IsIn p xs

unfoldable pub IsDistinct : List ℕ → Type 0
IsDistinct [] = Unit
IsDistinct (x ∷ xs) = (IsIn x xs → ⊥) × IsDistinct xs

-- The list that starts at `head` and whose first block links back to `before`; 0 ends it.
unfoldable pub IsChain : (next prev : ℕ → ℕ) → ℕ → ℕ → List ℕ → Type 0
IsChain next prev before head [] = head ≡ 0
IsChain next prev before head (x ∷ xs) =
    (head ≡ x) × (x ≢ 0) × (prev x ≡ before) × IsChain next prev x (next x) xs

unfoldable pub without : ℕ → List ℕ → List ℕ
without p [] = []
without p (x ∷ xs) = let rest = without p xs in if p == x then xs else x ∷ rest

pub IsChain-same :
    (n p m q : ℕ → ℕ) (before head : ℕ) (xs : List ℕ)
    → ((y : ℕ) → IsIn y xs → n y ≡ m y)
    → ((y : ℕ) → IsIn y xs → p y ≡ q y)
    → IsChain n p before head xs
    → IsChain m q before head xs
unfolding IsChain IsIn
IsChain-same n p m q before head [] nexts prevs c = c
IsChain-same n p m q before head (x ∷ xs) nexts prevs (at, non_zero, back, rest) = (
  at,
  non_zero,
  sym (prevs x (inl refl)) ∙ back,
  subst (λ h. IsChain m q x h xs) (nexts x (inl refl))
      (IsChain-same n p m q x (n x) xs (λ y i. nexts y (inr i)) (λ y i. prevs y (inr i)) rest),
)

-- `head->prev_phys = v`, where there is a head.
abbrev pub relink : (ℕ → ℕ) → ℕ → ℕ → ℕ → ℕ
relink prev head v = if head == 0 then prev else update prev head v

pub relink_ne : (p : ℕ → ℕ) (head v y : ℕ) → head ≢ y → relink p head v y ≡ p y
relink_ne p head v y ne = elim (ℕ_discrete head 0) [
  | yes e ↦ let t : (head == 0) ≡ true = ground arith in rw t
  | no e ↦ let t : (head == 0) ≡ false = ground arith in rw (t, ==_ne head y ne)
]

relink_self : (p : ℕ → ℕ) (head v : ℕ) → head ≢ 0 → relink p head v head ≡ v
relink_self p head v ne = rw (==_ne head 0 ne, ==_refl head)

pub IsIn-ne : (x y : ℕ) (xs : List ℕ) → (IsIn x xs → ⊥) → IsIn y xs → x ≢ y
IsIn-ne x y xs out i e = out (subst (λ z. IsIn z xs) (sym e) i)

pub IsChain-relink :
    (n p : ℕ → ℕ) (before v head : ℕ) (xs : List ℕ)
    → IsDistinct xs
    → IsChain n p before head xs
    → IsChain n (relink p head v) v head xs
unfolding IsChain IsDistinct
IsChain-relink n p before v head [] d c = c
IsChain-relink n p before v head (x ∷ xs) (out, d) (at, non_zero, back, rest) =
    let here = ap (λ h. relink p h v x) at ∙ relink_self p x v non_zero in
    (
      at,
      non_zero,
      here,
      IsChain-same n p n (relink p head v) x (n x) xs (λ y i. refl)
          (λ y i. sym (relink_ne p head v y (λ e. IsIn-ne x y xs out i (sym at ∙ e)))) rest,
    )

-- The first link of a chain, which a block further on does not share.
pub head-IsIn :
    (n p : ℕ → ℕ) (before head : ℕ) (xs : List ℕ)
    → IsChain n p before head xs
    → (head ≡ 0) ⊎ IsIn head xs
unfolding IsChain IsIn
head-IsIn n p before head [] c = inl c
head-IsIn n p before head (x ∷ xs) (at, non_zero, back, rest) = inr (inl at)

pub next-IsIn :
    (n p : ℕ → ℕ) (before head y : ℕ) (xs : List ℕ)
    → IsChain n p before head xs
    → IsIn y xs
    → (n y ≡ 0) ⊎ IsIn (n y) xs
unfolding IsChain IsIn
next-IsIn n p before head y [] c i = absurd i
next-IsIn n p before head y (x ∷ xs) (at, non_zero, back, rest) (inl e) =
    elim (head-IsIn n p x (n x) xs rest) [
      | inl z ↦ inl (ap n e ∙ z)
      | inr j ↦ inr (inr (subst (λ k. IsIn k xs) (ap n (sym e)) j))
    ]
next-IsIn n p before head y (x ∷ xs) (at, non_zero, back, rest) (inr i) =
    elim (next-IsIn n p x (n x) y xs rest i) [ inl z ↦ inl z | inr j ↦ inr (inr j) ]

pub prev-IsIn :
    (n p : ℕ → ℕ) (before head y : ℕ) (xs : List ℕ)
    → IsChain n p before head xs
    → IsIn y xs
    → (p y ≡ before) ⊎ ((IsIn (p y) xs) × (p y ≢ 0))
unfolding IsChain IsIn
prev-IsIn n p before head y [] c i = absurd i
prev-IsIn n p before head y (x ∷ xs) (at, non_zero, back, rest) (inl e) = inl (ap p e ∙ back)
prev-IsIn n p before head y (x ∷ xs) (at, non_zero, back, rest) (inr i) =
    elim (prev-IsIn n p x (n x) y xs rest i) [
      | inl z ↦ inr (inl z, λ e. non_zero (sym z ∙ e))
      | inr (j, ne) ↦ inr (inr j, ne)
    ]

-- `prev->next_phys = v`, where there is a previous block.
abbrev pub skip : (ℕ → ℕ) → ℕ → ℕ → ℕ → ℕ
skip next prev v = if prev == 0 then next else update next prev v

pub skip_ne : (n : ℕ → ℕ) (prev v y : ℕ) → prev ≢ y → skip n prev v y ≡ n y
skip_ne n prev v y ne = relink_ne n prev v y ne

skip_at : (n : ℕ → ℕ) (prev v x : ℕ) → x ≢ 0 → skip n prev v x ≡ (if prev == x then v else n x)
skip_at n prev v x non_zero = elim (ℕ_discrete prev x) [
  | yes e ↦
      let t : (prev == x) ≡ true = rw (e, ==_refl x) in
      let self = relink_self n prev v (λ z. non_zero (sym e ∙ z)) in
      rw t (ap (λ k. skip n prev v k) (sym e) ∙ self)
  | no ne ↦ rw (==_ne prev x ne) (skip_ne n prev v x ne)
]

IsChain-skip :
    (n p : ℕ → ℕ) (before v head : ℕ) (prev : ℕ) (xs : List ℕ)
    → (IsIn prev xs → ⊥)
    → IsChain n p before head xs
    → IsChain (skip n prev v) p before head xs
IsChain-skip n p before v head prev xs out c =
    IsChain-same n p (skip n prev v) p before head xs
      (λ y i. sym (skip_ne n prev v y (IsIn-ne prev y xs out i))) (λ y i. refl) c

-- A block is unlinked wherever it stands; `before` is what the chain's first block links back to.
pub IsChain-without :
    (n p : ℕ → ℕ) (before head y : ℕ) (xs : List ℕ)
    → IsDistinct xs
    → IsIn y xs
    → (IsIn before xs → ⊥)
    → IsChain n p before head xs
    → IsChain
        (skip n (p y) (n y))
        (relink p (n y) (p y))
        before
        (if p y == before then n y else head)
        (without y xs)
unfolding IsDistinct IsIn IsChain without
IsChain-without n p before head y [] d i outside c = absurd i
IsChain-without n p before head y (x ∷ xs) (out, d) i outside (at, non_zero, back, rest) =
    elim (ℕ_discrete y x) [
      | yes e ↦
          let prev : p y ≡ before = ap p e ∙ back in
          let t : (p y == before) ≡ true = rw (prev, ==_refl before) in
          let h : (y == x) ≡ true = rw (e, ==_refl x) in
          let tail = subst (λ k. IsChain n p x k xs) (ap n (sym e)) rest in
          let linked =
            subst (λ k. IsChain n (relink p (n y) k) k (n y) xs) (sym prev)
              (IsChain-relink n p x before (n y) xs d tail) in
          let clear = subst (λ k. IsIn k xs → ⊥) (sym prev) (λ j. outside (inr j)) in
          let skipped =
            IsChain-skip n (relink p (n y) (p y)) (p y) (n y) (n y) (p y) xs clear linked in
          rw (h, t)
            (subst (λ k. IsChain (skip n (p y) (n y)) (relink p (n y) (p y)) k (n y) xs) prev
              skipped)
      | no ne ↦
          let inner = other i ne in
          let t : (p y == before) ≡ false = ==_ne (p y) before (away inner) in
          let h : (y == x) ≡ false = ==_ne y x ne in
          let tail = IsChain-without n p x (n x) y xs d inner out rest in
          rw (h, t)
            (
              at,
              non_zero,
              relink_ne p (n y) (p y) x (unlinked inner) ∙ back,
              subst (λ k. IsChain (skip n (p y) (n y)) (relink p (n y) (p y)) x k (without y xs))
                  (sym (skip_at n (p y) (n y) x non_zero)) tail,
            )
    ]
  where
    other : (y ≡ x) ⊎ IsIn y xs → y ≢ x → IsIn y xs
    other (inl e) ne = absurd (ne e)
    other (inr j) ne = j

    away : IsIn y xs → p y ≢ before
    away j = elim (prev-IsIn n p x (n x) y xs rest j) [
      | inl z ↦ λ e. outside (inl (sym e ∙ z))
      | inr (k, q) ↦ λ e. outside (inr (subst (λ w. IsIn w xs) e k))
    ]

    unlinked : IsIn y xs → n y ≢ x
    unlinked j = elim (next-IsIn n p x (n x) y xs rest j) [
      | inl z ↦ λ e. non_zero (sym e ∙ z)
      | inr k ↦ λ e. out (subst (λ w. IsIn w xs) e k)
    ]
