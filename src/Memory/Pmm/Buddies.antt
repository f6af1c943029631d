-- ===== src/Memory/Pmm/Buddies.antt =====
-- A block and its buddy, the two halves of the next larger block, and the test of free_locked.
use zxfoundation.Base.{
  ℕ, suc, ◌+◌, ◌-◌, ◌*◌, ◌/◌, ◌%◌, ◌^◌, ◌≤◌, ◌<◌, ◌≡◌, ◌⊎◌, inl, inr, ap, ◌∙◌, subst, true, false,
  arith, ◌==◌, ℕ_discrete, min, ok, bit_and, Result-cases,
}
use native.Mathlib.Nat.{mul-div_cancel}
use zxfoundation.Memory.Pmm.{
  ZoneState, FrameDesc, page_size, max_order, size_of, ff_offline, desc_of,
}
use zxfoundation.Memory.Pmm.Lists.{IsApart, IsBlock, size-pos}
use zxfoundation.Memory.Pmm.Zone.{IsFree, desc_of-ok}
use zxfoundation.Memory.Pmm.Freeing.{buddy_of, merge, merging, merging_of, merging_with}

-- The address is a multiple of the size of its order.
unfoldable pub IsAligned : ℕ → ℕ → Type 0
IsAligned order p = (k : ℕ) × (p ≡ k * size_of order)

-- The block of order `order + 1` that has the block in it, by the block's buddy.
pub record IsHalved (order p : ℕ) : Type 0 where
  pub start_aligned : IsAligned (suc order) (min p (buddy_of p order))
  pub buddy_aligned : IsAligned order (buddy_of p order)
  pub halves : ((buddy_of p order ≡ p + size_of order) ⊎ (buddy_of p order + size_of order ≡ p))

quotient : (n p k : ℕ) → 0 < n → p ≡ k * n → p / n ≡ k
quotient n p k h e = ap (λ t. t / n) e ∙ mul-div_cancel k h

buddy-even :
    (order p k : ℕ) → p ≡ k * size_of order → k % 2 ≡ 0 → buddy_of p order ≡ p + size_of order
unfolding buddy_of
buddy-even order p k e h =
    let q = quotient (size_of order) p k (size-pos order) e in
    let t : (p / size_of order % 2 == 0) ≡ true = ground (arith, q, h) in rw t

buddy-odd :
    (order p k : ℕ) → p ≡ k * size_of order → k % 2 ≡ 1 → (buddy_of p order ≡ p - size_of order)
unfolding buddy_of
buddy-odd order p k e h =
    let q = quotient (size_of order) p k (size-pos order) e in
    let t : (p / size_of order % 2 == 0) ≡ false = ground (arith, q, h) in rw t

-- The arithmetic of the two cases, `n` being the size.
even_start : (n p k b : ℕ) → p ≡ k * n → k % 2 ≡ 0 → b ≡ p + n → min p b ≡ k / 2 * (2 * n)
even_start n p k b e h f =
    let half : k ≡ 2 * (k / 2) = omega (arith, h) in
    let q : p ≡ 2 * (k / 2) * n = e ∙ ap (λ t. t * n) half in omega (arith, q, f)

odd_start : (n p k b : ℕ) → p ≡ k * n → k % 2 ≡ 1 → b ≡ p - n → min p b ≡ k / 2 * (2 * n)
odd_start n p k b e h f =
    let half : k ≡ suc (2 * (k / 2)) = omega (arith, h) in
    let q : p ≡ suc (2 * (k / 2)) * n = e ∙ ap (λ t. t * n) half in omega (arith, q, f)

odd_buddy : (n p k : ℕ) → p ≡ k * n → k % 2 ≡ 1 → (p - n ≡ (k - 1) * n) × (n ≤ p)
odd_buddy n p k e h =
    let half : k ≡ suc (k - 1) = omega (arith, h) in
    let q : p ≡ suc (k - 1) * n = e ∙ ap (λ t. t * n) half in (omega (arith, q), omega (arith, q))

next_size : (order m : ℕ) → m * (2 * size_of order) ≡ m * size_of (suc order)
next_size order m =
    ap (λ t. m * t) (let e : 2 * size_of order ≡ size_of (suc order) = ground arith in e)

pub aligned-IsHalved : (order p : ℕ) → IsAligned order p → IsHalved order p
unfolding IsAligned
aligned-IsHalved order p (k, e) = elim (ℕ_discrete (k % 2) 0) [
  | yes h ↦
      let b = buddy-even order p k e h in
      record {
        start_aligned = (
          k / 2,
          even_start (size_of order) p k (buddy_of p order) e h b ∙ next_size order (k / 2),
        );
        buddy_aligned = (suc k, b ∙ omega (arith, e));
        halves = inl b;
      }
  | no h ↦
      let odd : k % 2 ≡ 1 = omega (arith, h) in
      let b = buddy-odd order p k e odd in
      let law = odd_buddy (size_of order) p k e odd in
      record {
        start_aligned = (
          k / 2,
          odd_start (size_of order) p k (buddy_of p order) e odd b ∙ next_size order (k / 2),
        );
        buddy_aligned = (k - 1, b ∙ law.0);
        halves = inr (omega (arith, b, law.1));
      }
]

pub aligned-page : (order p : ℕ) → IsAligned order p → p % page_size ≡ 0
unfolding IsAligned
aligned-page order p (k, e) =
    let q : p ≡ page_size * (k * 2 ^ order) = e ∙ omega arith in omega (arith, q)

-- A buddy that is merged has the descriptor of a free block of the order, which is not offline.
pub record IsMergeable (node order : ℕ) (s : ZoneState) (b : ℕ) : Type 0 where
  pub in_table : desc_of s b ≡ ok (b / page_size)
  pub free : IsFree node order (s.frames (b / page_size))
  pub online : bit_and (s.frames (b / page_size)).flags ff_offline ≡ 0

merging_with-law :
    (node order : ℕ) (d : FrameDesc)
    → order ≤ max_order
    → merging_with node order d ≡ merge
    → IsFree node order d × (bit_and d.flags ff_offline ≡ 0)
unfolding merging_with
merging_with-law node order d h e = (
  record { at_order = ground arith; by_buddy = ground arith; on_node = ground arith },
  ground arith,
)

pub merging-IsMergeable :
    (node zone order p : ℕ) (s : ZoneState)
    → order ≤ max_order
    → merging node zone order p s ≡ merge
    → IsMergeable node order s (buddy_of p order)
unfolding merging merging_of
merging-IsMergeable node zone order p s h e = elim (Result-cases (desc_of s (buddy_of p order))) [
  | inl (x, z) ↦ absurd (ground arith)
  | inr (pfn, z) ↦
      let at = desc_of-ok s (buddy_of p order) pfn z in
      let m : merging_with node order (s.frames pfn) ≡ merge = ground arith in
      let law =
        merging_with-law node order (s.frames (buddy_of p order / page_size)) h
          (subst (λ t. merging_with node order (s.frames t) ≡ merge) at m) in
      record {
        in_table = subst (λ t. desc_of s (buddy_of p order) ≡ ok t) at z;
        free = law.0;
        online = law.1;
      }
]

-- What is apart from both halves is apart from the whole.
pub IsApart-whole :
    (order p b m q : ℕ)
    → (b ≡ p + size_of order) ⊎ (b + size_of order ≡ p)
    → 0 < m
    → IsApart p (size_of order) q m
    → IsApart b (size_of order) q m
    → IsApart (min p b) (size_of (suc order)) q m
unfolding IsApart
IsApart-whole order p b m q (inl e) h (inl x) (inl y) = inl (ground (arith, e, h, x, y))
IsApart-whole order p b m q (inl e) h (inl x) (inr y) = absurd (ground (arith, e, h, x, y))
IsApart-whole order p b m q (inl e) h (inr x) y = inr (ground (arith, e, h, x))
IsApart-whole order p b m q (inr e) h (inl x) (inl y) = inl (ground (arith, e, h, x, y))
IsApart-whole order p b m q (inr e) h x (inr y) = inr (ground (arith, e, h, y))
IsApart-whole order p b m q (inr e) h (inr x) (inl y) = absurd (ground (arith, e, h, x, y))

pub whole-IsBlock :
    (max_pfn order p : ℕ)
    → suc order ≤ max_order
    → IsHalved order p
    → IsBlock max_pfn order p
    → IsBlock max_pfn order (buddy_of p order)
    → IsBlock max_pfn (suc order) (min p (buddy_of p order))
whole-IsBlock max_pfn order p h v b c = record {
  in_order = h;
  non_zero = ground (arith, b.non_zero, c.non_zero);
  aligned = ground (arith, b.aligned, c.aligned);
  inside = elim v.halves [
    | inl e ↦ ground (arith, e, c.inside)
    | inr e ↦ ground (arith, e, b.inside)
  ];
}
