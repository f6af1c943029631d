-- ===== src/Memory/Pmm/RoundTrip.antt =====
-- alloc_locked and free_locked one after the other.
use zxfoundation.Base.{
  ℕ, zero, suc, ◌+◌, ◌-◌, ◌*◌, ◌^◌, ◌≤◌, ◌≡◌, ◌⊎◌, inl, inr, sym, ap, ◌∙◌, subst, List, arith, done,
}
use native.Mathlib.Nat.{pow-suc}
use zxfoundation.Memory.Pmm.{ZoneState, max_order, alloc_locked}
use zxfoundation.Memory.Pmm.Chain.{IsIn}
use zxfoundation.Memory.Pmm.Lists.{size-pos}
use zxfoundation.Memory.Pmm.Zone.{IsZone, IsExactBut, pages_of}
use zxfoundation.Memory.Pmm.Freeing.{free_locked}
use zxfoundation.Memory.Pmm.Buddies.{IsAligned}
use zxfoundation.Memory.Pmm.Free.{free_locked-IsReturned}
use zxfoundation.Memory.Pmm.Alloc.{alloc_locked-IsTakenExact}

-- The zone is in order, with as many free pages as before.
pub record IsRestored (node : ℕ) (before : ℕ → List ℕ) (t : ZoneState) : Type 0 where
  pub lists : ℕ → List ℕ
  pub zone : IsZone node t lists
  pub same_pages : pages_of lists ≡ pages_of before

twice : (a b : ℕ) → a * b * 2 ≡ a * (b * 2)
twice a b = omega arith

pow-sum : (a b : ℕ) → 2 ^ (a + b) ≡ 2 ^ a * 2 ^ b
pow-sum a zero = let e : a + 0 ≡ a = omega arith in rw e (omega arith)
pow-sum a (suc b) =
    let e : a + suc b ≡ suc (a + b) = omega arith in
    ap (λ n. 2 ^ n) e
    ∙ pow-suc 2 (a + b)
    ∙ ap (λ n. n * 2) (pow-sum a b)
    ∙ twice (2 ^ a) (2 ^ b)
    ∙ ap (λ n. 2 ^ a * n) (sym (pow-suc 2 b))

rearranged : (k a b : ℕ) → k * (4096 * (a * b)) ≡ k * b * (4096 * a)
rearranged k a b = omega arith

-- A multiple of a larger size is one of a smaller size.
pub IsAligned-smaller : (order more p : ℕ) → IsAligned (order + more) p → IsAligned order p
unfolding IsAligned
IsAligned-smaller order more p (k, e) = (
  k * 2 ^ more,
  e ∙ ap (λ n. k * (4096 * n)) (pow-sum order more) ∙ rearranged k (2 ^ order) (2 ^ more),
)

-- In a zone in order whose free blocks are aligned to their sizes, and where every frame with the
-- descriptor of a free block is on its list, a block that alloc_locked gives and free_locked takes
-- back leaves a zone in order with as many free pages as before. Where alloc_locked gives none, the
-- zone is as it was.
alloc_locked-free_locked :
    (order zone node : ℕ) (s : ZoneState) (before : ℕ → List ℕ)
    → IsZone node s before
    → order ≤ max_order
    → ((k q : ℕ) → IsIn q (before k) → IsAligned k q)
    → IsExactBut (λ q. ⊥) node s before
    → (t : ZoneState) × ((phys : ℕ) × ((alloc_locked order node s ≡ done (t, phys))
          × (((phys ≡ 0) × (t ≡ s)) ⊎ IsRestored node before (free_locked phys order zone node t))))
alloc_locked-free_locked order zone node s before w h aligned exact =
    let found = alloc_locked-IsTakenExact (λ q. ⊥) order node s before w h exact in
    let t = found.0 in
    let phys = found.1.0 in
    (
      t,
      (
        phys,
        (
          found.1.1.0,
          elim found.1.1.1 [
            | inl none ↦ inl (none.0, none.1)
            | inr (taken, exact_after) ↦
                let more : order + (taken.from_order - order) ≡ taken.from_order =
                  omega (arith, taken.large_enough) in
                let a = IsAligned-smaller order (taken.from_order - order) phys (
                  subst (λ o. IsAligned o phys) (sym more)
                    (aligned taken.from_order phys taken.was_free)) in
                let back =
                  free_locked-IsReturned phys order zone node t taken.lists taken.zone taken.block a
                    taken.new
                    (λ k q page in_table free. elim (exact_after k q page in_table free) [
                      | inl i ↦ inl i
                      | inr x ↦ elim x [
                        | inl no_frame ↦ absurd no_frame
                        | inr at ↦ inr (omega (arith, at), omega (arith, at, size-pos order))
                      ]
                    ]) in
                inr (record {
                  lists = back.lists;
                  zone = back.zone;
                  same_pages = back.balance ∙ taken.balance;
                })
          ],
        ),
      ),
    )
