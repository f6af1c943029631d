-- ===== src/Memory/Pmm/Without.antt =====
-- A list without one of its blocks.
use zxfoundation.Base.{
  ℕ, suc, ◌≡◌, ◌≢◌, ◌⊎◌, inl, inr, refl, ap, ◌∙◌, subst, true, false, List, [], ◌∷◌, if◌then◌else◌,
  ◌==◌, ==_refl, ==_ne, ℕ_discrete,
}
use zxfoundation.Base.Sums.{length}
use zxfoundation.Memory.Pmm.Chain.{IsIn, IsDistinct, without}

pub IsIn-without : (p y : ℕ) (xs : List ℕ) → IsIn p (without y xs) → IsIn p xs
unfolding IsIn without
IsIn-without p y [] i = absurd i
IsIn-without p y (x ∷ xs) i = elim (ℕ_discrete y x) [
  | yes e ↦
      inr (
        subst (λ b. IsIn p (if b then xs else x ∷ without y xs)) (ap (λ k. k == x) e ∙ ==_refl x) i)
  | no ne ↦
      keep (λ j. IsIn-without p y xs j)
        (subst (λ b. IsIn p (if b then xs else x ∷ without y xs)) (==_ne y x ne) i)
]
  where
    keep :
        (IsIn p (without y xs) → IsIn p xs) → (p ≡ x) ⊎ IsIn p (without y xs) → (p ≡ x) ⊎ IsIn p xs
    keep f (inl e) = inl e
    keep f (inr j) = inr (f j)

-- Taking `y` out of a list without repetition.
pub without-law :
    (y : ℕ) (xs : List ℕ)
    → IsDistinct xs
    → IsIn y xs
    → IsDistinct (without y xs)
      × (IsIn y (without y xs) → ⊥)
      × (length xs ≡ suc (length (without y xs)))
unfolding IsDistinct IsIn without length
without-law y [] d i = absurd i
without-law y (x ∷ xs) (out, d) i = elim (ℕ_discrete y x) [
  | yes e ↦
      let h : (y == x) ≡ true = rw (e, ==_refl x) in
      rw h (d, λ j. out (subst (λ k. IsIn k xs) e j), refl)
  | no ne ↦
      let h : (y == x) ≡ false = ==_ne y x ne in
      let rest = without-law y xs d (other i ne) in
      rw h ((λ j. out (IsIn-without x y xs j), rest.0), gone ne rest.1, ap suc rest.2)
]
  where
    other : (y ≡ x) ⊎ IsIn y xs → y ≢ x → IsIn y xs
    other (inl e) ne = absurd (ne e)
    other (inr j) ne = j

    gone : y ≢ x → (IsIn y (without y xs) → ⊥) → (y ≡ x) ⊎ IsIn y (without y xs) → ⊥
    gone ne f (inl e) = ne e
    gone ne f (inr j) = f j
