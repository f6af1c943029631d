-- ===== src/Dgp/Isolation/Teardown.antt =====
-- Giving a storage key back leaves every other domain's key as it is.
use zxfoundation.Base.{
  ℕ, ◌≡◌, ◌≢◌, ◌⊎◌, inl, inr, refl, sym, ◌∙◌, true, false, ok, arith, ℕ_discrete, Bool-cases,
}
use zxfoundation.Base.Arrays.{update, update_ne}
use zxfoundation.Dgp.Isolation.{
  Keys, KeyHolder, skey_code, none_skey, reusable, release_storage_key,
  begin_storage_key_revocation, complete_storage_key_revocation, destroy_domain, generation_bump,
}
use zxfoundation.Dgp.Isolation.Exclusive.{
  is_holding, IsExclusive, IsExclusive-update, IsExclusive-same,
}

-- What `IsExclusive-same` asks of the part of a domain that changes.
abbrev pub HoldsNoMore : KeyHolder → KeyHolder → Type 0
HoldsNoMore g h =
    (is_holding h ≡ true → is_holding g ≡ true)
    × (h.storage_key ≡ g.storage_key)
    × (h.storage_key_generation ≡ g.storage_key_generation)
    × (h.storage_key_state ≡ none_skey → g.storage_key_state ≡ none_skey)

begin-HoldsNoMore :
    (h : KeyHolder)
    → (h.storage_key_state ≡ none_skey → h.storage_key ≡ 0)
    → HoldsNoMore h (begin_storage_key_revocation h).1
unfolding begin_storage_key_revocation
begin-HoldsNoMore h f = ground arith

pub begin-IsExclusive :
    (s : Keys) (t : ℕ → KeyHolder) (p : ℕ)
    → IsExclusive s t
    → IsExclusive s (update t p (begin_storage_key_revocation (t p)).1)
begin-IsExclusive s t p e =
    let (a, b, c, d) = begin-HoldsNoMore (t p) (e.fresh p) in
    IsExclusive-same s t p (begin_storage_key_revocation (t p)).1 e a b c d

release_storage_key_other :
    (s : Keys) (key j : ℕ)
    → key ≢ j
    → ((release_storage_key s key).1.used j ≡ s.used j)
      × ((release_storage_key s key).1.generation j ≡ s.generation j)
unfolding release_storage_key
release_storage_key_other s key j ne = elim (Bool-cases (s.used key)) [
  | inl on ↦ ground (arith, update_ne s.used key j false ne)
  | inr off ↦ ground arith
]

-- A completed revocation gives back a key that the domain held, and touches no other key; or the
-- table stays as it is.
complete-cases :
    (s : Keys) (h : KeyHolder)
    → (((complete_storage_key_revocation s h).2 ≡ s)
        × HoldsNoMore h (complete_storage_key_revocation s h).1)
      ⊎ ((is_holding h ≡ true)
          × ((complete_storage_key_revocation s h).1.storage_key_state ≡ reusable)
          × ((j : ℕ)
              → h.storage_key ≢ j
              → ((complete_storage_key_revocation s h).2.used j ≡ s.used j)
                × ((complete_storage_key_revocation s h).2.generation j ≡ s.generation j)))
unfolding complete_storage_key_revocation generation_bump
complete-cases s h = elim (Bool-cases (is_holding h)) [
  | inr off ↦ inl (ground arith)
  | inl on ↦ elim (ℕ_discrete (skey_code h.storage_key_state) 1) [
    | yes active ↦ inl (ground arith)
    | no other ↦ inr (
      on,
      ground arith,
      λ j ne. let (u, g) = release_storage_key_other s h.storage_key j ne in ground arith,
    )
  ]
]

given_back : (h : KeyHolder) → h.storage_key_state ≡ reusable → is_holding h ≡ true → ⊥
given_back h gone on = ground arith

destroy_domain-cases :
    (s : Keys) (h : KeyHolder)
    → (destroy_domain s h ≡ (ok tt, h, s))
      ⊎ (destroy_domain s h ≡ complete_storage_key_revocation s (begin_storage_key_revocation h).1)
unfolding destroy_domain begin_storage_key_revocation
destroy_domain-cases s h = ground arith

-- Completing a revocation for a domain that has changed its part since, and holds no more.
pub complete-IsExclusive :
    (s : Keys) (t : ℕ → KeyHolder) (p : ℕ) (g : KeyHolder)
    → IsExclusive s t
    → HoldsNoMore (t p) g
    → IsExclusive
        (complete_storage_key_revocation s g).2
        (update t p (complete_storage_key_revocation s g).1)
complete-IsExclusive s t p g e (keeps, key, gen, new) = elim (complete-cases s g) [
  | inl (same, (a, b, c, d)) ↦ rw same (
      IsExclusive-same s t p (complete_storage_key_revocation s g).1 e (λ x. keeps (a x)) (b ∙ key)
        (c ∙ gen) (λ x. new (d x)))
  | inr (on, gone, others) ↦
      let after = (complete_storage_key_revocation s g).1 in
      IsExclusive-update s (complete_storage_key_revocation s g).2 t p after e
        (λ a. absurd (given_back after gone a))
        (λ q ne a.
          let i = e.held q a in
          let (u, v) =
            others (t q).storage_key (λ k. ne (e.distinct p q (keeps on) a (sym key ∙ k))) in
          record { in_use = u ∙ i.in_use; user_key = i.user_key; current = i.current ∙ sym v })
        (λ q ne a. absurd (given_back after gone a)) (λ n. absurd (ground arith))
]

pub destroy_domain-IsExclusive :
    (s : Keys) (t : ℕ → KeyHolder) (p : ℕ)
    → IsExclusive s t
    → IsExclusive (destroy_domain s (t p)).2 (update t p (destroy_domain s (t p)).1)
destroy_domain-IsExclusive s t p e = elim (destroy_domain-cases s (t p)) [
  | inl same ↦ rw same (IsExclusive-same s t p (t p) e (λ x. x) refl refl (λ x. x))
  | inr both ↦ rw both (
      complete-IsExclusive s t p (begin_storage_key_revocation (t p)).1 e
        (begin-HoldsNoMore (t p) (e.fresh p)))
]
