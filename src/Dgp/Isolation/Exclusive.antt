-- ===== src/Dgp/Isolation/Exclusive.antt =====
-- No two domains hold the same storage key: the invariant, and what a change of one domain must
-- keep of it.
use zxfoundation.Base.{
  ℕ, ◌≡◌, ◌≢◌, refl, sym, subst, ◌∙◌, Bool, true, not, ◌&&◌, ◌||◌, ℕ_discrete, ◌==◌,
}
use zxfoundation.Base.Arrays.{update, update_self, update_ne}
use zxfoundation.Dgp.Isolation.{Keys, KeyHolder, skey_code, none_skey}
use zxfoundation.Dgp.Isolation.Granting.{IsUserKey}

-- Whether a domain holds a key: it was given one and has not given it back.
abbrev pub is_holding : KeyHolder → Bool
is_holding h =
    ((skey_code h.storage_key_state == 1) || (skey_code h.storage_key_state == 2))
    && not (h.storage_key == 0)

-- The key that a domain holds is a user key in use, at the generation that the domain knows.
pub record IsHeld (s : Keys) (h : KeyHolder) : Type 0 where
  pub in_use : s.used h.storage_key ≡ true
  pub user_key : IsUserKey h.storage_key
  pub current : h.storage_key_generation ≡ s.generation h.storage_key

pub record IsExclusive (s : Keys) (t : ℕ → KeyHolder) : Type 0 where
  pub held : (p : ℕ) → is_holding (t p) ≡ true → IsHeld s (t p)
  pub distinct :
      (p q : ℕ)
      → is_holding (t p) ≡ true
      → is_holding (t q) ≡ true
      → (t p).storage_key ≡ (t q).storage_key
      → p ≡ q
  pub fresh : (p : ℕ) → (t p).storage_key_state ≡ none_skey → (t p).storage_key ≡ 0

-- To show something of every domain after one has changed: of that one, and of the others.
at_update :
    (t : ℕ → KeyHolder) (p : ℕ) (h : KeyHolder) (P : ℕ → KeyHolder → Type 0)
    → P p h
    → ((q : ℕ) → p ≢ q → P q (t q))
    → (q : ℕ) → P q (update t p h q)
at_update t p h P one rest q = elim (ℕ_discrete p q) [
  | yes same ↦ subst (λ j. P j (update t p h j)) same (rw (update_self t p h) one)
  | no ne ↦ rw (update_ne t p q h ne) (rest q ne)
]

abbrev pub SharesNoKey : ℕ → KeyHolder → ℕ → KeyHolder → Type 0
SharesNoKey p g q h =
    is_holding g ≡ true → is_holding h ≡ true → g.storage_key ≡ h.storage_key → p ≡ q

pub IsExclusive-update :
    (s s' : Keys) (t : ℕ → KeyHolder) (p : ℕ) (h : KeyHolder)
    → IsExclusive s t
    → (is_holding h ≡ true → IsHeld s' h)
    → ((q : ℕ) → p ≢ q → is_holding (t q) ≡ true → IsHeld s' (t q))
    → ((q : ℕ) → p ≢ q → SharesNoKey p h q (t q))
    → (h.storage_key_state ≡ none_skey → h.storage_key ≡ 0)
    → IsExclusive s' (update t p h)
IsExclusive-update s s' t p h e mine others apart new = record {
  held = at_update t p h (λ q g. is_holding g ≡ true → IsHeld s' g) mine others;
  distinct = λ q r.
      at_update t p h (λ q' g. SharesNoKey q' g r (update t p h r))
        (at_update t p h (SharesNoKey p h) (λ a b c. refl) apart r)
        (λ q' ne.
          at_update t p h (SharesNoKey q' (t q')) (λ a b c. sym (apart q' ne b a (sym c)))
            (λ r' ne'. e.distinct q' r') r)
        q;
  fresh =
      at_update t p h (λ q g. g.storage_key_state ≡ none_skey → g.storage_key ≡ 0) new
        (λ q ne. e.fresh q);
}

-- A domain that holds no other key than before, and holds one only if it did.
pub IsExclusive-same :
    (s : Keys) (t : ℕ → KeyHolder) (p : ℕ) (h : KeyHolder)
    → IsExclusive s t
    → (is_holding h ≡ true → is_holding (t p) ≡ true)
    → h.storage_key ≡ (t p).storage_key
    → h.storage_key_generation ≡ (t p).storage_key_generation
    → (h.storage_key_state ≡ none_skey → (t p).storage_key_state ≡ none_skey)
    → IsExclusive s (update t p h)
IsExclusive-same s t p h e kept key gen new =
    IsExclusive-update s s t p h e
      (λ a.
        let i = e.held p (kept a) in
        record {
          in_use = rw key i.in_use;
          user_key = rw key i.user_key;
          current = rw (key, gen) i.current;
        })
      (λ q ne. e.held q) (λ q ne a b c. e.distinct p q (kept a) b (sym key ∙ c))
      (λ n. key ∙ e.fresh p (new n))
