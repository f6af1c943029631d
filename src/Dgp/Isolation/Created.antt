-- ===== src/Dgp/Isolation/Created.antt =====
-- A created domain gets a key that no other domain holds.
use zxfoundation.Base.{
  ℕ, ◌≡◌, ◌≢◌, inl, inr, sym, subst, ◌∙◌, true, false, ok, err, KernelError, arith,
}
use zxfoundation.Base.Arrays.{update, update_self, update_ne}
use zxfoundation.Scoms.Kobject.{LifecycleState}
use zxfoundation.Dgp.Isolation.{
  Keys, KeyHolder, IsolationPolicy, IsolationDomain, active_skey, storage_key_generation,
  create_domain,
}
use zxfoundation.Dgp.Isolation.Granting.{IsUserKey, allocate_storage_key-Granted}
use zxfoundation.Dgp.Isolation.Exclusive.{is_holding, IsHeld, IsExclusive, IsExclusive-update}

-- The fields of a domain that `create_domain` fills, as the domain has them.
abbrev pub holder : LifecycleState → IsolationDomain → KeyHolder
holder l d = record {
  state = l;
  storage_key = d.storage_key;
  storage_key_generation = d.storage_key_generation;
  storage_key_state = d.storage_key_state;
  revocation_epoch = d.revocation_epoch;
}

-- What a created domain gets: a user key that was free, at its generation.
pub record IsCreated (s s' : Keys) (d : IsolationDomain) : Type 0 where
  pub table_after : s' ≡ record s { used = update s.used d.storage_key true }
  pub user_key : IsUserKey d.storage_key
  pub was_free : s.used d.storage_key ≡ false
  pub generation_known : d.storage_key_generation ≡ s.generation d.storage_key
  pub live : d.storage_key_state ≡ active_skey

pub create_domain-IsCreated :
    (s s' : Keys) (domain_id : ℕ) (policy : IsolationPolicy) (d : IsolationDomain)
    → create_domain s domain_id policy ≡ (ok d, s')
    → IsCreated s s' d
unfolding create_domain storage_key_generation
create_domain-IsCreated s s' domain_id policy d c =
    elim (allocate_storage_key-Granted s policy.storage_key) [
      | inr (x, a, why) ↦ absurd (ground arith)
      | inl (k, a, (low, high), free, asked) ↦
          let same : d.storage_key ≡ k = ground arith in
          record {
            table_after = ground arith;
            user_key = (omega (arith, same, low), omega (arith, same, high));
            was_free = rw same free;
            generation_known = ground arith;
            live = ground arith;
          }
    ]

pub create_domain_refused :
    (s s' : Keys) (domain_id : ℕ) (policy : IsolationPolicy) (x : KernelError)
    → create_domain s domain_id policy ≡ (err x, s')
    → s' ≡ s
unfolding create_domain
create_domain_refused s s' domain_id policy x c =
    elim (allocate_storage_key-Granted s policy.storage_key) [
      | inr (y, a, why) ↦ ground arith
      | inl (k, a, user, free, asked) ↦ ground arith
    ]

pub create_domain-IsExclusive :
    (s s' : Keys) (t : ℕ → KeyHolder) (p : ℕ) (d : IsolationDomain) (l : LifecycleState)
    → IsExclusive s t
    → IsCreated s s' d
    → IsExclusive s' (update t p (holder l d))
create_domain-IsExclusive s s' t p d l e c = rw c.table_after (
    IsExclusive-update s (record s { used = update s.used d.storage_key true }) t p (holder l d) e
      (λ a. record {
        in_use = update_self s.used d.storage_key true;
        user_key = c.user_key;
        current = c.generation_known;
      })
      (λ q ne a.
        let i = e.held q a in
        record {
          in_use = update_ne s.used d.storage_key (t q).storage_key true (other q a i) ∙ i.in_use;
          user_key = i.user_key;
          current = i.current;
        })
      (λ q ne a b k. absurd (other q b (e.held q b) k)) (λ n. absurd (ground (arith, c.live))))
  where
    other : (q : ℕ) → is_holding (t q) ≡ true → IsHeld s (t q) → d.storage_key ≢ (t q).storage_key
    other q a i k =
        let u = subst (λ x. s.used x ≡ true) (sym k) i.in_use in ground (arith, c.was_free)
