-- ===== src/Dgp/Isolation/History.antt =====
-- Histories of domains that are created, revoked and destroyed.
use zxfoundation.Base.{ℕ, ◌≡◌, ◌≢◌, refl, true, false, ok, err, KernelError, arith}
use zxfoundation.Base.Arrays.{update}
use zxfoundation.Scoms.Kobject.{LifecycleState}
use zxfoundation.Dgp.Isolation.{
  Keys, KeyHolder, IsolationPolicy, IsolationDomain, none_skey, init, create_domain,
  begin_storage_key_revocation, complete_storage_key_revocation, destroy_domain,
}
use zxfoundation.Dgp.Isolation.Exclusive.{is_holding, IsHeld, IsExclusive, IsExclusive-same}
use zxfoundation.Dgp.Isolation.Teardown.{
  begin-IsExclusive, complete-IsExclusive, destroy_domain-IsExclusive,
}
use zxfoundation.Dgp.Isolation.Created.{
  holder, create_domain-IsCreated, create_domain_refused, create_domain-IsExclusive,
}

-- One call, on the domain at an index. `relabelled` is other code, which moves a domain through its
-- lifecycle; a created domain takes a place in which no key is held.
pub data Step : Keys → (ℕ → KeyHolder) → Keys → (ℕ → KeyHolder) → Type 0 where
  created :
      {s s' : Keys} {t : ℕ → KeyHolder} (p domain_id : ℕ) (policy : IsolationPolicy)
      (d : IsolationDomain) (l : LifecycleState)
      → is_holding (t p) ≡ false
      → create_domain s domain_id policy ≡ (ok d, s')
      → Step s t s' (update t p (holder l d))
  refused :
      {s s' : Keys} {t : ℕ → KeyHolder} (domain_id : ℕ) (policy : IsolationPolicy) (e : KernelError)
      → create_domain s domain_id policy ≡ (err e, s')
      → Step s t s' t
  begun :
      {s : Keys} {t : ℕ → KeyHolder} (p : ℕ)
      → Step s t s (update t p (begin_storage_key_revocation (t p)).1)
  completed :
      {s : Keys} {t : ℕ → KeyHolder} (p : ℕ)
      → Step s t
          (complete_storage_key_revocation s (t p)).2
          (update t p (complete_storage_key_revocation s (t p)).1)
  destroyed :
      {s : Keys} {t : ℕ → KeyHolder} (p : ℕ)
      → Step s t (destroy_domain s (t p)).2 (update t p (destroy_domain s (t p)).1)
  relabelled :
      {s : Keys} {t : ℕ → KeyHolder} (p : ℕ) (l : LifecycleState)
      → Step s t s (update t p (record (t p) { state = l }))

pub data Reach : Keys → (ℕ → KeyHolder) → Type 0 where
  booted :
      (s : Keys) (t : ℕ → KeyHolder)
      → ((p : ℕ) → (t p).storage_key_state ≡ none_skey)
      → ((p : ℕ) → (t p).storage_key ≡ 0)
      → Reach (init s) t
  next : {s s' : Keys} {t t' : ℕ → KeyHolder} → Reach s t → Step s t s' t' → Reach s' t'

Step-IsExclusive :
    {s : Keys} {t : ℕ → KeyHolder} {s' : Keys} {t' : ℕ → KeyHolder}
    → Step s t s' t'
    → IsExclusive s t
    → IsExclusive s' t'
Step-IsExclusive {s} {t} {s'} {t'} (created p domain_id policy d l off c) e =
    create_domain-IsExclusive s s' t p d l e (create_domain-IsCreated s s' domain_id policy d c)
Step-IsExclusive {s} {t} {s'} {t'} (refused domain_id policy x c) e =
    rw (create_domain_refused s s' domain_id policy x c) e
Step-IsExclusive {s} {t} {s'} {t'} (begun p) e = begin-IsExclusive s t p e
Step-IsExclusive {s} {t} {s'} {t'} (completed p) e =
    complete-IsExclusive s t p (t p) e (λ x. x, refl, refl, λ x. x)
Step-IsExclusive {s} {t} {s'} {t'} (destroyed p) e = destroy_domain-IsExclusive s t p e
Step-IsExclusive {s} {t} {s'} {t'} (relabelled p l) e =
    IsExclusive-same s t p (record (t p) { state = l }) e (λ x. x) refl refl (λ x. x)

Reach-IsExclusive : {s : Keys} {t : ℕ → KeyHolder} → Reach s t → IsExclusive s t
Reach-IsExclusive (booted s t none zero_key) = record {
  held = λ p a. absurd (off p a);
  distinct = λ p q a. absurd (off p a);
  fresh = λ p n. zero_key p;
}
  where
    off : (p : ℕ) → is_holding (t p) ≡ true → ⊥
    off p a = ground (arith, zero_key p)
Reach-IsExclusive (next r step) = Step-IsExclusive step (Reach-IsExclusive r)

-- After any history of creations, revocations and destructions, two different domains that hold
-- storage keys hold different ones; each is a key for users that the table has in use, at the
-- generation that its domain knows.
pub Reach-keys_apart :
    {s : Keys} {t : ℕ → KeyHolder} (p q : ℕ)
    → Reach s t
    → p ≢ q
    → is_holding (t p) ≡ true
    → is_holding (t q) ≡ true
    → ((t p).storage_key ≢ (t q).storage_key) × IsHeld s (t p) × IsHeld s (t q)
Reach-keys_apart p q r ne a b =
    let e = Reach-IsExclusive r in (λ k. ne (e.distinct p q a b k), e.held p a, e.held q b)
