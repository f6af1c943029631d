-- ===== src/Dgp/Isolation/Release.antt =====
-- Destroying a domain gives its storage key back, once.
use zxfoundation.Base.{ℕ, ◌+◌, ◌%◌, ◌^◌, ◌≡◌, ◌≢◌, refl, ◌∙◌, true, false, ok, arith}
use zxfoundation.Base.Arrays.{update}
use zxfoundation.Scoms.Kobject.{dying, destroyed}
use zxfoundation.Dgp.Isolation.{
  Keys, KeyHolder, reusable, draining, begin_storage_key_revocation,
  complete_storage_key_revocation, release_storage_key, generation_bump, destroy_domain,
}
use zxfoundation.Dgp.Isolation.Exclusive.{is_holding, IsHeld}

-- The domain's part and the key table once its key is given back.
abbrev pub given_up : KeyHolder → ℕ → KeyHolder
given_up h generation = record h {
  state = dying;
  storage_key_generation = generation;
  storage_key_state = reusable;
  revocation_epoch = (h.revocation_epoch + 1) % 2 ^ 16;
}

abbrev pub freed : Keys → ℕ → ℕ → Keys
freed s key generation = record s {
  used = update s.used key false;
  generation = update s.generation key generation;
  contract_generation = (s.contract_generation + 1) % 2 ^ 64;
}

release_storage_key_held :
    (s : Keys) (h : KeyHolder)
    → IsHeld s h
    → let generation = (s.generation h.storage_key + 1) % 2 ^ 32 in
      release_storage_key s h.storage_key ≡ (
        generation,
        record s {
          used = update s.used h.storage_key false;
          generation = update s.generation h.storage_key generation;
        },
      )
unfolding release_storage_key
release_storage_key_held s h held = let (low, high) = held.user_key in ground (arith, held.in_use)

begin_storage_key_revocation_live :
    (h : KeyHolder)
    → is_holding h ≡ true
    → h.state ≢ destroyed
    → begin_storage_key_revocation h ≡ (
      ok tt,
      record h {
        state = dying;
        storage_key_state = draining;
        revocation_epoch = (h.revocation_epoch + 1) % 2 ^ 16;
      },
    )
unfolding begin_storage_key_revocation
begin_storage_key_revocation_live h on live = ground arith

destroy_domain_live :
    (s : Keys) (h g : KeyHolder)
    → h.state ≢ destroyed
    → begin_storage_key_revocation h ≡ (ok tt, g)
    → destroy_domain s h ≡ complete_storage_key_revocation s g
unfolding destroy_domain
destroy_domain_live s h g live b = ground arith

complete_draining :
    (s t : Keys) (g : KeyHolder) (n : ℕ)
    → g.storage_key_state ≡ draining
    → g.storage_key ≢ 0
    → release_storage_key s g.storage_key ≡ (n, t)
    → complete_storage_key_revocation s g ≡ (
      ok tt,
      record g { storage_key_generation = n; storage_key_state = reusable },
      generation_bump t,
    )
unfolding complete_storage_key_revocation
complete_draining s t g n on key r = ground arith

-- Destroying a domain that holds a key and is not destroyed yet frees that key, at the next
-- generation, and touches no other key. Destroying it again, whatever the table is by then, gives
-- nothing back a second time.
destroy_domain-freed :
    (s later : Keys) (h : KeyHolder)
    → is_holding h ≡ true
    → IsHeld s h
    → h.state ≢ destroyed
    → let generation = (s.generation h.storage_key + 1) % 2 ^ 32 in
      (destroy_domain s h ≡ (ok tt, given_up h generation, freed s h.storage_key generation))
      × (destroy_domain later (given_up h generation) ≡ (ok tt, given_up h generation, later))
unfolding destroy_domain complete_storage_key_revocation generation_bump
    begin_storage_key_revocation
destroy_domain-freed s later h on held live = (once, refl)
  where
    once : destroy_domain s h ≡ (
      ok tt,
      given_up h ((s.generation h.storage_key + 1) % 2 ^ 32),
      freed s h.storage_key ((s.generation h.storage_key + 1) % 2 ^ 32),
    )
    once =
        destroy_domain_live s h _ live (begin_storage_key_revocation_live h on live)
        ∙ complete_draining s _ _ _ refl (λ z. omega (arith, held.user_key.0, z))
            (release_storage_key_held s h held)
