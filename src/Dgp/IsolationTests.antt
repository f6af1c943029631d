-- ===== src/Dgp/IsolationTests.antt =====
-- Runs of the storage keys at concrete inputs.
use zxfoundation.Base.{◌≡◌, ◌≢◌, refl, ℕ, true, false, ok, arith}
use zxfoundation.Base.Arrays.{update}
use zxfoundation.Scoms.Kobject.{sealed, active}
use zxfoundation.Dgp.Isolation.{
  Keys, KeyHolder, IsolationPolicy, IsolationDomain, none_skey, active_skey, storage_key_auto,
  free_key, allocate_storage_key, storage_key_generation, init, create_domain,
}
use zxfoundation.Dgp.Isolation.Exclusive.{IsHeld}
use zxfoundation.Dgp.Isolation.Created.{holder}
use zxfoundation.Dgp.Isolation.History.{Step, Reach, Reach-keys_apart}

abbrev cold : Keys
cold = record {
  used = λ k. true;
  generation = λ k. 0;
  initialized = false;
  contract_generation = 1;
}

abbrev idle : KeyHolder
idle = record {
  state = sealed;
  storage_key = 0;
  storage_key_generation = 0;
  storage_key_state = none_skey;
  revocation_epoch = 0;
}

abbrev policy : IsolationPolicy
policy = record {
  required_features = 3;
  default_rights = 1;
  storage_key = storage_key_auto;
  numa_node = 0;
  allow_portals = true;
  allow_user_execute = false;
  bootstrap_admin = false;
}

abbrev with_key : ℕ → ℕ → IsolationDomain
with_key id key = record {
  domain_id = id;
  asce = 0;
  root_phys = 0;
  storage_key = key;
  numa_node = 0;
  revocation_epoch = 0;
  storage_key_generation = 1;
  storage_key_state = active_skey;
  granted_rights = 1;
}

abbrev one_used : Keys
one_used = record (init cold) { used = update (init cold).used 8 true }

abbrev two_used : Keys
two_used = record one_used { used = update one_used.used 9 true }

first_created : create_domain (init cold) 1 policy ≡ (ok (with_key 1 8), one_used)
unfolding create_domain allocate_storage_key free_key storage_key_generation init
first_created = refl

second_created : create_domain one_used 2 policy ≡ (ok (with_key 2 9), two_used)
unfolding create_domain allocate_storage_key free_key storage_key_generation init
second_created = refl

abbrev one_domain : ℕ → KeyHolder
one_domain = update (λ p. idle) 1 (holder active (with_key 1 8))

abbrev two_domains : ℕ → KeyHolder
two_domains = update one_domain 2 (holder active (with_key 2 9))

two-Reach : Reach two_used two_domains
two-Reach =
    Reach.next
      (Reach.next (Reach.booted cold (λ p. idle) (λ p. refl) (λ p. refl))
        (Step.created 1 1 policy (with_key 1 8) active refl first_created))
      (Step.created 2 2 policy (with_key 2 9) active refl second_created)

Reach-keys_apart_example :
    ((two_domains 1).storage_key ≢ (two_domains 2).storage_key)
    × IsHeld two_used (two_domains 1)
    × IsHeld two_used (two_domains 2)
Reach-keys_apart_example = Reach-keys_apart 1 2 two-Reach (omega arith) refl refl

first-IsHeld : IsHeld two_used (two_domains 1)
unfolding init
first-IsHeld = record { in_use = refl; user_key = (omega arith, omega arith); current = refl }
