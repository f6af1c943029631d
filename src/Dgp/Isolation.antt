-- ===== src/Dgp/Isolation.antt =====
-- Storage keys of isolation domains: zxfoundation/dgp/isolation.zcomponent/types.cxxm and core.cxx.
-- The spin lock of the key table makes each of its routines one step.
pub mod Granting
pub mod Exclusive
pub mod Teardown
pub mod Created
pub mod History
pub mod Release
use zxfoundation.Base.{
  ℕ, zero, suc, ◌+◌, ◌-◌, ◌%◌, ◌^◌, Bool, true, false, not, ◌&&◌, ◌||◌, Option, none, some, Result,
  ok, err, from_generic, from_memory, invalid_arg, uninitialized, out_of_memory, if◌then◌else◌, ltb,
  leb, ◌==◌, bit_or, List, [], ◌∷◌,
}
use zxfoundation.Base.Arrays.{update}
use zxfoundation.Scoms.Kobject.{LifecycleState, dying, destroyed, is_state}

abbrev pub storage_key_auto : ℕ
storage_key_auto = 0xff

abbrev pub storage_key_count : ℕ
storage_key_count = 16

abbrev pub storage_key_user_base : ℕ
storage_key_user_base = 8

abbrev pub storage_key_user_max : ℕ
storage_key_user_max = 15

pub data SkeyRevocationState : Type 0 where
  none_skey active_skey draining reusable : SkeyRevocationState

abbrev pub skey_code : SkeyRevocationState → ℕ
skey_code none_skey = 0
skey_code active_skey = 1
skey_code draining = 2
skey_code reusable = 3

-- The rights that `create_domain` adds for a bootstrap administrator.
abbrev pub admin_rights : List ℕ
admin_rights = 2 ^ 5 ∷ 2 ^ 6 ∷ 2 ^ 7 ∷ 2 ^ 8 ∷ 2 ^ 9 ∷ 2 ^ 10 ∷ 2 ^ 11 ∷ []

-- `g_storage_key_used`, `g_storage_key_generation`, `g_isolation_initialized`, and `g_generation` of
-- zxfoundation/dgp/memory_contract.zcomponent/core.cxx.
pub record Keys : Type 0 where
  pub used : ℕ → Bool
  pub generation : ℕ → ℕ
  pub initialized : Bool
  pub contract_generation : ℕ

-- `generation_bump`
unfoldable pub generation_bump : Keys → Keys
generation_bump s = record s { contract_generation = (s.contract_generation + 1) % 2 ^ 64 }

-- The loop of `allocate_storage_key`: the lowest free key from `key` in the `n` left.
unfoldable pub free_key : ℕ → ℕ → (ℕ → Bool) → Option ℕ
free_key zero key used = none
free_key (suc n) key used =
    let later = free_key n (key + 1) used in if not (used key) then some key else later

unfoldable pub allocate_storage_key : Keys → ℕ → Result ℕ × Keys
allocate_storage_key s requested =
    if not (requested == storage_key_auto)
    then (if ltb requested storage_key_user_base || ltb storage_key_user_max requested
        then (err (from_generic invalid_arg), s)
        else if s.used requested
        then (err (from_memory out_of_memory), s)
        else (ok requested, record s { used = update s.used requested true }))
    else elim (free_key (storage_key_count - storage_key_user_base) storage_key_user_base s.used) [
      | none ↦ (err (from_memory out_of_memory), s)
      | some key ↦ (ok key, record s { used = update s.used key true })
    ]

-- `release_storage_key`: the generation that it returns, and the table then.
unfoldable pub release_storage_key : Keys → ℕ → ℕ × Keys
release_storage_key s key =
    if leb storage_key_user_base key && leb key storage_key_user_max
    then (if s.used key
        then (
          (s.generation key + 1) % 2 ^ 32,
          record s {
            used = update s.used key false;
            generation = update s.generation key ((s.generation key + 1) % 2 ^ 32);
          },
        )
        else (s.generation key, s))
    else (0, s)

unfoldable pub storage_key_generation : Keys → ℕ → ℕ
storage_key_generation s key = if leb storage_key_count key then 0 else s.generation key

-- `init`: the loop over the keys, with the rounds left, then key 0 for the nucleus.
unfoldable pub reset_keys : ℕ → ℕ → Keys → Keys
reset_keys zero key s = s
reset_keys (suc n) key s =
    reset_keys n (key + 1)
      (record s { used = update s.used key false; generation = update s.generation key 1 })

unfoldable pub init : Keys → Keys
unfolding reset_keys
init s =
    let t = reset_keys storage_key_count 0 s in
    record t { used = update t.used 0 true; initialized = true }

pub record IsolationPolicy : Type 0 where
  pub required_features : ℕ
  pub default_rights : ℕ
  pub storage_key : ℕ
  pub numa_node : ℕ
  pub allow_portals : Bool
  pub allow_user_execute : Bool
  pub bootstrap_admin : Bool

-- `isolation_domain_state`
pub record IsolationDomain : Type 0 where
  pub domain_id : ℕ
  pub asce : ℕ
  pub root_phys : ℕ
  pub storage_key : ℕ
  pub numa_node : ℕ
  pub revocation_epoch : ℕ
  pub storage_key_generation : ℕ
  pub storage_key_state : SkeyRevocationState
  pub granted_rights : ℕ

add_rights : ℕ → List ℕ → ℕ
add_rights rights [] = rights
add_rights rights (r ∷ rs) = add_rights (bit_or rights r) rs

unfoldable pub create_domain : Keys → ℕ → IsolationPolicy → Result IsolationDomain × Keys
unfolding add_rights
create_domain s domain_id policy =
    if not s.initialized
    then (err (from_generic uninitialized), s)
    else let (key_result, t) = allocate_storage_key s policy.storage_key in
      elim key_result [
        | err e ↦ (err e, t)
        | ok key ↦ (
          ok (record {
            domain_id = domain_id;
            asce = 0;
            root_phys = 0;
            storage_key = key;
            numa_node = policy.numa_node;
            revocation_epoch = 0;
            storage_key_generation = storage_key_generation t key;
            storage_key_state = active_skey;
            granted_rights =
                if policy.bootstrap_admin
                then add_rights policy.default_rights admin_rights
                else policy.default_rights;
          }),
          t,
        )
      ]

-- What the teardown routines are given references to.
pub record KeyHolder : Type 0 where
  pub state : LifecycleState
  pub storage_key : ℕ
  pub storage_key_generation : ℕ
  pub storage_key_state : SkeyRevocationState
  pub revocation_epoch : ℕ

-- `begin_storage_key_revocation`, both overloads.
unfoldable pub begin_storage_key_revocation : KeyHolder → Result (Unit {0}) × KeyHolder
begin_storage_key_revocation h =
    if is_state h.state destroyed || (skey_code h.storage_key_state == skey_code reusable)
    then (ok tt, h)
    else (
      ok tt,
      record h {
        state = dying;
        storage_key_state = draining;
        revocation_epoch = (h.revocation_epoch + 1) % 2 ^ 16;
      },
    )

unfoldable pub complete_storage_key_revocation :
    Keys → KeyHolder → Result (Unit {0}) × KeyHolder × Keys
complete_storage_key_revocation s h =
    if (skey_code h.storage_key_state == skey_code reusable) || (h.storage_key == 0)
    then (ok tt, record h { storage_key_state = reusable }, s)
    else if not (skey_code h.storage_key_state == skey_code draining)
    then (err (from_generic invalid_arg), h, s)
    else let (generation, t) = release_storage_key s h.storage_key in
      (
        ok tt,
        record h { storage_key_generation = generation; storage_key_state = reusable },
        generation_bump t,
      )

-- `destroy_domain`, both overloads.
unfoldable pub destroy_domain : Keys → KeyHolder → Result (Unit {0}) × KeyHolder × Keys
destroy_domain s h =
    if is_state h.state destroyed
    then (ok tt, h, s)
    else let (begun, g) = begin_storage_key_revocation h in
      elim begun [ err e ↦ (err e, g, s) | ok u ↦ complete_storage_key_revocation s g ]
