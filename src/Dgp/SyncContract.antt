-- ===== src/Dgp/SyncContract.antt =====
-- The synchronization contracts of zxfoundation/dgp/sync_contract.zcomponent/core.cxxm and core.cxx,
-- and the two routines of zxfoundation/dgp/domain.zcomponent/core.cxx that drive a domain's teardown.
pub mod Irq
pub mod Phases
pub mod Claim
use zxfoundation.Base.{
  ℕ, ◌%◌, ◌^◌, Bool, true, false, not, ◌&&◌, ◌||◌, Result, ok, err, from_generic, from_locking,
  not_locked, already_locked, invalid_arg, if◌then◌else◌, ◌==◌,
}
use zxfoundation.Scoms.Kobject.{Bobject, active, dying, is_state, transition}

pub data LockContext : Type 0 where
  boot_single_cpu thread irq_disabled rcu_read_side teardown : LockContext

pub data IrqContract : Type 0 where
  unchanged must_be_enabled must_be_disabled : IrqContract

pub data TeardownPhase : Type 0 where
  none_phase deny_new_entries drain_gates drain_portals release_memory release_identity :
      TeardownPhase

-- The enumerators' values, by which `==` compares them.
abbrev pub phase_code : TeardownPhase → ℕ
phase_code none_phase = 0
phase_code deny_new_entries = 1
phase_code drain_gates = 2
phase_code drain_portals = 3
phase_code release_memory = 4
phase_code release_identity = 5

abbrev pub context_code : LockContext → ℕ
context_code boot_single_cpu = 0
context_code thread = 1
context_code irq_disabled = 2
context_code rcu_read_side = 3
context_code teardown = 4

abbrev pub contract_code : IrqContract → ℕ
contract_code unchanged = 0
contract_code must_be_enabled = 1
contract_code must_be_disabled = 2

abbrev pub is_phase : TeardownPhase → TeardownPhase → Bool
is_phase p q = phase_code p == phase_code q

pub record ContractState : Type 0 where
  pub domain_id : ℕ
  pub cpu_id : ℕ
  pub lock_depth : ℕ
  pub irqs_disabled : Bool
  pub in_rcu : Bool
  pub context : LockContext
  pub phase : TeardownPhase

-- What `contract_snapshot` reads of the processor's own block and of the interrupt mask.
pub record Percpu : Type 0 where
  pub cpu_id : ℕ
  pub lock_depth : ℕ
  pub in_rcu_read_side : ℕ
  pub irqs_enabled : Bool

unfoldable pub contract_snapshot : Percpu → LockContext → TeardownPhase → ℕ → ContractState
contract_snapshot pcp context phase domain_id = record {
  domain_id = domain_id;
  cpu_id = pcp.cpu_id;
  lock_depth = pcp.lock_depth % 2 ^ 16;
  irqs_disabled = not pcp.irqs_enabled;
  in_rcu = not (pcp.in_rcu_read_side == 0);
  context = context;
  phase = phase;
}

unfoldable pub validate_irq_state : ContractState → IrqContract → Result (Unit {0})
validate_irq_state state contract =
    if (contract_code contract == contract_code must_be_disabled) && not state.irqs_disabled
    then err (from_locking not_locked)
    else if (contract_code contract == contract_code must_be_enabled) && state.irqs_disabled
    then err (from_locking already_locked)
    else ok tt

-- `is_next`
unfoldable pub is_next : TeardownPhase → TeardownPhase → Bool
is_next current requested =
    (is_phase current none_phase && is_phase requested deny_new_entries)
    || (is_phase current deny_new_entries && is_phase requested drain_gates)
    || (is_phase current drain_gates && is_phase requested drain_portals)
    || (is_phase current drain_portals && is_phase requested release_memory)
    || (is_phase current release_memory && is_phase requested release_identity)

unfoldable pub validate_teardown_phase : TeardownPhase → TeardownPhase → Result (Unit {0})
unfolding is_next
validate_teardown_phase current requested =
    if not (is_next current requested) then err (from_generic invalid_arg) else ok tt

-- `advance_teardown_phase`: what it returns and the phase stored then.
unfoldable pub advance_teardown_phase :
    TeardownPhase → TeardownPhase → TeardownPhase → Result (Unit {0}) × TeardownPhase
advance_teardown_phase current expected requested =
    if not (is_phase current expected)
    then (err (from_generic invalid_arg), current)
    else elim (validate_teardown_phase expected requested) [
      | err e ↦ (err e, current)
      | ok u ↦ (ok tt, requested)
    ]

unfoldable pub validate_authority_lookup : ContractState → Result (Unit {0})
validate_authority_lookup state =
    if (context_code state.context == context_code teardown)
      && is_phase state.phase release_identity
    then err (from_generic invalid_arg)
    else ok tt

-- The part of a `domain` that its teardown changes.
pub record Domain : Type 0 where
  pub ko : Bobject
  pub phase : TeardownPhase

-- `claim_domain_destroy`: `||` calls `transition` only if the first two tests fail.
unfoldable pub claim_domain_destroy : Domain → Result (Unit {0}) × Domain
claim_domain_destroy d =
    if not (is_state d.ko.state active) || not (is_phase d.phase none_phase)
    then (err (from_generic invalid_arg), d)
    else let (entered, ko) = transition d.ko dying in
      if not entered
      then (err (from_generic invalid_arg), record d { ko = ko })
      else (ok tt, record d { ko = ko })

unfoldable pub advance_domain_teardown_phase :
    Domain → TeardownPhase → TeardownPhase → Result (Unit {0}) × Domain
advance_domain_teardown_phase d expected requested =
    let (result, phase) = advance_teardown_phase d.phase expected requested in
    (result, record d { phase = phase })
