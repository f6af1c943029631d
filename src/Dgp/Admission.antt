-- ===== src/Dgp/Admission.antt =====
-- What a domain may ask of the scheduler: the checks of
-- zxfoundation/dgp/isolation.zcomponent/core.cxx on zxfoundation/sched/policy.cxxm.
pub mod Policy
use zxfoundation.Base.{
  ℕ, ◌+◌, ◌-◌, ◌*◌, ◌%◌, ◌^◌, Bool, true, false, not, ◌&&◌, ◌||◌, Result, ok, err, from_generic,
  invalid_arg, uninitialized, if◌then◌else◌, ltb, leb, ◌==◌, bit_and, bit_or,
}
use zxfoundation.Scoms.Kobject.{LifecycleState, active, is_state}

pub data SchedClass : Type 0 where
  idle fair rt deadline : SchedClass

pub data RtMode : Type 0 where
  fifo round_robin : RtMode

-- `sched_policy`; a `sched_mask` is its bits.
pub record SchedPolicy : Type 0 where
  pub class_id : SchedClass
  pub rt_behavior : RtMode
  pub rt_priority : ℕ
  pub runtime_ns : ℕ
  pub deadline_ns : ℕ
  pub period_ns : ℕ
  pub allowed_cpus : ℕ
  pub allowed_numa_nodes : ℕ
  pub allow_smt_sibling : Bool
  pub isolation_sensitive : Bool
  pub user_visible : Bool

-- `sched_admission_result`
pub record SchedAdmission : Type 0 where
  pub admitted_runtime_ns : ℕ
  pub admitted_period_ns : ℕ
  pub preferred_cpu : ℕ
  pub remote_node_allowed : Bool
  pub smt_sibling_allowed : Bool
  pub class_id : SchedClass

unfoldable pub mask_is_valid : ℕ → ℕ → Bool
mask_is_valid bits limit =
    if bits == 0
    then true
    else if leb 64 limit
    then true
    else bit_and bits (2 ^ 64 - 1 - (1 * 2 ^ limit % 2 ^ 64 - 1)) == 0

-- The two mask checks of a reservation; `max_cpus` is `CONFIG_ZX_MAX_CPUS`.
unfoldable pub masks_valid : ℕ → SchedPolicy → Bool
masks_valid max_cpus policy =
    mask_is_valid policy.allowed_cpus max_cpus && mask_is_valid policy.allowed_numa_nodes 64

-- `result` before a reservation is put in, and with the one that the policy asks for.
abbrev pub plain : SchedPolicy → SchedAdmission
plain policy = record {
  admitted_runtime_ns = 0;
  admitted_period_ns = 0;
  preferred_cpu = 0;
  remote_node_allowed = true;
  smt_sibling_allowed = policy.allow_smt_sibling;
  class_id = policy.class_id;
}

abbrev pub reserving : SchedPolicy → SchedAdmission
reserving policy = record (plain policy) {
  admitted_runtime_ns = policy.runtime_ns;
  admitted_period_ns = policy.period_ns;
}

-- The `switch` of `validate_scheduler_policy`.
unfoldable pub admit_class : ℕ → SchedClass → SchedPolicy → Bool → Result SchedAdmission
unfolding masks_valid
admit_class max_cpus idle policy authority = ok (plain policy)
admit_class max_cpus fair policy authority = ok (plain policy)
admit_class max_cpus rt policy authority =
    if not authority || (policy.rt_priority == 0) || ltb 99 policy.rt_priority
    then err (from_generic invalid_arg)
    else if (policy.runtime_ns == 0)
        || (policy.period_ns == 0)
        || ltb policy.period_ns policy.runtime_ns
    then err (from_generic invalid_arg)
    else if not (masks_valid max_cpus policy)
    then err (from_generic invalid_arg)
    else ok (reserving policy)
admit_class max_cpus deadline policy authority =
    if not authority
    then err (from_generic invalid_arg)
    else if (policy.runtime_ns == 0)
        || (policy.deadline_ns == 0)
        || (policy.period_ns == 0)
        || ltb policy.deadline_ns policy.runtime_ns
        || ltb policy.period_ns policy.deadline_ns
    then err (from_generic invalid_arg)
    else if not (masks_valid max_cpus policy)
    then err (from_generic invalid_arg)
    else ok (reserving policy)

unfoldable pub validate_scheduler_policy :
    ℕ → LifecycleState → SchedPolicy → Bool → Result SchedAdmission
validate_scheduler_policy max_cpus state policy has_rt_authority =
    if not (is_state state active)
    then err (from_generic invalid_arg)
    else admit_class max_cpus policy.class_id policy has_rt_authority

unfoldable pub validate_scheduler_admission : Bool → LifecycleState → ℕ → ℕ → Result (Unit {0})
validate_scheduler_admission initialized state root_phys asce_raw =
    if not initialized
    then err (from_generic uninitialized)
    else if not (is_state state active) || (root_phys == 0) || (asce_raw == 0)
    then err (from_generic invalid_arg)
    else ok tt
