-- ===== src/Sched/Classed.antt =====
-- The class of a strand and admission through it: zxfoundation/sched/classed.zcomponent/core.cxx.
-- `deadline_admit` is deadline::admit.
pub mod Boosting
use zxfoundation.Base.{
  ℕ, Bool, true, false, not, ◌&&◌, ◌||◌, Result, ok, err, from_generic, invalid_arg, Outcome, done,
  if◌then◌else◌, ltb, ◌==◌, bit_and,
}
use zxfoundation.Dgp.Admission.{
  SchedClass, idle, fair, rt, deadline, SchedPolicy, SchedAdmission, plain, reserving,
}
use zxfoundation.Sched.Rt.{RtDomain, Strand, is_class, idle_flag, admit}

-- `strand_flags::idle`
abbrev pub idle_strand_flag : ℕ
idle_strand_flag = 1

unfoldable pub is_idle_strand : Strand → Bool
is_idle_strand s = not (bit_and s.flags idle_strand_flag == 0)

unfoldable pub class_of : Strand → SchedClass
class_of s =
    if is_idle_strand s
    then idle
    else if is_class s.sched_policy.class_id rt && is_class s.sched_admission.class_id rt
    then rt
    else if is_class s.sched_policy.class_id deadline
        && is_class s.sched_admission.class_id deadline
    then deadline
    else fair

abbrev pub effective_class : Strand → SchedClass
effective_class s = class_of s

abbrev pub is_idle_domain : RtDomain → Bool
is_idle_domain d = not (bit_and d.flags idle_flag == 0)

-- The `switch` of `validate_policy`.
unfoldable pub validate_class : RtDomain → SchedClass → SchedPolicy → Result SchedAdmission
validate_class owner idle policy =
    if not (is_idle_domain owner) || policy.user_visible
    then err (from_generic invalid_arg)
    else ok (plain policy)
validate_class owner fair policy =
    if is_idle_domain owner then err (from_generic invalid_arg) else ok (plain policy)
validate_class owner rt policy =
    if is_idle_domain owner
    then err (from_generic invalid_arg)
    else if (policy.rt_priority == 0)
        || (policy.runtime_ns == 0)
        || (policy.period_ns == 0)
        || ltb policy.period_ns policy.runtime_ns
    then err (from_generic invalid_arg)
    else ok (reserving policy)
validate_class owner deadline policy =
    if is_idle_domain owner
    then err (from_generic invalid_arg)
    else if (policy.runtime_ns == 0)
        || (policy.deadline_ns == 0)
        || (policy.period_ns == 0)
        || ltb policy.deadline_ns policy.runtime_ns
        || ltb policy.period_ns policy.deadline_ns
    then err (from_generic invalid_arg)
    else ok (reserving policy)

unfoldable pub validate_policy : RtDomain → SchedPolicy → Result SchedAdmission
validate_policy owner policy = validate_class owner policy.class_id policy

abbrev pub Admit : Type 0
Admit = RtDomain → Strand → SchedPolicy → Outcome (Result SchedAdmission × RtDomain × Strand)

-- The admission of idle and fair work, which reserves nothing.
unfoldable pub admit_plain : Admit
admit_plain owner s policy = elim (validate_policy owner policy) [
  | err e ↦ done (err e, owner, s)
  | ok result ↦
      done (ok result, owner, record s { sched_policy = policy; sched_admission = result })
]

unfoldable pub admit_policy : (max_cpus : ℕ) → Admit → Admit
admit_policy max_cpus deadline_admit owner s policy = elim policy.class_id [
  | idle ↦ admit_plain owner s policy
  | fair ↦ admit_plain owner s policy
  | rt ↦ admit max_cpus owner s policy
  | deadline ↦ deadline_admit owner s policy
]
