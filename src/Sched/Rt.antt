-- ===== src/Sched/Rt.antt =====
-- The real-time class: zxfoundation/sched/rt.zcomponent/core.cxx with bandwidth.cxx. Strands and
-- domains are addresses; a run queue is the list of the strands linked in it.
pub mod Ops
pub mod Budget
pub mod Picking
pub mod Boosts
pub mod Tops
use zxfoundation.Base.{
  ℕ, ◌+◌, ◌-◌, ◌%◌, ◌^◌, Bool, true, false, not, ◌&&◌, ◌||◌, Option, none, some, List, [], ◌∷◌,
  Result, ok, err, from_generic, invalid_arg, Outcome, done, fault, if◌then◌else◌, ltb, ◌==◌,
  bit_and, bit_or,
}
use zxfoundation.Scoms.Kobject.{Bobject, active, is_state}
use zxfoundation.Dgp.Rights.{sched_right, has_all_rights}
use zxfoundation.Dgp.Admission.{
  SchedClass, idle, fair, rt, deadline, fifo, SchedPolicy, SchedAdmission,
  validate_scheduler_policy,
}
use zxfoundation.Sched.Cpupri.{CpupriIndex}

-- `class_id == c`, by the enumerators' values.
abbrev pub class_code : SchedClass → ℕ
class_code idle = 0
class_code fair = 1
class_code rt = 2
class_code deadline = 3

abbrev pub is_class : SchedClass → SchedClass → Bool
is_class a b = class_code a == class_code b

-- The domain, as far as the real-time class goes.
pub record RtDomain : Type 0 where
  pub ko : Bobject
  pub flags : ℕ
  pub granted_rights : ℕ
  pub admin_token : ℕ
  pub rt_capability_token : ℕ
  pub rt_period_ns : ℕ
  pub rt_budget_ns : ℕ
  pub rt_reserved_ns : ℕ
  pub allowed_cpus : ℕ
  pub allowed_numa_nodes : ℕ

-- `domain_flags::idle` and `domain_flags::need_resched`
abbrev pub idle_flag : ℕ
idle_flag = 2

abbrev pub need_resched_flag : ℕ
need_resched_flag = 4

pub record StrandBody : Type 0 where
  pub rt_runtime_used_ns : ℕ
  pub rt_period_start_ns : ℕ
  pub boosted_prio : ℕ
  pub saved_class : SchedClass
  pub saved_prio : ℕ

pub record Strand : Type 0 where
  pub owner : Option ℕ
  pub cpu : ℕ
  pub on_rq : Bool
  pub flags : ℕ
  pub sched_policy : SchedPolicy
  pub sched_admission : SchedAdmission
  pub body : Option StrandBody

-- `sched_policy{}` and `sched_admission_result{}`
abbrev pub no_policy : SchedPolicy
no_policy = record {
  class_id = fair;
  rt_behavior = fifo;
  rt_priority = 0;
  runtime_ns = 0;
  deadline_ns = 0;
  period_ns = 0;
  allowed_cpus = 0;
  allowed_numa_nodes = 0;
  allow_smt_sibling = true;
  isolation_sensitive = false;
  user_visible = false;
}

abbrev pub no_admission : SchedAdmission
no_admission = record {
  admitted_runtime_ns = 0;
  admitted_period_ns = 0;
  preferred_cpu = 0;
  remote_node_allowed = true;
  smt_sibling_allowed = true;
  class_id = fair;
}

unfoldable pub has_rt_authority : RtDomain → Bool
has_rt_authority d =
    if not (d.rt_capability_token == 0) && (d.rt_capability_token == d.admin_token)
    then true
    else has_all_rights d.granted_rights sched_right

-- Whether a mask of the policy leaves the domain's: `policy & ~domain`.
unfoldable pub mask_leaves : (allowed asked : ℕ) → Bool
mask_leaves allowed asked =
    not (allowed == 0) && not (asked == 0) && not (bit_and asked (2 ^ 64 - 1 - allowed) == 0)

unfoldable pub policy_matches_domain_masks : RtDomain → SchedPolicy → Bool
policy_matches_domain_masks d policy =
    if mask_leaves d.allowed_cpus policy.allowed_cpus
    then false
    else if mask_leaves d.allowed_numa_nodes policy.allowed_numa_nodes
    then false
    else true

unfoldable pub reserve_domain_runtime :
    RtDomain → (runtime_ns period_ns : ℕ) → Result (Unit {0}) × RtDomain
reserve_domain_runtime d runtime_ns period_ns =
    let d1 = if d.rt_period_ns == 0 then record d { rt_period_ns = period_ns } else d in
    if d1.rt_budget_ns == 0
    then (err (from_generic invalid_arg), d1)
    else if not (period_ns == d1.rt_period_ns)
    then (err (from_generic invalid_arg), d1)
    else if ltb d1.rt_budget_ns runtime_ns || ltb (d1.rt_budget_ns - runtime_ns) d1.rt_reserved_ns
    then (err (from_generic invalid_arg), d1)
    else (ok tt, record d1 { rt_reserved_ns = (d1.rt_reserved_ns + runtime_ns) % 2 ^ 64 })

unfoldable pub release_domain_runtime : RtDomain → ℕ → RtDomain
release_domain_runtime d runtime_ns = record d {
  rt_reserved_ns = if ltb runtime_ns d.rt_reserved_ns then d.rt_reserved_ns - runtime_ns else 0;
}

-- The strand with what `admit` or `release_admission` writes to it and to its body.
abbrev pub rescheduled : Strand → StrandBody → SchedPolicy → SchedAdmission → Strand
rescheduled s body policy admission = record s {
  sched_policy = policy;
  sched_admission = admission;
  body = some (record body { rt_runtime_used_ns = 0; rt_period_start_ns = 0 });
}

-- The part of `admit` past a reservation; a strand without a body is a null dereference.
unfoldable pub admit_reserved :
    RtDomain
    → Strand
    → SchedPolicy
    → SchedAdmission
    → Outcome (Result SchedAdmission × RtDomain × Strand)
admit_reserved owner s policy admission = elim s.body [
  | none ↦ fault
  | some body ↦ done (ok admission, owner, rescheduled s body policy admission)
]

unfoldable pub admit :
    (max_cpus : ℕ)
    → RtDomain
    → Strand
    → SchedPolicy
    → Outcome (Result SchedAdmission × RtDomain × Strand)
admit max_cpus owner s policy =
    if not (is_state owner.ko.state active) || not (bit_and owner.flags idle_flag == 0)
    then done (err (from_generic invalid_arg), owner, s)
    else if not (is_class policy.class_id rt) || not (policy_matches_domain_masks owner policy)
    then done (err (from_generic invalid_arg), owner, s)
    else elim (validate_scheduler_policy max_cpus owner.ko.state policy (has_rt_authority owner)) [
      | err e ↦ done (err e, owner, s)
      | ok admission ↦
          let (reserved, d) =
            reserve_domain_runtime owner admission.admitted_runtime_ns
              admission.admitted_period_ns in
          elim reserved [ err e ↦ done (err e, d, s) | ok u ↦ admit_reserved d s policy admission ]
    ]

unfoldable pub release_admission : RtDomain → Strand → Outcome (RtDomain × Strand)
release_admission owner s =
    if not (is_class s.sched_policy.class_id rt) then done (owner, s) else elim s.body [
      | none ↦ fault
      | some body ↦ done (
        release_domain_runtime owner s.sched_admission.admitted_runtime_ns,
        rescheduled s body no_policy no_admission,
      )
    ]

unfoldable pub boost_prio : Strand → ℕ → Strand
boost_prio s new_prio = elim s.body [
  | none ↦ s
  | some body ↦
      let saved =
        if body.boosted_prio == 0
        then record body {
          saved_class = s.sched_policy.class_id;
          saved_prio = s.sched_policy.rt_priority;
        }
        else body in
      if ltb saved.boosted_prio new_prio
      then record s {
        body = some (record saved { boosted_prio = new_prio });
        sched_policy = record (s.sched_policy) { class_id = rt; rt_priority = new_prio };
      }
      else record s { body = some saved }
]

unfoldable pub unboost_prio : Strand → Strand
unboost_prio s = elim s.body [
  | none ↦ s
  | some body ↦ if body.boosted_prio == 0 then s else record s {
    body = some (record body { boosted_prio = 0 });
    sched_policy = record (s.sched_policy) {
      class_id = body.saved_class;
      rt_priority = body.saved_prio;
    };
  }
]
