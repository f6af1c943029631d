-- ===== src/Sched/Tests.antt =====
-- Runs of the real-time class at concrete inputs.
use zxfoundation.Base.{
  ℕ, ◌+◌, ◌%◌, ◌^◌, ◌≡◌, ◌⊎◌, refl, arith, Bool, true, false, not, if◌then◌else◌, ◌==◌, ◌&&◌, none,
  some, ltb, [], ◌∷◌, ok, err, KernelError, done,
}
use zxfoundation.Scoms.Kobject.{domain, active}
use zxfoundation.Dgp.Admission.{
  deadline, SchedPolicy, SchedAdmission, rt, validate_scheduler_policy, admit_class, masks_valid,
  mask_is_valid,
}
use zxfoundation.Dgp.Rights.{has_all_rights}
use zxfoundation.Sched.Cpupri.{CpupriIndex, init, pri_top, find_fitness}
use zxfoundation.Sched.Cpupri.Index.{IsIndexed}
use zxfoundation.Sched.Cpupri.Search.{IsLowest, IsIdle, AllAbove, find_fitness-IsLowest}
use zxfoundation.Sched.Rt.{
  RtDomain, Strand, StrandBody, no_policy, no_admission, admit, release_admission, has_rt_authority,
  policy_matches_domain_masks, mask_leaves, reserve_domain_runtime, admit_reserved, rescheduled,
}
use zxfoundation.Sched.Rt.Ops.{RunQueue, SchedState, better, best_of, pick_next, enqueue, dequeue}
use zxfoundation.Sched.Rt.Budget.{IsBudgeted, admit-release_admission}
use zxfoundation.Sched.Rt.Picking.{IsFirstBest, pick_next-IsFirstBest}
use zxfoundation.Sched.Rt.Tops.{dequeue-top}

abbrev guest : RtDomain
guest = record {
  ko = record {
    id = 5;
    type = domain;
    state = active;
    count = 1;
    generation = 1;
    object_flags = 0;
  };
  flags = 0;
  granted_rights = 0x200;
  admin_token = 0;
  rt_capability_token = 0;
  rt_period_ns = 100;
  rt_budget_ns = 20;
  rt_reserved_ns = 6;
  allowed_cpus = 0;
  allowed_numa_nodes = 0;
}

abbrev at_priority : ℕ → SchedPolicy
at_priority n = record no_policy { class_id = rt; rt_priority = n; runtime_ns = 8; period_ns = 100 }

abbrev cold : StrandBody
cold = record {
  rt_runtime_used_ns = 3;
  rt_period_start_ns = 4;
  boosted_prio = 0;
  saved_class = rt;
  saved_prio = 0;
}

abbrev admission : SchedAdmission
admission = record no_admission { admitted_runtime_ns = 8; admitted_period_ns = 100; class_id = rt }

abbrev strand_at : ℕ → Bool → Strand
strand_at n on = record {
  owner = some 1;
  cpu = 0;
  on_rq = on;
  flags = 0;
  sched_policy = at_priority n;
  sched_admission = admission;
  body = some cold;
}

-- CPU 0 has the strand 2 of priority 50 queued; the strand 1, of priority 10, is not.
abbrev index : CpupriIndex
index = record {
  pri_mask = λ p cpu. (cpu == 0) && (p == 50);
  free_mask = λ cpu. not (cpu == 0);
  cpu_top_pri = λ cpu. if cpu == 0 then 50 else 255;
}

abbrev state : SchedState
state = record {
  strands = λ p. if p == 1 then strand_at 10 false else strand_at 50 true;
  domains = λ d. guest;
  index = index;
}

abbrev queue : RunQueue
queue = record {
  nr_running = 1;
  curr = none;
  rt_queue = 2 ∷ [];
  cpu_id = 0;
  rt_bw = record { rt_runtime_ns = 950; rt_time_ns = 0; rt_throttled = false };
}

index-IsIndexed : (cpu : ℕ) → IsIndexed index cpu
index-IsIndexed cpu = record { masks = λ p low. ground arith; free = ground arith }

guest-IsBudgeted : IsBudgeted guest
guest-IsBudgeted = record { within = omega arith; word = omega arith }

-- The strand 1 is admitted with 8 of the budget.
guest-admitted :
    admit 64 guest (strand_at 0 false) (at_priority 10)
    ≡ done (
      ok admission,
      record guest { rt_reserved_ns = 14 },
      rescheduled (strand_at 0 false) cold (at_priority 10) admission,
    )
unfolding admit validate_scheduler_policy admit_class masks_valid mask_is_valid has_rt_authority
    has_all_rights policy_matches_domain_masks mask_leaves reserve_domain_runtime admit_reserved
guest-admitted = refl

admit-release_admission_example :
    let d' = record guest { rt_reserved_ns = 14 } in
    let s' = rescheduled (strand_at 0 false) cold (at_priority 10) admission in
    IsBudgeted d'
    × ((e : KernelError)
        → ok admission ≡ err e
        → (d'.rt_reserved_ns ≡ guest.rt_reserved_ns) × (s' ≡ strand_at 0 false))
    × ((a : SchedAdmission)
        → ok admission ≡ ok a
        → (d'.rt_reserved_ns ≡ guest.rt_reserved_ns + a.admitted_runtime_ns)
          × ((d'' : RtDomain) × (s'' : Strand) × (release_admission d' s' ≡ done (d'', s''))
              × (d''.rt_reserved_ns ≡ guest.rt_reserved_ns)))
admit-release_admission_example =
    admit-release_admission 64 guest (record guest { rt_reserved_ns = 14 }) (strand_at 0 false)
      (rescheduled (strand_at 0 false) cold (at_priority 10) admission) (at_priority 10)
      (ok admission) guest-IsBudgeted guest-admitted

pick_next-IsFirstBest_example :
    ((queue.rt_queue ≡ []) × (pick_next state queue ≡ none))
    ⊎ ((p : ℕ) × (pick_next state queue ≡ some p) × IsFirstBest state.strands p (2 ∷ []))
pick_next-IsFirstBest_example = pick_next-IsFirstBest state queue

dequeue-top_example :
    let (w', rq') = dequeue 64 state queue 2 in
    (((pick_next w' rq' ≡ none) × (pri_top 64 w'.index 0 ≡ 255))
      ⊎ ((c : ℕ) × (pick_next w' rq' ≡ some c)
          × (pri_top 64 w'.index 0 ≡ (w'.strands c).sched_policy.rt_priority)))
    × ((cpu : ℕ) → IsIndexed index cpu → IsIndexed w'.index cpu)
dequeue-top_example = dequeue-top 64 state queue 2 (omega arith) (index-IsIndexed 0) refl

abbrev never : Strand → ℕ → Bool
never s cpu = false

abbrev lowered : SchedState
lowered = (enqueue 64 never state queue 1).1

abbrev two_queued : RunQueue
two_queued = (enqueue 64 never state queue 1).2

strand1-enqueued : enqueue 64 never state queue 1 ≡ (ok tt, lowered, two_queued)
unfolding enqueue
strand1-enqueued = refl

strand2-picked : pick_next state queue ≡ some 2
unfolding pick_next best_of better
strand2-picked = refl

abbrev any : ℕ → Bool
any cpu = true

-- The index as init leaves it, with the CPUs 0 and 1 up; a mask has 768 bits.
abbrev two_online : ℕ → Bool
two_online cpu = ltb cpu 2

abbrev fresh : CpupriIndex
fresh = init 64 two_online index

fresh-IsIndexed : (c : ℕ) → two_online c ≡ true → IsIndexed fresh c
unfolding init
fresh-IsIndexed c on = record { masks = λ p low. ground arith; free = ground arith }

find_fitness-IsLowest_example :
    let allowed = λ (cpu : ℕ). any cpu && two_online cpu in
    let result = find_fitness 64 768 two_online fresh 60 any in
    ((cpu : ℕ) × (result ≡ done cpu) × IsLowest fresh allowed 768 60 cpu)
    ⊎ (((cpu : ℕ) × (result ≡ done cpu) × IsIdle fresh allowed cpu) ⊎ (result ≡ done (64 % 2 ^ 16)))
      × AllAbove fresh allowed 768 60
find_fitness-IsLowest_example =
    find_fitness-IsLowest 64 768 two_online fresh 60 any (omega arith)
      (λ c below on. fresh-IsIndexed c on)

-- A deadline strand, boosted to 40.
abbrev deadline_strand : Strand
deadline_strand = record (strand_at 0 true) {
  sched_policy = record no_policy { class_id = deadline };
  sched_admission = record no_admission { class_id = deadline };
}
