-- ===== src/Sched/Rt/Ops.antt =====
-- The run queues of the real-time class. `violation` is what smt::isolation_violation answers for a
-- strand and a CPU.
use zxfoundation.Base.{
  ℕ, ◌+◌, ◌-◌, ◌/◌, ◌%◌, ◌^◌, Bool, true, false, not, ◌&&◌, ◌||◌, Option, none, some, List, [], ◌∷◌,
  ◌++◌, Result, ok, err, from_generic, invalid_arg, Outcome, done, fault, if◌then◌else◌, ltb, leb,
  ◌==◌, bit_or,
}
use zxfoundation.Base.Arrays.{update}
use zxfoundation.Dgp.Admission.{rt}
use zxfoundation.Sched.Cpupri.{CpupriIndex, cpupri_invalid, pri_set, pri_top, find_fitness}
use zxfoundation.Sched.Rt.{RtDomain, Strand, is_class, need_resched_flag}

pub record RtBandwidth : Type 0 where
  pub rt_runtime_ns : ℕ
  pub rt_time_ns : ℕ
  pub rt_throttled : Bool

-- `run_queue`, as far as the real-time class goes.
pub record RunQueue : Type 0 where
  pub nr_running : ℕ
  pub curr : Option ℕ
  pub rt_queue : List ℕ
  pub cpu_id : ℕ
  pub rt_bw : RtBandwidth

-- What run queues share: the strands, the domains and the priority index.
pub record SchedState : Type 0 where
  pub strands : ℕ → Strand
  pub domains : ℕ → RtDomain
  pub index : CpupriIndex

unfoldable pub bw_replenish : RtBandwidth → RtBandwidth
bw_replenish bw = record bw { rt_time_ns = 0; rt_throttled = false }

unfoldable pub bw_charge : RtBandwidth → ℕ → Bool × RtBandwidth
bw_charge bw consumed_ns =
    let charged = record bw { rt_time_ns = (bw.rt_time_ns + consumed_ns) % 2 ^ 64 } in
    if leb charged.rt_runtime_ns charged.rt_time_ns
    then (true, record charged { rt_throttled = true })
    else (false, charged)

abbrev pub priority : (ℕ → Strand) → ℕ → ℕ
priority strands p = (strands p).sched_policy.rt_priority

-- One round of the search for the best strand.
unfoldable pub better : (ℕ → Strand) → Option ℕ → ℕ → Option ℕ
better strands none c = some c
better strands (some b) c = if ltb (priority strands b) (priority strands c) then some c else some b

unfoldable pub best_of : (ℕ → Strand) → Option ℕ → List ℕ → Option ℕ
best_of strands best [] = best
best_of strands best (c ∷ cs) = best_of strands (better strands best c) cs

unfoldable pub pick_next : SchedState → RunQueue → Option ℕ
pick_next w rq = best_of w.strands none rq.rt_queue

-- `list_head::remove`, for a strand linked in the list.
unfoldable pub remove : ℕ → List ℕ → List ℕ
remove p [] = []
remove p (q ∷ qs) = let rest = remove p qs in if p == q then qs else q ∷ rest

abbrev pub set_on_rq : SchedState → ℕ → Bool → SchedState
set_on_rq w p b = record w { strands = update w.strands p (record (w.strands p) { on_rq = b }) }

unfoldable pub enqueue :
    (max_cpus : ℕ) (violation : Strand → ℕ → Bool)
    → SchedState
    → RunQueue
    → ℕ
    → Result (Unit {0}) × SchedState × RunQueue
enqueue max_cpus violation w rq p =
    let s = w.strands p in
    if not (is_class s.sched_policy.class_id rt)
      || not (is_class s.sched_admission.class_id rt)
      || (s.sched_admission.admitted_runtime_ns == 0)
    then (err (from_generic invalid_arg), w, rq)
    else if s.on_rq
    then (ok tt, w, rq)
    else if not s.sched_policy.allow_smt_sibling && violation s rq.cpu_id
    then (err (from_generic invalid_arg), w, rq)
    else let old_top = pri_top max_cpus w.index rq.cpu_id in
      (
        ok tt,
        record (set_on_rq w p true) {
          index = pri_set max_cpus w.index rq.cpu_id old_top s.sched_policy.rt_priority;
        },
        record rq { rt_queue = rq.rt_queue ++ p ∷ []; nr_running = (rq.nr_running + 1) % 2 ^ 32 },
      )

-- `best->sched_policy.rt_priority`, or `CPUPRI_INVALID` with no strand left.
unfoldable pub top_of : (ℕ → Strand) → Option ℕ → ℕ
top_of strands none = cpupri_invalid
top_of strands (some p) = priority strands p

-- The loop of `dequeue` over what is left in the queue, which the code has apart from `pick_next`.
unfoldable pub highest_left : (ℕ → Strand) → Option ℕ → List ℕ → Option ℕ
highest_left strands best [] = best
highest_left strands none (c ∷ cs) = highest_left strands (some c) cs
highest_left strands (some b) (c ∷ cs) =
    highest_left strands (if ltb (priority strands b) (priority strands c) then some c else some b)
      cs

unfoldable pub dequeue : (max_cpus : ℕ) → SchedState → RunQueue → ℕ → SchedState × RunQueue
dequeue max_cpus w rq p =
    if not (w.strands p).on_rq
    then (w, rq)
    else let old_top = pri_top max_cpus w.index rq.cpu_id in
      let w1 = set_on_rq w p false in
      let rq1 = record rq {
        rt_queue = remove p rq.rt_queue;
        nr_running = if rq.nr_running == 0 then rq.nr_running else rq.nr_running - 1;
      } in
      (
        record w1 {
          index =
              pri_set max_cpus w1.index rq.cpu_id old_top
                (top_of w1.strands (highest_left w1.strands none rq1.rt_queue));
        },
        rq1,
      )

-- `owner->flags |= need_resched`
unfoldable pub mark_resched : SchedState → Option ℕ → SchedState
mark_resched w none = w
mark_resched w (some d) = record w {
  domains =
      update w.domains d
        (record (w.domains d) { flags = bit_or (w.domains d).flags need_resched_flag });
}

abbrev pub rt_accounting_tick_ns : ℕ
rt_accounting_tick_ns = 1000000

unfoldable pub tick : (max_cpus : ℕ) → SchedState → RunQueue → ℕ → Outcome (SchedState × RunQueue)
tick max_cpus w rq p =
    let s = w.strands p in
    if not (is_class s.sched_policy.class_id rt) then done (w, rq) else elim s.body [
      | none ↦ fault
      | some body ↦
          let used = (body.rt_runtime_used_ns + rt_accounting_tick_ns) % 2 ^ 64 in
          let w1 = record w {
            strands =
                update w.strands p
                  (record s { body = some (record body { rt_runtime_used_ns = used }) });
          } in
          let rq1 = record rq { rt_bw = (bw_charge rq.rt_bw rt_accounting_tick_ns).1 } in
          if rq1.rt_bw.rt_throttled || leb s.sched_admission.admitted_runtime_ns used
          then done (dequeue max_cpus (mark_resched w1 s.owner) rq1 p)
          else done (w1, rq1)
    ]

unfoldable pub check_preempt : SchedState → RunQueue → ℕ → SchedState
check_preempt w rq waking = elim rq.curr [
  | none ↦ w
  | some c ↦
      if not (is_class (w.strands waking).sched_policy.class_id rt)
      then w
      else mark_resched w (w.strands c).owner
]

-- The mask of `sched_policy.allowed_cpus`; no bits mean every CPU.
unfoldable pub affinity_of : (max_cpus bits : ℕ) → ℕ → Bool
affinity_of max_cpus bits cpu =
    if bits == 0 then ltb cpu max_cpus else ltb cpu 64 && (bits / 2 ^ cpu % 2 == 1)

unfoldable pub push : (max_cpus width : ℕ) (online : ℕ → Bool) → SchedState → RunQueue → Outcome ℕ
push max_cpus width online w rq = elim (best_of w.strands none rq.rt_queue) [
  | none ↦ done (max_cpus % 2 ^ 16)
  | some highest ↦
      find_fitness max_cpus width online w.index (priority w.strands highest)
        (affinity_of max_cpus (w.strands highest).sched_policy.allowed_cpus)
]

unfoldable pub pull : (max_cpus : ℕ) → SchedState → RunQueue → ℕ → Option ℕ × SchedState × RunQueue
pull max_cpus w rq idle_cpu = elim (best_of w.strands none rq.rt_queue) [
  | none ↦ (none, w, rq)
  | some highest ↦
      let aff_bits = (w.strands highest).sched_policy.allowed_cpus in
      if not (aff_bits == 0) && ltb idle_cpu 64 && (aff_bits / 2 ^ idle_cpu % 2 == 0)
      then (none, w, rq)
      else let (w1, rq1) = dequeue max_cpus w rq highest in
        (
          some highest,
          record w1 {
            strands =
                update w1.strands highest
                  (record (w1.strands highest) { cpu = idle_cpu; on_rq = false });
          },
          rq1,
        )
]
