-- ===== src/Sched/Rt/Tops.antt =====
-- The cached top priority of a CPU and its queue.
use zxfoundation.Base.{
  ℕ, List, Option, ltb, Option-cases, ◌⊎◌, inl, inr, ◌-◌, ◌<◌, ◌≡◌, refl, ap, subst, ◌∙◌, arith,
  Bool, true, false, none, some, [], ◌∷◌, ◌++◌, if◌then◌else◌, ok, ◌==◌, ℕ_discrete,
}
use zxfoundation.Base.Arrays.{update_self, update_ne}
use zxfoundation.Sched.Cpupri.{pri_top, pri_set}
use zxfoundation.Sched.Cpupri.Index.{IsIndexed, pri_set-IsIndexed}
use zxfoundation.Sched.Rt.{Strand}
use zxfoundation.Sched.Rt.Ops.{
  SchedState, RunQueue, priority, better, best_of, highest_left, pick_next, enqueue, dequeue,
  top_of, set_on_rq, remove,
}
use zxfoundation.Sched.Rt.Picking.{best_of-priority, best_of-snoc}

-- What a dequeue of a queued strand leaves.
abbrev dequeued_queue : RunQueue → ℕ → RunQueue
dequeued_queue rq p = record rq {
  rt_queue = remove p rq.rt_queue;
  nr_running = if rq.nr_running == 0 then rq.nr_running else rq.nr_running - 1;
}

abbrev dequeued : (max_cpus : ℕ) → SchedState → RunQueue → ℕ → SchedState
dequeued max_cpus w rq p =
    let w1 = set_on_rq w p false in
    record w1 {
      index =
          pri_set max_cpus w.index rq.cpu_id (pri_top max_cpus w.index rq.cpu_id)
            (top_of w1.strands (best_of w1.strands none (remove p rq.rt_queue)));
    }

-- The two loops over the queue find the same strand.
highest_left-best_of :
    (strands : ℕ → Strand) (best : Option ℕ) (cs : List ℕ)
    → highest_left strands best cs ≡ best_of strands best cs
unfolding highest_left best_of better
highest_left-best_of strands best [] = refl
highest_left-best_of strands none (c ∷ cs) = highest_left-best_of strands (some c) cs
highest_left-best_of strands (some b) (c ∷ cs) =
    highest_left-best_of strands
      (if ltb (priority strands b) (priority strands c) then some c else some b) cs

dequeue-dequeued :
    (max_cpus : ℕ) (w : SchedState) (rq : RunQueue) (p : ℕ)
    → (w.strands p).on_rq ≡ true
    → dequeue max_cpus w rq p ≡ (dequeued max_cpus w rq p, dequeued_queue rq p)
unfolding dequeue
dequeue-dequeued max_cpus w rq p on =
    let w1 = set_on_rq w p false in
    rw on (
      ap
        (λ b.
          let changed : SchedState = record w1 {
            index =
                pri_set max_cpus w.index rq.cpu_id (pri_top max_cpus w.index rq.cpu_id)
                  (top_of w1.strands b);
          } in
          (changed, dequeued_queue rq p))
        (highest_left-best_of w1.strands none (remove p rq.rt_queue)))

-- After a dequeue of a queued strand on a CPU whose index agrees, the cached top priority of the CPU
-- is the real-time priority of the strand picked next, or 255 with no strand left, and the index
-- agrees for every CPU it did.
pub dequeue-top :
    (max_cpus : ℕ) (w : SchedState) (rq : RunQueue) (p : ℕ)
    → rq.cpu_id < max_cpus
    → IsIndexed w.index rq.cpu_id
    → (w.strands p).on_rq ≡ true
    → let (w', rq') = dequeue max_cpus w rq p in
      (((pick_next w' rq' ≡ none) × (pri_top max_cpus w'.index rq.cpu_id ≡ 255))
        ⊎ ((c : ℕ) × (pick_next w' rq' ≡ some c)
            × (pri_top max_cpus w'.index rq.cpu_id ≡ (w'.strands c).sched_policy.rt_priority)))
      × ((cpu : ℕ) → IsIndexed w.index cpu → IsIndexed w'.index cpu)
unfolding pick_next top_of
dequeue-top max_cpus w rq p below i on =
    let w1 = set_on_rq w p false in
    let new_top = top_of w1.strands (best_of w1.strands none (remove p rq.rt_queue)) in
    let (here, top, others) = pri_set-IsIndexed max_cpus w.index rq.cpu_id new_top below i in
    rw (dequeue-dequeued max_cpus w rq p on) (
      elim (Option-cases (best_of w1.strands none (remove p rq.rt_queue))) [
        | inl z ↦ inl (z, top ∙ ap (top_of w1.strands) z)
        | inr (c, z) ↦ inr (c, z, top ∙ ap (top_of w1.strands) z)
      ],
      others,
    )

-- The state that an admitted strand's enqueue leaves.
abbrev enqueued : (max_cpus : ℕ) → SchedState → RunQueue → ℕ → SchedState
enqueued max_cpus w rq p = record (set_on_rq w p true) {
  index =
      pri_set max_cpus w.index rq.cpu_id (pri_top max_cpus w.index rq.cpu_id)
        (priority w.strands p);
}

enqueue-enqueued :
    (max_cpus : ℕ) (violation : Strand → ℕ → Bool) (w w' : SchedState) (rq rq' : RunQueue) (p : ℕ)
    → (w.strands p).on_rq ≡ false
    → enqueue max_cpus violation w rq p ≡ (ok tt, w', rq')
    → (w' ≡ enqueued max_cpus w rq p)
      × (rq'.rt_queue ≡ rq.rt_queue ++ p ∷ [])
      × (rq'.cpu_id ≡ rq.cpu_id)
unfolding enqueue
enqueue-enqueued max_cpus violation w w' rq rq' p off h = (ground arith, ground arith, ground arith)

set_on_rq-priority :
    (w : SchedState) (p : ℕ) (b : Bool) (c : ℕ)
    → priority (set_on_rq w p b).strands c ≡ priority w.strands c
set_on_rq-priority w p b c = elim (ℕ_discrete p c) [
  | yes e ↦
      subst (λ x. priority (set_on_rq w p b).strands x ≡ priority w.strands x) e
        (ap (λ s. s.sched_policy.rt_priority)
          (update_self w.strands p (record (w.strands p) { on_rq = b })))
  | no ne ↦
      ap (λ s. s.sched_policy.rt_priority)
        (update_ne w.strands p c (record (w.strands p) { on_rq = b }) ne)
]

-- The cached top priority is lost: where the index agrees and an enqueue of a strand that was not
-- queued succeeds, on a CPU where the strand picked next has a higher priority, the cached top
-- priority is then below that of the strand that is still picked next.
enqueue-lowers :
    (max_cpus : ℕ) (violation : Strand → ℕ → Bool) (w w' : SchedState) (rq rq' : RunQueue) (p b : ℕ)
    → rq.cpu_id < max_cpus
    → IsIndexed w.index rq.cpu_id
    → (w.strands p).on_rq ≡ false
    → enqueue max_cpus violation w rq p ≡ (ok tt, w', rq')
    → pick_next w rq ≡ some b
    → priority w.strands p < priority w.strands b
    → (pick_next w' rq' ≡ some b) × (pri_top max_cpus w'.index rq'.cpu_id < priority w'.strands b)
unfolding pick_next better
enqueue-lowers max_cpus violation w w' rq rq' p b below i off h picked lower =
    let (e, queue, cpu) = enqueue-enqueued max_cpus violation w w' rq rq' p off h in
    let (here, top, others) =
      pri_set-IsIndexed max_cpus w.index rq.cpu_id (priority w.strands p) below i in
    let same = set_on_rq-priority w p true in
    let next =
      best_of-priority w.strands (set_on_rq w p true).strands none (rq.rt_queue ++ p ∷ []) same
      ∙ best_of-snoc w.strands none rq.rt_queue p
      ∙ ap (λ o. better w.strands o p) picked in
    rw (e, queue, cpu) (next ∙ ground arith, omega (arith, top, same b, lower))
