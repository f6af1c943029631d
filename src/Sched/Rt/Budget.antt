-- ===== src/Sched/Rt/Budget.antt =====
-- Reservations of real-time bandwidth.
use zxfoundation.Base.{
  ℕ, ◌+◌, ◌^◌, ◌≤◌, ◌<◌, ◌≡◌, refl, sym, subst, arith, Result-cases, Option-cases, inl, inr, ok,
  err, done, Result, KernelError, some, true,
}
use zxfoundation.Dgp.Admission.{SchedPolicy, SchedAdmission, rt, validate_scheduler_policy}
use zxfoundation.Sched.Rt.{
  RtDomain, Strand, StrandBody, has_rt_authority, reserve_domain_runtime, release_domain_runtime,
  admit_reserved, admit, release_admission, rescheduled, no_policy, no_admission, is_class,
}

-- No more is reserved than the budget, which is a machine word.
pub record IsBudgeted (d : RtDomain) : Type 0 where
  pub within : d.rt_reserved_ns ≤ d.rt_budget_ns
  pub word : d.rt_budget_ns < 2 ^ 64

reserve_domain_runtime-ok :
    (d d' : RtDomain) (runtime_ns period_ns : ℕ)
    → IsBudgeted d
    → reserve_domain_runtime d runtime_ns period_ns ≡ (ok tt, d')
    → (d'.rt_budget_ns ≡ d.rt_budget_ns)
      × (d'.rt_reserved_ns ≡ d.rt_reserved_ns + runtime_ns)
      × (d.rt_reserved_ns + runtime_ns ≤ d.rt_budget_ns)
unfolding reserve_domain_runtime
reserve_domain_runtime-ok d d' runtime_ns period_ns b h = (
  ground (arith, b.within, b.word),
  ground (arith, b.within, b.word),
  ground (arith, b.within, b.word),
)

reserve_domain_runtime-err :
    (d d' : RtDomain) (runtime_ns period_ns : ℕ) (e : KernelError)
    → reserve_domain_runtime d runtime_ns period_ns ≡ (err e, d')
    → (d'.rt_budget_ns ≡ d.rt_budget_ns) × (d'.rt_reserved_ns ≡ d.rt_reserved_ns)
unfolding reserve_domain_runtime
reserve_domain_runtime-err d d' runtime_ns period_ns e h = (ground arith, ground arith)

-- What an admission did.
record IsAdmitted (owner d' : RtDomain) (s s' : Strand) (policy : SchedPolicy) (a : SchedAdmission)
    : Type 0 where
  body : StrandBody
  class_rt : is_class policy.class_id rt ≡ true
  had_body : s.body ≡ some body
  strand : s' ≡ rescheduled s body policy a
  reserved : reserve_domain_runtime owner a.admitted_runtime_ns a.admitted_period_ns ≡ (ok tt, d')

admit-IsAdmitted :
    (max_cpus : ℕ) (owner d' : RtDomain) (s s' : Strand) (policy : SchedPolicy) (a : SchedAdmission)
    → admit max_cpus owner s policy ≡ done (ok a, d', s')
    → IsAdmitted owner d' s s' policy a
unfolding admit admit_reserved
admit-IsAdmitted max_cpus owner d' s s' policy a h =
    elim (Result-cases
      (validate_scheduler_policy max_cpus owner.ko.state policy (has_rt_authority owner))) [
        | inl (e, z) ↦ absurd (ground arith)
        | inr (x, z) ↦
            let w = reserve_domain_runtime owner x.admitted_runtime_ns x.admitted_period_ns in
            elim (Result-cases w.0) [
              | inl (e, y) ↦ absurd (ground arith)
              | inr (u, y) ↦ elim (Option-cases s.body) [
                | inl no_body ↦ absurd (ground arith)
                | inr (body, has_body) ↦
                    let same : x ≡ a = ground arith in
                    let domain_same : w.1 ≡ d' = ground arith in
                    record {
                      body = body;
                      class_rt = ground arith;
                      had_body = has_body;
                      strand = ground arith;
                      reserved =
                          subst
                            (λ v.
                              reserve_domain_runtime owner v.admitted_runtime_ns
                                v.admitted_period_ns
                              ≡ (ok tt, d'))
                            same (λ j. (y j, domain_same j));
                    }
              ]
            ]
      ]

-- A refused request reserves nothing and leaves the strand as it is.
admit-err :
    (max_cpus : ℕ) (owner d' : RtDomain) (s s' : Strand) (policy : SchedPolicy) (e : KernelError)
    → admit max_cpus owner s policy ≡ done (err e, d', s')
    → (s' ≡ s) × (d'.rt_budget_ns ≡ owner.rt_budget_ns) × (d'.rt_reserved_ns ≡ owner.rt_reserved_ns)
unfolding admit admit_reserved
admit-err max_cpus owner d' s s' policy e h =
    elim (Result-cases
      (validate_scheduler_policy max_cpus owner.ko.state policy (has_rt_authority owner))) [
        | inl (f, z) ↦ (ground arith, ground arith, ground arith)
        | inr (x, z) ↦
            let w = reserve_domain_runtime owner x.admitted_runtime_ns x.admitted_period_ns in
            elim (Result-cases w.0) [
              | inl (f, y) ↦
                  let (budget, reserved) =
                    reserve_domain_runtime-err owner w.1 x.admitted_runtime_ns x.admitted_period_ns
                      f (λ j. (y j, w.1)) in
                  (ground arith, ground arith, ground arith)
              | inr (u, y) ↦ elim (Option-cases s.body) [
                | inl no_body ↦ (ground arith, ground arith, ground arith)
                | inr (body, has_body) ↦ (ground arith, ground arith, ground arith)
              ]
            ]
      ]

release_admission-gives :
    (owner d' : RtDomain) (s s' : Strand) (policy : SchedPolicy) (a : SchedAdmission)
    → d'.rt_reserved_ns ≡ owner.rt_reserved_ns + a.admitted_runtime_ns
    → IsAdmitted owner d' s s' policy a
    → (d'' : RtDomain) × (s'' : Strand) × (release_admission d' s' ≡ done (d'', s''))
      × (d''.rt_reserved_ns ≡ owner.rt_reserved_ns)
unfolding release_admission release_domain_runtime
release_admission-gives owner d' s s' policy a reserved i =
    let fresh = record (i.body) { rt_runtime_used_ns = 0; rt_period_start_ns = 0 } in
    subst
      (λ x.
        (d'' : RtDomain) × (s'' : Strand) × (release_admission d' x ≡ done (d'', s''))
        × (d''.rt_reserved_ns ≡ owner.rt_reserved_ns))
      (sym i.strand)
      (
        release_domain_runtime d' a.admitted_runtime_ns,
        rescheduled (rescheduled s i.body policy a) fresh no_policy no_admission,
        rw (i.class_rt) refl,
        ground (arith, reserved),
      )

-- An admission keeps a domain within its budget, whatever its result. If it is refused, nothing is
-- reserved and the strand is as before; if it succeeds, exactly the admitted runtime is reserved,
-- and releasing the strand gives back all of it.
pub admit-release_admission :
    (max_cpus : ℕ) (owner d' : RtDomain) (s s' : Strand) (policy : SchedPolicy)
    (r : Result SchedAdmission)
    → IsBudgeted owner
    → admit max_cpus owner s policy ≡ done (r, d', s')
    → IsBudgeted d'
      × ((e : KernelError) → r ≡ err e → (d'.rt_reserved_ns ≡ owner.rt_reserved_ns) × (s' ≡ s))
      × ((a : SchedAdmission)
          → r ≡ ok a
          → (d'.rt_reserved_ns ≡ owner.rt_reserved_ns + a.admitted_runtime_ns)
            × ((d'' : RtDomain) × (s'' : Strand) × (release_admission d' s' ≡ done (d'', s''))
                × (d''.rt_reserved_ns ≡ owner.rt_reserved_ns)))
admit-release_admission max_cpus owner d' s s' policy r b h = elim (Result-cases r) [
  | inl (e, z) ↦
      let (same, budget, reserved) =
        admit-err max_cpus owner d' s s' policy e
          (subst (λ x. admit max_cpus owner s policy ≡ done (x, d', s')) z h) in
      (
        record {
          within = omega (arith, budget, reserved, b.within);
          word = omega (arith, budget, b.word);
        },
        (λ f y. (reserved, same)),
        (λ a y. absurd (ground arith)),
      )
  | inr (a, z) ↦
      let i =
        admit-IsAdmitted max_cpus owner d' s s' policy a
          (subst (λ x. admit max_cpus owner s policy ≡ done (x, d', s')) z h) in
      let (budget, reserved, within) =
        reserve_domain_runtime-ok owner d' a.admitted_runtime_ns a.admitted_period_ns b
          i.reserved in
      (
        record {
          within = omega (arith, budget, reserved, within);
          word = omega (arith, budget, b.word);
        },
        (λ f y. absurd (ground arith)),
        (λ c y.
            let same : a ≡ c = ground arith in
            subst
              (λ v.
                (d'.rt_reserved_ns ≡ owner.rt_reserved_ns + v.admitted_runtime_ns)
                × ((d'' : RtDomain) × (s'' : Strand) × (release_admission d' s' ≡ done (d'', s''))
                    × (d''.rt_reserved_ns ≡ owner.rt_reserved_ns)))
              same (reserved, release_admission-gives owner d' s s' policy a reserved i)),
      )
]
