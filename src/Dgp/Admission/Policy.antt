-- ===== src/Dgp/Admission/Policy.antt =====
-- Which scheduler policies are admitted.
use zxfoundation.Base.{
  ℕ, ◌≤◌, ◌<◌, ◌≡◌, ◌≢◌, ◌⊎◌, inl, inr, refl, Bool, true, ok, err, from_generic, invalid_arg, arith,
  Result-cases, KernelError,
}
use zxfoundation.Scoms.Kobject.{LifecycleState, active}
use zxfoundation.Dgp.Admission.{
  SchedClass, SchedPolicy, SchedAdmission, idle, fair, rt, deadline, mask_is_valid, admit_class,
  validate_scheduler_policy, masks_valid, plain, reserving,
}

-- What the classes ask for: nothing for idle and fair work, and for real-time and deadline work the
-- authority, a reservation that fits its period (and its deadline, which fits the period), a
-- priority from 1 to 99 for real-time work, and masks within the machine.
abbrev pub IsAdmissible : ℕ → SchedClass → SchedPolicy → Bool → Type 0
IsAdmissible max_cpus idle policy authority = Unit
IsAdmissible max_cpus fair policy authority = Unit
IsAdmissible max_cpus rt policy authority =
    (authority ≡ true)
    × (0 < policy.rt_priority)
    × (policy.rt_priority ≤ 99)
    × (0 < policy.runtime_ns)
    × (policy.runtime_ns ≤ policy.period_ns)
    × (mask_is_valid policy.allowed_cpus max_cpus ≡ true)
    × (mask_is_valid policy.allowed_numa_nodes 64 ≡ true)
IsAdmissible max_cpus deadline policy authority =
    (authority ≡ true)
    × (0 < policy.runtime_ns)
    × (policy.runtime_ns ≤ policy.deadline_ns)
    × (policy.deadline_ns ≤ policy.period_ns)
    × (mask_is_valid policy.allowed_cpus max_cpus ≡ true)
    × (mask_is_valid policy.allowed_numa_nodes 64 ≡ true)

-- The reservation that an admitted policy gets.
abbrev pub granted : SchedClass → SchedPolicy → SchedAdmission
granted idle policy = plain policy
granted fair policy = plain policy
granted rt policy = reserving policy
granted deadline policy = reserving policy

admit_class-granted :
    (max_cpus : ℕ) (c : SchedClass) (policy : SchedPolicy) (authority : Bool)
    → IsAdmissible max_cpus c policy authority
    → admit_class max_cpus c policy authority ≡ ok (granted c policy)
unfolding admit_class masks_valid
admit_class-granted max_cpus idle policy authority h = refl
admit_class-granted max_cpus fair policy authority h = refl
admit_class-granted max_cpus rt policy authority h = ground arith
admit_class-granted max_cpus deadline policy authority h = ground arith

admit_class-IsAdmissible :
    (max_cpus : ℕ) (c : SchedClass) (policy : SchedPolicy) (authority : Bool) (r : SchedAdmission)
    → admit_class max_cpus c policy authority ≡ ok r
    → IsAdmissible max_cpus c policy authority
unfolding admit_class masks_valid
admit_class-IsAdmissible max_cpus idle policy authority r h = tt
admit_class-IsAdmissible max_cpus fair policy authority r h = tt
admit_class-IsAdmissible max_cpus rt policy authority r h = ground arith
admit_class-IsAdmissible max_cpus deadline policy authority r h = ground arith

admit_class_refused :
    (max_cpus : ℕ) (c : SchedClass) (policy : SchedPolicy) (authority : Bool) (e : KernelError)
    → admit_class max_cpus c policy authority ≡ err e
    → e ≡ from_generic invalid_arg
unfolding admit_class
admit_class_refused max_cpus idle policy authority e h = ground arith
admit_class_refused max_cpus fair policy authority e h = ground arith
admit_class_refused max_cpus rt policy authority e h = ground arith
admit_class_refused max_cpus deadline policy authority e h = ground arith

granted_fits :
    (max_cpus : ℕ) (c : SchedClass) (policy : SchedPolicy) (authority : Bool)
    → IsAdmissible max_cpus c policy authority
    → (granted c policy).admitted_runtime_ns ≤ (granted c policy).admitted_period_ns
granted_fits max_cpus idle policy authority a = omega arith
granted_fits max_cpus fair policy authority a = omega arith
granted_fits max_cpus rt policy authority (_, _, _, _, fits, _, _) = fits
granted_fits max_cpus deadline policy authority (_, _, low, high, _, _) = omega (arith, low, high)

-- A policy is admitted exactly for an active domain that asks for what its class allows, and is
-- given the reservation that it asked for (none for idle and fair work), which fits its period; any
-- other request is refused as an invalid argument.
pub validate_scheduler_policy-Admitted :
    (max_cpus : ℕ) (state : LifecycleState) (policy : SchedPolicy) (authority : Bool)
    → ((state ≡ active)
        × IsAdmissible max_cpus policy.class_id policy authority
        × (validate_scheduler_policy max_cpus state policy authority
            ≡ ok (granted policy.class_id policy))
        × ((granted policy.class_id policy).admitted_runtime_ns
            ≤ (granted policy.class_id policy).admitted_period_ns))
      ⊎ (¬ ((state ≡ active) × IsAdmissible max_cpus policy.class_id policy authority)
          × (validate_scheduler_policy max_cpus state policy authority
              ≡ err (from_generic invalid_arg)))
unfolding validate_scheduler_policy
validate_scheduler_policy-Admitted max_cpus state policy authority = elim (active_or state) [
  | inr off ↦ inr (λ h. off h.0, ground arith)
  | inl on ↦ elim (Result-cases (admit_class max_cpus policy.class_id policy authority)) [
    | inl (e, refused) ↦
        let same = admit_class_refused max_cpus policy.class_id policy authority e refused in
        let right = admit_class-granted max_cpus policy.class_id policy authority in
        inr (λ h. absurd (ground (arith, right h.1)), ground arith)
    | inr (r, admitted) ↦
        let a = admit_class-IsAdmissible max_cpus policy.class_id policy authority r admitted in
        let right = admit_class-granted max_cpus policy.class_id policy authority a in
        inl (on, a, ground arith, granted_fits max_cpus policy.class_id policy authority a)
  ]
]
  where
    active_or : (s : LifecycleState) → (s ≡ active) ⊎ (s ≢ active)
    active_or s = ground arith
