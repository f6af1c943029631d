-- ===== src/Sched/Rt/Boosts.antt =====
-- Priority inheritance: boosts of a strand, and their end.
use zxfoundation.Base.{ℕ, ◌≡◌, ◌≢◌, List, [], ◌∷◌, some, if◌then◌else◌, ltb, ◌==◌}
use zxfoundation.Dgp.Admission.{SchedPolicy, rt}
use zxfoundation.Sched.Rt.{Strand, StrandBody, boost_prio}

-- Boosts one after the other.
unfoldable pub boosts : Strand → List ℕ → Strand
boosts s [] = s
boosts s (p ∷ ps) = boosts (boost_prio s p) ps

unfoldable pub higher : ℕ → ℕ → ℕ
higher a b = if ltb a b then b else a

-- The highest of the priorities and `m`.
unfoldable pub highest : ℕ → List ℕ → ℕ
highest m [] = m
highest m (p ∷ ps) = highest (higher m p) ps

-- A policy that is boosted to `m`, if `m` is a priority.
unfoldable pub boosted_policy : SchedPolicy → ℕ → SchedPolicy
boosted_policy policy m =
    if m == 0 then policy else record policy { class_id = rt; rt_priority = m }

-- The strand `s` with the policy is boosted to `m`, and its body remembers the policy.
record IsBoosted (policy : SchedPolicy) (s : Strand) (m : ℕ) : Type 0 where
  body : StrandBody
  has_body : s.body ≡ some body
  level : body.boosted_prio ≡ m
  policy_now : s.sched_policy ≡ boosted_policy policy m
  saved_class : m ≢ 0 → body.saved_class ≡ policy.class_id
  saved_prio : m ≢ 0 → body.saved_prio ≡ policy.rt_priority
