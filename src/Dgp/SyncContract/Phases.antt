-- ===== src/Dgp/SyncContract/Phases.antt =====
-- The teardown of a domain runs through its phases one by one.
use zxfoundation.Base.{
  ℕ, zero, suc, List, [], ◌∷◌, map, ◌+◌, ◌-◌, ◌≤◌, ◌≡◌, ◌⊎◌, inl, inr, sym, ok, err, from_generic,
  invalid_arg, arith, ℕ_discrete, ap,
}
use zxfoundation.Dgp.SyncContract.{
  TeardownPhase, phase_code, validate_teardown_phase, advance_teardown_phase, none_phase,
  deny_new_entries, drain_gates, drain_portals, release_memory, release_identity,
}

phase_code-injective : (p q : TeardownPhase) → phase_code p ≡ phase_code q → p ≡ q
phase_code-injective p q h = ground arith

validate_teardown_phase-cases :
    (p q : TeardownPhase)
    → ((validate_teardown_phase p q ≡ ok tt) × (phase_code q ≡ phase_code p + 1))
      ⊎ ((validate_teardown_phase p q ≡ err (from_generic invalid_arg))
          × ¬ (phase_code q ≡ phase_code p + 1))
unfolding validate_teardown_phase
validate_teardown_phase-cases none_phase q = ground arith
validate_teardown_phase-cases deny_new_entries q = ground arith
validate_teardown_phase-cases drain_gates q = ground arith
validate_teardown_phase-cases drain_portals q = ground arith
validate_teardown_phase-cases release_memory q = ground arith
validate_teardown_phase-cases release_identity q = ground arith

-- What one call does: it is accepted, and stores the requested phase, exactly if the stored phase
-- is the expected one and the requested one follows it; otherwise it changes nothing.
pub advance_teardown_phase-Step :
    (p e r : TeardownPhase)
    → ((advance_teardown_phase p e r ≡ (ok tt, r)) × (p ≡ e) × (phase_code r ≡ phase_code p + 1))
      ⊎ ((advance_teardown_phase p e r ≡ (err (from_generic invalid_arg), p))
          × ¬ ((p ≡ e) × (phase_code r ≡ phase_code p + 1)))
unfolding advance_teardown_phase
advance_teardown_phase-Step p e r = elim (ℕ_discrete (phase_code p) (phase_code e)) [
  | no ne ↦ inr (ground arith, λ h. ne (ap phase_code h.0))
  | yes eq ↦ elim (validate_teardown_phase-cases e r) [
    | inl (v, next) ↦ inl (ground arith, phase_code-injective p e eq, omega (arith, next, eq))
    | inr (v, not_next) ↦ inr (ground arith, λ h. not_next (omega (arith, h.1, eq)))
  ]
]

-- A history of calls, each with the expected and the requested phase: the phase stored at its end,
-- and the phases entered by the calls that were accepted.
unfoldable pub stored : TeardownPhase → List (TeardownPhase × TeardownPhase) → TeardownPhase
stored p [] = p
stored p ((e, r) ∷ calls) = stored (advance_teardown_phase p e r).1 calls

unfoldable pub entered : TeardownPhase → List (TeardownPhase × TeardownPhase) → List TeardownPhase
entered p [] = []
entered p ((e, r) ∷ calls) =
    let rest = entered (advance_teardown_phase p e r).1 calls in
    elim (advance_teardown_phase p e r).0 [ ok u ↦ r ∷ rest | err x ↦ rest ]

unfoldable pub count_up : ℕ → ℕ → List ℕ
count_up k zero = []
count_up k (suc n) = k ∷ count_up (k + 1) n

entered_accepted :
    (p e r : TeardownPhase) (calls : List (TeardownPhase × TeardownPhase))
    → advance_teardown_phase p e r ≡ (ok tt, r)
    → (stored p ((e, r) ∷ calls) ≡ stored r calls)
      × (entered p ((e, r) ∷ calls) ≡ r ∷ entered r calls)
unfolding stored entered
entered_accepted p e r calls a = (ground arith, ground arith)

entered_refused :
    (p e r : TeardownPhase) (calls : List (TeardownPhase × TeardownPhase))
    → advance_teardown_phase p e r ≡ (err (from_generic invalid_arg), p)
    → (stored p ((e, r) ∷ calls) ≡ stored p calls) × (entered p ((e, r) ∷ calls) ≡ entered p calls)
unfolding stored entered
entered_refused p e r calls a = (ground arith, ground arith)

-- Whatever calls are made in whatever order, the phase never goes back, and the phases entered are
-- all those between the first and the last one, each exactly once and in their order.
pub entered_in_order :
    (p : TeardownPhase) (calls : List (TeardownPhase × TeardownPhase))
    → (phase_code p ≤ phase_code (stored p calls))
      × (map phase_code (entered p calls)
          ≡ count_up (phase_code p + 1) (phase_code (stored p calls) - phase_code p))
unfolding stored entered count_up
entered_in_order p [] = (omega arith, rw none_left)
  where
    none_left : phase_code p - phase_code p ≡ 0
    none_left = omega arith
entered_in_order p ((e, r) ∷ calls) = elim (advance_teardown_phase-Step p e r) [
  | inl (a, same, next) ↦
      let (up, order) = entered_in_order r calls in
      let (s, t) = entered_accepted p e r calls a in
      let more : phase_code (stored r calls) - phase_code p
          ≡ suc (phase_code (stored r calls) - phase_code r) =
        omega (arith, up, next) in
      rw (s, t) (omega (arith, up, next), rw (more, sym next) (ap (λ x. phase_code r ∷ x) order))
  | inr (a, refused) ↦
      let (s, t) = entered_refused p e r calls a in rw (s, t) (entered_in_order p calls)
]
