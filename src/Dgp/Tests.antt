-- ===== src/Dgp/Tests.antt =====
-- Runs of the synchronization contracts and of a domain's teardown at concrete inputs.
use zxfoundation.Base.{
  ◌-◌, ◌≤◌, ◌≡◌, refl, true, List, [], ◌∷◌, map, ok, err, from_locking, not_locked,
}
use zxfoundation.Scoms.Kobject.{active, dying, domain, transition}
use zxfoundation.Dgp.SyncContract.{
  Domain, Percpu, TeardownPhase, none_phase, deny_new_entries, drain_gates, drain_portals, thread,
  must_be_disabled, phase_code, contract_snapshot, validate_irq_state, claim_domain_destroy,
  advance_teardown_phase, validate_teardown_phase,
}
use zxfoundation.Dgp.SyncContract.Phases.{stored, entered, count_up, entered_in_order}

abbrev cpu : Percpu
cpu = record { cpu_id = 1; lock_depth = 0; in_rcu_read_side = 0; irqs_enabled = true }

irq_test :
    validate_irq_state (contract_snapshot cpu thread none_phase 7) must_be_disabled
    ≡ err (from_locking not_locked)
unfolding validate_irq_state contract_snapshot
irq_test = refl

-- A skipped phase and a repeated one are refused.
abbrev calls : List (TeardownPhase × TeardownPhase)
calls =
    (none_phase, deny_new_entries)
    ∷ (none_phase, deny_new_entries)
    ∷ (deny_new_entries, drain_portals)
    ∷ (deny_new_entries, drain_gates)
    ∷ []

calls-entered : entered none_phase calls ≡ deny_new_entries ∷ drain_gates ∷ []
unfolding entered advance_teardown_phase validate_teardown_phase
calls-entered = refl

entered_in_order_example :
    (0 ≤ phase_code (stored none_phase calls))
    × (map phase_code (entered none_phase calls)
        ≡ count_up 1 (phase_code (stored none_phase calls) - 0))
entered_in_order_example = entered_in_order none_phase calls

abbrev guest : Domain
guest = record {
  ko = record {
    id = 7;
    type = domain;
    state = active;
    count = 1;
    generation = 1;
    object_flags = 0;
  };
  phase = none_phase;
}

abbrev dying_guest : Domain
dying_guest = record guest { ko = record guest.ko { state = dying } }

guest-claimed : claim_domain_destroy guest ≡ (ok tt, dying_guest)
unfolding claim_domain_destroy transition
guest-claimed = refl
