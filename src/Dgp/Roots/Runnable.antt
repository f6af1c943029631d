-- ===== src/Dgp/Roots/Runnable.antt =====
-- A bound root is what activation and the scheduler ask for.
use zxfoundation.Base.{ℕ, ◌≡◌, ◌↔◌, ◌<◌, true, Bool, ok, arith}
use zxfoundation.Scoms.Kobject.{LifecycleState, sealed, active}
use zxfoundation.Dgp.Isolation.{IsolationDomain}
use zxfoundation.Dgp.Admission.{validate_scheduler_admission}
use zxfoundation.Dgp.Roots.{bind_asce_root, activate_domain, validate_gate_entry, max_domains}

-- A domain whose root was bound can be activated, and once it is active the scheduler admits it;
-- the binding was made while the domain was sealed and changed its root alone.
bind_asce_root-Runnable :
    (d : IsolationDomain) (l : LifecycleState) (asce root_phys : ℕ) {d' : IsolationDomain}
    → bind_asce_root d l asce root_phys ≡ (ok tt, d')
    → (l ≡ sealed)
      × (d' ≡ record d { asce = asce; root_phys = root_phys })
      × (activate_domain l d'.asce d'.root_phys ≡ ok tt)
      × (validate_scheduler_admission true active d'.root_phys d'.asce ≡ ok tt)
unfolding bind_asce_root activate_domain validate_scheduler_admission
bind_asce_root-Runnable d l asce root_phys {d'} h =
    (ground arith, ground arith, ground arith, ground arith)

-- A gate can be entered exactly if isolation is set up, some right is asked for, and the caller and
-- the gate are in range: domains below 256, gates below 1024.
validate_gate_entry_iff :
    (initialized : Bool) (caller gate requested : ℕ)
    → (validate_gate_entry initialized caller gate requested ≡ ok tt)
      ↔ ((initialized ≡ true) × (0 < requested) × (caller < max_domains) × (gate < 1024))
unfolding validate_gate_entry
validate_gate_entry_iff initialized caller gate requested = ground arith
