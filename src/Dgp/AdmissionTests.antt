-- ===== src/Dgp/AdmissionTests.antt =====
-- Runs of the scheduler's admission at concrete inputs.
use zxfoundation.Base.{◌≤◌, ◌≡◌, ◌⊎◌, refl, true, false, ok, err, from_generic, invalid_arg}
use zxfoundation.Scoms.Kobject.{active, sealed}
use zxfoundation.Dgp.Admission.{
  SchedPolicy, deadline, fifo, mask_is_valid, masks_valid, admit_class, reserving,
  validate_scheduler_policy, validate_scheduler_admission,
}
use zxfoundation.Dgp.Admission.Policy.{IsAdmissible, validate_scheduler_policy-Admitted}

abbrev camera : SchedPolicy
camera = record {
  class_id = deadline;
  rt_behavior = fifo;
  rt_priority = 0;
  runtime_ns = 2000;
  deadline_ns = 5000;
  period_ns = 10000;
  allowed_cpus = 3;
  allowed_numa_nodes = 0;
  allow_smt_sibling = false;
  isolation_sensitive = false;
  user_visible = true;
}

camera-admitted : validate_scheduler_policy 2 active camera true ≡ ok (reserving camera)
unfolding validate_scheduler_policy admit_class masks_valid mask_is_valid
camera-admitted = refl

-- A processor mask beyond the machine, and a missing authority.
camera_outside : validate_scheduler_policy 1 active camera true ≡ err (from_generic invalid_arg)
unfolding validate_scheduler_policy admit_class masks_valid mask_is_valid
camera_outside = refl

camera_unauthorized :
    validate_scheduler_policy 2 active camera false ≡ err (from_generic invalid_arg)
unfolding validate_scheduler_policy admit_class masks_valid mask_is_valid
camera_unauthorized = refl

sealed_refused : validate_scheduler_admission true sealed 4096 1 ≡ err (from_generic invalid_arg)
unfolding validate_scheduler_admission
sealed_refused = refl

validate_scheduler_policy-Admitted_example :
    ((active ≡ active)
      × IsAdmissible 2 deadline camera true
      × (validate_scheduler_policy 2 active camera true ≡ ok (reserving camera))
      × (2000 ≤ 10000))
    ⊎ (¬ ((active ≡ active) × IsAdmissible 2 deadline camera true)
        × (validate_scheduler_policy 2 active camera true ≡ err (from_generic invalid_arg)))
validate_scheduler_policy-Admitted_example = validate_scheduler_policy-Admitted 2 active camera true
