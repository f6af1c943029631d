-- ===== src/Sched/Classed/Boosting.antt =====
-- The class of a strand under priority inheritance.
use zxfoundation.Base.{ℕ, ◌<◌, ◌≡◌, arith, false, some}
use zxfoundation.Dgp.Admission.{fair, deadline}
use zxfoundation.Sched.Rt.{Strand, StrandBody, boost_prio}
use zxfoundation.Sched.Classed.{is_idle_strand, class_of}

-- A boost that takes effect does not bring a strand into the real-time class: one that was admitted
-- as fair is still dispatched as fair, and a deadline strand falls to the fair class.
boost_prio-class_of :
    (s : Strand) (body : StrandBody) (new_prio : ℕ)
    → s.body ≡ some body
    → body.boosted_prio < new_prio
    → is_idle_strand s ≡ false
    → (s.sched_admission.class_id ≡ fair → class_of (boost_prio s new_prio) ≡ fair)
      × (class_of s ≡ deadline → class_of (boost_prio s new_prio) ≡ fair)
unfolding boost_prio class_of is_idle_strand
boost_prio-class_of s body new_prio has_body up busy = (λ e. ground arith, λ e. ground arith)
