-- ===== src/Dgp/SignalTests.antt =====
-- Runs of a domain's signals at concrete inputs.
use zxfoundation.Base.{
  ℕ, ◌+◌, ◌%◌, ◌<◌, ◌≡◌, ◌≢◌, ◌⊎◌, refl, Bool, true, false, [], ◌∷◌, Option, none, some, arith,
}
use zxfoundation.Scoms.Kobject.{domain, active, dying, transition}
use zxfoundation.Dgp.Signal.{
  SignalQueue, SignalDomain, HandlerInfo, ignore, empty_entry, enqueue, append_entry,
  is_deliverable, find_entry, close_gap, remove_entry, deliver_entry, signal_deliver_one,
  signal_deliver_all, has_pending,
}
use zxfoundation.Dgp.Signal.Queue.{IsRing, contents, window, push_bounded, signal, enqueue-contents}
use zxfoundation.Dgp.Signal.Delivery.{IsOpen, signal_deliver_all_ends}
use zxfoundation.Dgp.Signal.Faults.{IsBlocked, signal_deliver_all-blocked, signal_deliver_one-loses}

abbrev silent : HandlerInfo
silent = record { handler = none; user_data = 0; default_action = ignore }

abbrev no_signals : SignalQueue
no_signals = record {
  entries = λ i. empty_entry;
  head = 0;
  tail = 0;
  count = 0;
  pending_mask = 0;
  blocked_mask = 0;
  handlers = λ k. silent;
}

-- A timer and a termination request.
abbrev two_signals : SignalQueue
two_signals = enqueue (enqueue no_signals 1 10) 4 20

abbrev guest : SignalQueue → SignalDomain
guest q = record {
  ko = record {
    id = 7;
    type = domain;
    state = active;
    count = 1;
    generation = 1;
    object_flags = 0;
  };
  need_resched = false;
  signal_queue = q;
}

two_signals-contents : contents two_signals ≡ signal 1 10 ∷ signal 4 20 ∷ []
unfolding contents window enqueue append_entry
two_signals-contents = refl

-- The termination request, which has no handler, ends the loop with a dying domain.
abbrev state_after : Option (Bool × SignalDomain) → Option (Bool × ℕ)
state_after none = none
state_after (some (b, d)) = some (b, d.signal_queue.count)

two_signals-delivered : state_after (signal_deliver_all 2 (guest two_signals)) ≡ some (true, 0)
unfolding signal_deliver_all signal_deliver_one find_entry is_deliverable remove_entry close_gap
    deliver_entry transition enqueue append_entry has_pending
two_signals-delivered = refl

no_signals-IsRing : IsRing no_signals
no_signals-IsRing = record { head_in = omega arith; count_in = omega arith; tail_at = refl }

two_signals-IsRing : IsRing two_signals
unfolding enqueue append_entry
two_signals-IsRing = record { head_in = omega arith; count_in = omega arith; tail_at = refl }

two_signals-IsOpen : IsOpen two_signals
unfolding enqueue append_entry contents window
two_signals-IsOpen = record { ring = two_signals-IsRing; unblocked = refl; named = omega arith }

enqueue-contents_example :
    IsRing (enqueue no_signals 1 10)
    × (contents (enqueue no_signals 1 10) ≡ push_bounded (contents no_signals) 0 (signal 1 10))
enqueue-contents_example = enqueue-contents no_signals 1 10 no_signals-IsRing

signal_deliver_all_ends_example :
    (b : Bool) × (d' : SignalDomain) × (signal_deliver_all 2 (guest two_signals) ≡ some (b, d'))
    × (((b ≡ false) × (d'.signal_queue.count ≡ 0)) ⊎ ((b ≡ true) × (d'.ko.state ≡ dying)))
unfolding enqueue append_entry
signal_deliver_all_ends_example =
    signal_deliver_all_ends 2 (guest two_signals) (omega arith) two_signals-IsOpen

-- One blocked timer.
abbrev blocked_timer : SignalQueue
blocked_timer = record (enqueue no_signals 1 10) { blocked_mask = 2 }

blocked_timer-IsBlocked : IsBlocked blocked_timer
unfolding enqueue append_entry is_deliverable
blocked_timer-IsBlocked = record {
  waiting = omega arith;
  held_back = λ j below. let e : j ≡ 0 = omega (arith, below) in rw e;
}

signal_deliver_all-blocked_example : signal_deliver_all 1000 (guest blocked_timer) ≡ none
signal_deliver_all-blocked_example =
    signal_deliver_all-blocked 1000 (guest blocked_timer) blocked_timer-IsBlocked (λ e. cc)

-- A blocked timer before a user signal that is delivered.
abbrev timer_first : SignalQueue
timer_first = record (enqueue (enqueue no_signals 1 10) 5 20) { blocked_mask = 2 }

abbrev delivered : Option (Bool × SignalDomain) → Bool × SignalDomain
delivered none = (false, guest no_signals)
delivered (some r) = r

abbrev after_delivery : Bool × SignalDomain
after_delivery = delivered (signal_deliver_one (guest timer_first))

timer_first-delivered :
    signal_deliver_one (guest timer_first) ≡ some (after_delivery.0, after_delivery.1)
unfolding signal_deliver_one find_entry is_deliverable remove_entry close_gap deliver_entry enqueue
    append_entry
timer_first-delivered = refl

timer_first-found : find_entry timer_first.count 0 timer_first ≡ some 1
unfolding find_entry is_deliverable enqueue append_entry
timer_first-found = refl

signal_deliver_one-loses_example :
    let q = enqueue after_delivery.1.signal_queue 6 30 in
    (q.entries after_delivery.1.signal_queue.tail ≡ signal 6 30)
    × ((j : ℕ) → j < q.count → (q.head + j) % 16 ≢ after_delivery.1.signal_queue.tail)
unfolding enqueue append_entry
signal_deliver_one-loses_example =
    signal_deliver_one-loses (guest timer_first) after_delivery.1 after_delivery.0 1 6 30
      (record { head_in = omega arith; count_in = omega arith; tail_at = refl }) (omega arith)
      (omega arith) timer_first-found (omega arith) timer_first-delivered
