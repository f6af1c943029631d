-- ===== src/Dgp/Signal/Faults.antt =====
-- Two faults of delivery where some kinds are blocked.
use zxfoundation.Base.{
  ℕ, zero, suc, ◌+◌, ◌-◌, ◌%◌, ◌≤◌, ◌<◌, ◌≡◌, ◌≢◌, inl, inr, refl, Bool, false, none, some,
  Option-cases, arith,
}
use zxfoundation.Base.Arrays.{update_self}
use zxfoundation.Scoms.Kobject.{dying}
use zxfoundation.Dgp.Signal.{
  SignalQueue, SignalDomain, signal_queue_depth, is_deliverable, find_entry, close_gap,
  remove_entry, counted_down, signal_deliver_one, signal_deliver_all, has_pending, append_entry,
  enqueue,
}
use zxfoundation.Dgp.Signal.Queue.{IsRing, signal}
use zxfoundation.Dgp.Signal.Delivery.{deliver_entry-queue}

-- Something is queued, and none of it may be delivered.
pub record IsBlocked (q : SignalQueue) : Type 0 where
  pub waiting : 0 < q.count
  pub held_back :
      (j : ℕ)
      → j < q.count
      → is_deliverable q (q.entries ((q.head + j) % signal_queue_depth)) ≡ false

find_entry-none :
    (n i : ℕ) (q : SignalQueue)
    → ((j : ℕ)
        → i ≤ j
        → j < i + n
        → is_deliverable q (q.entries ((q.head + j) % signal_queue_depth)) ≡ false)
    → find_entry n i q ≡ none
unfolding find_entry
find_entry-none zero i q off = refl
find_entry-none (suc n) i q off =
    let rest =
      find_entry-none n (i + 1) q
        (λ j low high. off j (omega (arith, low)) (omega (arith, high))) in
    rw (off i (omega arith) (omega arith), rest)

signal_deliver_one-blocked :
    (d : SignalDomain) → IsBlocked d.signal_queue → signal_deliver_one d ≡ some (false, d)
unfolding signal_deliver_one
signal_deliver_one-blocked d b =
    let q = d.signal_queue in
    let f = find_entry-none q.count 0 q (λ j low high. b.held_back j (omega (arith, high))) in
    ground (arith, b.waiting)

-- Where something is queued, none of it can be delivered and the domain is not dying,
-- `signal_deliver_all` does not end: no number of rounds is enough.
pub signal_deliver_all-blocked :
    (n : ℕ) (d : SignalDomain)
    → IsBlocked d.signal_queue
    → d.ko.state ≢ dying
    → signal_deliver_all n d ≡ none
unfolding signal_deliver_all has_pending
signal_deliver_all-blocked zero d b live = ground (arith, b.waiting)
signal_deliver_all-blocked (suc n) d b live =
    let one = signal_deliver_one-blocked d b in
    let rest = signal_deliver_all-blocked n d b live in ground (arith, b.waiting)

remove_entry-behind :
    (q left : SignalQueue) (idx : ℕ)
    → idx ≢ q.head
    → remove_entry q idx ≡ some left
    → (left.head ≡ q.head) × (left.tail ≡ q.tail) × (left.count ≡ q.count - 1)
unfolding remove_entry counted_down
remove_entry-behind q left idx ne h =
    elim (Option-cases (
      close_gap signal_queue_depth idx ((q.head + (q.count - 1)) % signal_queue_depth) q.entries)) [
        | inl z ↦ absurd (ground arith)
        | inr (es, z) ↦ (ground arith, ground arith, ground arith)
      ]

signal_deliver_one-behind :
    (d d' : SignalDomain) (b : Bool) (idx : ℕ)
    → 0 < d.signal_queue.count
    → find_entry d.signal_queue.count 0 d.signal_queue ≡ some idx
    → idx ≢ d.signal_queue.head
    → signal_deliver_one d ≡ some (b, d')
    → (d'.signal_queue.head ≡ d.signal_queue.head)
      × (d'.signal_queue.tail ≡ d.signal_queue.tail)
      × (d'.signal_queue.count ≡ d.signal_queue.count - 1)
unfolding signal_deliver_one
signal_deliver_one-behind d d' b idx pos f ne h =
    elim (Option-cases (remove_entry d.signal_queue idx)) [
      | inl z ↦ absurd (ground arith)
      | inr (left, z) ↦
          let (a, t, c) = remove_entry-behind d.signal_queue left idx ne z in
          let kept =
            deliver_entry-queue (record d { signal_queue = left }) (d.signal_queue.entries idx) in
          (ground arith, ground arith, ground arith)
    ]

enqueue-room :
    (q : SignalQueue) (kind payload : ℕ)
    → q.count < signal_queue_depth
    → enqueue q kind payload ≡ append_entry q kind payload
unfolding enqueue
enqueue-room q kind payload room = ground arith

-- A signal is lost: where the queue is not full and a signal behind the oldest one is delivered, the
-- tail does not move back, so the next signal is written to a slot that no place of the queue has.
pub signal_deliver_one-loses :
    (d d' : SignalDomain) (b : Bool) (idx kind payload : ℕ)
    → IsRing d.signal_queue
    → 0 < d.signal_queue.count
    → d.signal_queue.count < signal_queue_depth
    → find_entry d.signal_queue.count 0 d.signal_queue ≡ some idx
    → idx ≢ d.signal_queue.head
    → signal_deliver_one d ≡ some (b, d')
    → let q = enqueue d'.signal_queue kind payload in
      (q.entries d'.signal_queue.tail ≡ signal kind payload)
      × ((j : ℕ) → j < q.count → (q.head + j) % signal_queue_depth ≢ d'.signal_queue.tail)
unfolding append_entry
signal_deliver_one-loses d d' b idx kind payload r pos room f ne h =
    let (a, t, c) = signal_deliver_one-behind d d' b idx pos f ne h in
    let put = enqueue-room d'.signal_queue kind payload (omega (arith, c, room)) in
    rw put (
      update_self d'.signal_queue.entries d'.signal_queue.tail (signal kind payload),
      λ j below same. omega (arith, below, same, a, t, c, pos, room, r.tail_at, r.head_in),
    )
