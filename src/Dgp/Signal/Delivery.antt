-- ===== src/Dgp/Signal/Delivery.antt =====
-- Delivery where nothing is blocked: oldest first, and to the end.
use zxfoundation.Base.{
  ℕ, zero, suc, ◌+◌, ◌-◌, ◌%◌, ◌≤◌, ◌<◌, ◌≡◌, ◌≢◌, ◌⊎◌, inl, inr, refl, ap, ◌∙◌, Bool, true, false,
  List, [], ◌∷◌, some, arith, ==_refl, ==_ne, bit_and, Bool-cases, dec_lt,
}
use zxfoundation.Base.Bits.{zero-bit_and}
use zxfoundation.Base.Arrays.{update}
use zxfoundation.Scoms.Kobject.{dying, is_state}
use zxfoundation.Dgp.Signal.{
  SignalEntry, SignalQueue, SignalDomain, signal_queue_depth, empty_entry, is_deliverable,
  find_entry, remove_entry, counted_down, deliver_entry, signal_deliver_one, signal_deliver_all,
  none_kind, kind_bit, has_pending,
}
use zxfoundation.Dgp.Signal.Queue.{
  IsRing, contents, window, window-update, forget_oldest, forget-contents,
}

pub deliver_entry-queue :
    (d : SignalDomain) (e : SignalEntry) → (deliver_entry d e).1.signal_queue ≡ d.signal_queue
unfolding deliver_entry
deliver_entry-queue d e = ground arith

-- The queue without its oldest entry.
unfoldable pub without_oldest : SignalQueue → SignalQueue
unfolding counted_down
without_oldest q = counted_down (record q {
  entries = update q.entries q.head empty_entry;
  head = (q.head + 1) % signal_queue_depth;
})

without_oldest-contents :
    (q : SignalQueue)
    → 0 < q.count
    → IsRing q
    → IsRing (without_oldest q) × (contents (without_oldest q) ≡ forget_oldest (contents q))
unfolding without_oldest contents
without_oldest-contents q some_left r = (
  record {
    head_in = omega arith;
    count_in = omega (arith, r.count_in);
    tail_at = omega (arith, some_left, r.tail_at);
  },
  window-update q.entries q.head empty_entry ((q.head + 1) % signal_queue_depth) (q.count - 1)
        (λ j below same. omega (arith, below, same, r.count_in, r.head_in))
      ∙ forget-contents q some_left,
)

find_entry-first :
    (n : ℕ) (q : SignalQueue)
    → 0 < n
    → q.head < signal_queue_depth
    → is_deliverable q (q.entries q.head) ≡ true
    → find_entry n 0 q ≡ some q.head
unfolding find_entry
find_entry-first zero q pos h first = absurd (omega (arith, pos))
find_entry-first (suc n) q pos h first =
    let here : (q.head + 0) % signal_queue_depth ≡ q.head = omega (arith, h) in rw (here, first)

remove_entry-first : (q : SignalQueue) → remove_entry q q.head ≡ some (without_oldest q)
unfolding remove_entry without_oldest
remove_entry-first q = rw (==_refl q.head)

-- If the oldest signal can be delivered, it is the one delivered, and the others wait in order.
signal_deliver_one-first :
    (d : SignalDomain)
    → 0 < d.signal_queue.count
    → IsRing d.signal_queue
    → is_deliverable d.signal_queue (d.signal_queue.entries d.signal_queue.head) ≡ true
    → signal_deliver_one d
      ≡ some (
          deliver_entry
            (record d { signal_queue = without_oldest d.signal_queue })
            (d.signal_queue.entries d.signal_queue.head))
unfolding signal_deliver_one
signal_deliver_one-first d some_left r first =
    let f = find_entry-first d.signal_queue.count d.signal_queue some_left r.head_in first in
    let m = remove_entry-first d.signal_queue in ground arith

-- Every queued signal has a kind.
abbrev pub AreNamed : List SignalEntry → Type 0
AreNamed [] = Unit {0}
AreNamed (e ∷ es) = (e.kind ≢ none_kind) × AreNamed es

AreNamed-first :
    (entries : ℕ → SignalEntry) (h n : ℕ)
    → h < signal_queue_depth
    → 0 < n
    → AreNamed (window entries h n)
    → (entries h).kind ≢ none_kind
unfolding window
AreNamed-first entries h zero b pos a = absurd (omega (arith, pos))
AreNamed-first entries h (suc n) b pos a =
    let e : h % signal_queue_depth ≡ h = omega (arith, b) in λ k. a.0 (rw e k)

AreNamed-forget : (xs : List SignalEntry) → AreNamed xs → AreNamed (forget_oldest xs)
AreNamed-forget [] a = a
AreNamed-forget (x ∷ xs) a = a.1

-- What a delivery needs and keeps: the ring is in order, no kind is blocked, and every queued
-- signal has a kind.
pub record IsOpen (q : SignalQueue) : Type 0 where
  pub ring : IsRing q
  pub unblocked : q.blocked_mask ≡ 0
  pub named : AreNamed (contents q)

is_deliverable-IsOpen :
    (q : SignalQueue) → IsOpen q → 0 < q.count → is_deliverable q (q.entries q.head) ≡ true
unfolding is_deliverable contents
is_deliverable-IsOpen q o pos =
    let k = AreNamed-first q.entries q.head q.count o.ring.head_in pos o.named in
    let bit = kind_bit (q.entries q.head).kind in
    let clear = ap (λ m. bit_and m bit) o.unblocked ∙ zero-bit_and bit in
    rw (==_ne (q.entries q.head).kind 0 k, clear)

without_oldest-IsOpen : (q : SignalQueue) → 0 < q.count → IsOpen q → IsOpen (without_oldest q)
unfolding without_oldest
without_oldest-IsOpen q pos o =
    let (ring, rest) = without_oldest-contents q pos o.ring in
    record {
      ring = ring;
      unblocked = o.unblocked;
      named = rw rest (AreNamed-forget (contents q) o.named);
    }

without_oldest-count : (q : SignalQueue) → 0 < q.count → (without_oldest q).count + 1 ≡ q.count
unfolding without_oldest
without_oldest-count q pos = omega (arith, pos)

-- While no kind is blocked and a signal is queued, a delivery takes the oldest signal off the queue,
-- and the others wait in their order.
signal_deliver_one-oldest :
    (d : SignalDomain)
    → IsOpen d.signal_queue
    → 0 < d.signal_queue.count
    → (b : Bool) × (d' : SignalDomain) × (signal_deliver_one d ≡ some (b, d'))
      × IsOpen d'.signal_queue
      × (contents d'.signal_queue ≡ forget_oldest (contents d.signal_queue))
      × (d'.signal_queue.count + 1 ≡ d.signal_queue.count)
signal_deliver_one-oldest d o pos =
    let q = d.signal_queue in
    let left = record d { signal_queue = without_oldest q } in
    let entry = q.entries q.head in
    let kept = deliver_entry-queue left entry in
    let (ring, rest) = without_oldest-contents q pos o.ring in
    (
      (deliver_entry left entry).0,
      (deliver_entry left entry).1,
      signal_deliver_one-first d pos o.ring (is_deliverable-IsOpen q o pos),
      rw kept (without_oldest-IsOpen q pos o),
      rw kept rest,
      rw kept (without_oldest-count q pos),
    )

-- While no kind is blocked, the ring is in order and every entry queued has a kind,
-- `signal_deliver_all` ends, in at most as many rounds as signals are queued: with an empty queue,
-- or, told by its result, with a dying domain.
pub signal_deliver_all_ends :
    (n : ℕ) (d : SignalDomain)
    → d.signal_queue.count ≤ n
    → IsOpen d.signal_queue
    → (b : Bool) × (d' : SignalDomain) × (signal_deliver_all n d ≡ some (b, d'))
      × (((b ≡ false) × (d'.signal_queue.count ≡ 0)) ⊎ ((b ≡ true) × (d'.ko.state ≡ dying)))
unfolding signal_deliver_all has_pending
signal_deliver_all_ends zero d h o = (false, d, ground arith, inl (refl, omega (arith, h)))
signal_deliver_all_ends (suc n) d h o = elim (dec_lt 0 d.signal_queue.count) [
  | no empty ↦ (false, d, ground arith, inl (refl, omega (arith, empty)))
  | yes pos ↦
      let (b, after, one, open_after, rest, fewer) = signal_deliver_one-oldest d o pos in
      elim (Bool-cases (is_state after.ko.state dying)) [
        | inl stop ↦ (true, after, ground arith, inr (refl, ground arith))
        | inr go ↦
            let (c, d', all, ends) =
              signal_deliver_all_ends n after (omega (arith, h, fewer)) open_after in
            (c, d', ground arith, ends)
      ]
]
