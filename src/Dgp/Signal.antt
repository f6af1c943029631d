-- ===== src/Dgp/Signal.antt =====
-- Signals of a domain: zxfoundation/dgp/signal.zcomponent/types.cxxm and core.cxx. A kind is its u8.
-- A handler is a function of the kind, the payload and the user data; what it does besides is not
-- modelled.
pub mod Queue
pub mod Delivery
pub mod Faults
use zxfoundation.Base.{
  ℕ, zero, suc, ◌+◌, ◌-◌, ◌%◌, ◌^◌, Bool, true, false, not, ◌&&◌, ◌||◌, Option, none, some, Result,
  ok, err, from_generic, invalid_arg, if◌then◌else◌, leb, ◌==◌, bit_and, bit_or,
}
use zxfoundation.Base.Arrays.{update}
use zxfoundation.Scoms.Kobject.{Bobject, dying, is_state, transition}

abbrev pub signal_queue_depth : ℕ
signal_queue_depth = 16

abbrev pub none_kind : ℕ
none_kind = 0

abbrev pub fault_kind : ℕ
fault_kind = 3

abbrev pub term_kind : ℕ
term_kind = 4

pub data SignalDefault : Type 0 where
  ignore terminate notify : SignalDefault

-- `signal_handler_info`
pub record HandlerInfo : Type 0 where
  pub handler : Option (ℕ → ℕ → ℕ → Bool)
  pub user_data : ℕ
  pub default_action : SignalDefault

pub record SignalEntry : Type 0 where
  pub kind : ℕ
  pub payload : ℕ

abbrev pub empty_entry : SignalEntry
empty_entry = record { kind = none_kind; payload = 0 }

pub record SignalQueue : Type 0 where
  pub entries : ℕ → SignalEntry
  pub head : ℕ
  pub tail : ℕ
  pub count : ℕ
  pub pending_mask : ℕ
  pub blocked_mask : ℕ
  pub handlers : ℕ → HandlerInfo

-- `1U << kind`
abbrev pub kind_bit : ℕ → ℕ
kind_bit kind = 2 ^ kind % 2 ^ 32

unfoldable pub has_pending : SignalQueue → Bool
has_pending q = not (q.count == 0)

-- The part of `enqueue` past the full queue.
unfoldable pub append_entry : SignalQueue → ℕ → ℕ → SignalQueue
append_entry q kind payload = record q {
  entries = update q.entries q.tail (record { kind = kind; payload = payload });
  tail = (q.tail + 1) % signal_queue_depth;
  count = q.count + 1;
  pending_mask = bit_or q.pending_mask (kind_bit kind);
}

-- `signal_queue::enqueue`: a full queue first forgets its oldest entry.
unfoldable pub enqueue : SignalQueue → ℕ → ℕ → SignalQueue
enqueue q kind payload =
    if leb signal_queue_depth q.count
    then append_entry (record q { head = (q.head + 1) % signal_queue_depth; count = q.count - 1 })
        kind payload
    else append_entry q kind payload

-- `signal_queue::dequeue`
unfoldable pub dequeue : SignalQueue → SignalEntry × SignalQueue
dequeue q = if q.count == 0 then (empty_entry, q) else (
  q.entries q.head,
  record q {
    entries = update q.entries q.head empty_entry;
    head = (q.head + 1) % signal_queue_depth;
    count = q.count - 1;
    pending_mask = if q.count - 1 == 0 then 0 else q.pending_mask;
  },
)

-- The domain, as far as signals go.
pub record SignalDomain : Type 0 where
  pub ko : Bobject
  pub need_resched : Bool
  pub signal_queue : SignalQueue

-- `effective_def`
effective : HandlerInfo → ℕ → SignalDefault
effective info kind = elim info.handler [
  | some f ↦ info.default_action
  | none ↦ if (kind == fault_kind) || (kind == term_kind) then terminate else info.default_action
]

handled : HandlerInfo → SignalEntry → Bool
handled info entry = elim info.handler [
  | none ↦ false
  | some f ↦ f entry.kind entry.payload info.user_data
]

-- The default action of a signal that was not handled.
act : SignalDomain → SignalDefault → SignalDomain
act d ignore = d
act d terminate = record d { ko = (transition d.ko dying).1; need_resched = true }
act d notify = d

unfoldable pub deliver_entry : SignalDomain → SignalEntry → Bool × SignalDomain
unfolding effective handled act
deliver_entry d entry =
    if entry.kind == none_kind
    then (false, d)
    else if handled (d.signal_queue.handlers entry.kind) entry
    then (true, d)
    else (true, act d (effective (d.signal_queue.handlers entry.kind) entry.kind))

unfoldable pub signal_register_handler :
    SignalDomain → ℕ → HandlerInfo → Result (Unit {0}) × SignalDomain
signal_register_handler d kind info = if leb 8 kind then (err (from_generic invalid_arg), d) else (
  ok tt,
  record d {
    signal_queue = record (d.signal_queue) { handlers = update d.signal_queue.handlers kind info };
  },
)

unfoldable pub signal_enqueue : SignalDomain → ℕ → ℕ → SignalDomain
signal_enqueue d kind payload = record d { signal_queue = enqueue d.signal_queue kind payload }

unfoldable pub signal_block : SignalDomain → ℕ → SignalDomain
signal_block d mask = record d { signal_queue = record (d.signal_queue) { blocked_mask = mask } }

unfoldable pub signal_blocked_mask : SignalDomain → ℕ
signal_blocked_mask d = d.signal_queue.blocked_mask

-- Whether `signal_deliver_one` takes the entry.
unfoldable pub is_deliverable : SignalQueue → SignalEntry → Bool
is_deliverable q entry =
    not (entry.kind == none_kind) && (bit_and q.blocked_mask (kind_bit entry.kind) == 0)

-- The search of `signal_deliver_one`: the index of the first entry to deliver, from place `i` in the
-- `n` left.
unfoldable pub find_entry : ℕ → ℕ → SignalQueue → Option ℕ
find_entry zero i q = none
find_entry (suc n) i q =
    let later = find_entry n (i + 1) q in
    let idx = (q.head + i) % signal_queue_depth in
    if is_deliverable q (q.entries idx) then some idx else later

-- The loop that closes the gap at `j`, with its rounds; `none` if they run out.
unfoldable pub close_gap : ℕ → ℕ → ℕ → (ℕ → SignalEntry) → Option (ℕ → SignalEntry)
close_gap zero j last entries = if j == last then some entries else none
close_gap (suc n) j last entries =
    let rest =
      close_gap n ((j + 1) % signal_queue_depth) last
        (update entries j (entries ((j + 1) % signal_queue_depth))) in
    if j == last then some entries else rest

-- The loop that computes `pending_mask` anew.
pending_bits : ℕ → ℕ → SignalQueue → ℕ → ℕ
pending_bits zero r q mask = mask
pending_bits (suc n) r q mask =
    let kind = (q.entries ((q.head + r) % signal_queue_depth)).kind in
    pending_bits n (r + 1) q (if kind == none_kind then mask else bit_or mask (kind_bit kind))

-- What follows the removal: the count and the mask.
counted_down : SignalQueue → SignalQueue
unfolding pending_bits
counted_down q =
    let fewer = record q { count = q.count - 1 } in
    record fewer {
      pending_mask = if q.count - 1 == 0 then 0 else pending_bits fewer.count 0 fewer 0;
    }

-- The removal of the entry at `idx`.
unfoldable pub remove_entry : SignalQueue → ℕ → Option SignalQueue
unfolding counted_down
remove_entry q idx =
    if idx == q.head
    then some (
        counted_down (record q {
          entries = update q.entries q.head empty_entry;
          head = (q.head + 1) % signal_queue_depth;
        }))
    else let last = (q.head + (q.count - 1)) % signal_queue_depth in
      elim (close_gap signal_queue_depth idx last q.entries) [
        | none ↦ none
        | some entries ↦
            some (counted_down (record q { entries = update entries last empty_entry }))
      ]

-- `signal_deliver_one`; `none` only if the rounds of `close_gap` run out.
unfoldable pub signal_deliver_one : SignalDomain → Option (Bool × SignalDomain)
signal_deliver_one d =
    let q = d.signal_queue in
    if q.count == 0 then some (false, d) else elim (find_entry q.count 0 q) [
      | none ↦ some (false, d)
      | some idx ↦ elim (remove_entry q idx) [
        | none ↦ none
        | some left ↦ some (deliver_entry (record d { signal_queue = left }) (q.entries idx))
      ]
    ]

-- `signal_deliver_all`, with the rounds of its loop; `none` if they run out.
unfoldable pub signal_deliver_all : ℕ → SignalDomain → Option (Bool × SignalDomain)
signal_deliver_all zero d = if not (has_pending d.signal_queue) then some (false, d) else none
signal_deliver_all (suc n) d =
    if not (has_pending d.signal_queue) then some (false, d) else elim (signal_deliver_one d) [
      | none ↦ none
      | some (delivered, after) ↦ elim (is_state after.ko.state dying) [
        | true ↦ some (true, after)
        | false ↦ signal_deliver_all n after
      ]
    ]
