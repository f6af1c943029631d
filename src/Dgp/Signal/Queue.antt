-- ===== src/Dgp/Signal/Queue.antt =====
-- The ring of signals as a bounded list, oldest first.
use zxfoundation.Base.{
  ℕ, zero, suc, ◌+◌, ◌-◌, ◌%◌, ◌≤◌, ◌<◌, ◌≡◌, ◌≢◌, refl, sym, ap, ◌∙◌, true, false, List, [], ◌∷◌,
  ◌++◌, arith, if◌then◌else◌, leb, dec_lt,
}
use zxfoundation.Base.Arrays.{update, update_self, update_ne}
use zxfoundation.Dgp.Signal.{SignalEntry, SignalQueue, signal_queue_depth, enqueue, append_entry}

-- The `n` entries from place `h` on.
unfoldable pub window : (ℕ → SignalEntry) → ℕ → ℕ → List SignalEntry
window entries h zero = []
window entries h (suc n) = entries (h % signal_queue_depth) ∷ window entries (h + 1) n

abbrev pub signal : ℕ → ℕ → SignalEntry
signal kind payload = record { kind = kind; payload = payload }

-- What is queued, oldest first.
unfoldable pub contents : SignalQueue → List SignalEntry
contents q = window q.entries q.head q.count

pub record IsRing (q : SignalQueue) : Type 0 where
  pub head_in : q.head < signal_queue_depth
  pub count_in : q.count ≤ signal_queue_depth
  pub tail_at : q.tail ≡ (q.head + q.count) % signal_queue_depth

pub window_mod :
    (entries : ℕ → SignalEntry) (h k n : ℕ)
    → h % signal_queue_depth ≡ k % signal_queue_depth
    → window entries h n ≡ window entries k n
unfolding window
window_mod entries h k zero e = refl
window_mod entries h k (suc n) e = rw (e, window_mod entries (h + 1) (k + 1) n (omega arith))

window-last :
    (entries : ℕ → SignalEntry) (h n : ℕ)
    → window entries h (suc n) ≡ window entries h n ++ entries ((h + n) % signal_queue_depth) ∷ []
unfolding window
window-last entries h zero = let e : h + 0 ≡ h = omega arith in rw e
window-last entries h (suc n) =
    let e : h + 1 + n ≡ h + suc n = omega arith in
    ap (λ xs. entries (h % signal_queue_depth) ∷ xs) (rw (← e) (window-last entries (h + 1) n))

pub window-update :
    (entries : ℕ → SignalEntry) (i : ℕ) (v : SignalEntry) (h n : ℕ)
    → ((j : ℕ) → j < n → i ≢ (h + j) % signal_queue_depth)
    → window (update entries i v) h n ≡ window entries h n
unfolding window
window-update entries i v h zero off = refl
window-update entries i v h (suc n) off =
    let first : i ≢ h % signal_queue_depth = λ e. off 0 (omega arith) (e ∙ omega arith) in
    let rest =
      window-update entries i v (h + 1) n
        (λ j below e. off (suc j) (omega (arith, below)) (e ∙ omega arith)) in
    rw (update_ne entries i (h % signal_queue_depth) v first, rest)

-- The list that `enqueue` leaves: a full queue forgets its oldest entry.
abbrev pub forget_oldest : List SignalEntry → List SignalEntry
forget_oldest [] = []
forget_oldest (x ∷ xs) = xs

abbrev pub push_bounded : List SignalEntry → ℕ → SignalEntry → List SignalEntry
push_bounded xs count e = (if leb signal_queue_depth count then forget_oldest xs else xs) ++ e ∷ []

module _ (q : SignalQueue) (kind payload : ℕ) (room : q.count < signal_queue_depth)
    (r : IsRing q) where
  append_entry-contents :
      contents (append_entry q kind payload) ≡ contents q ++ signal kind payload ∷ []
  unfolding contents append_entry
  append_entry-contents =
      let e = signal kind payload in
      let one_more : q.count + 1 ≡ suc q.count = omega arith in
      let apart = λ (j : ℕ) (below : j < q.count).
        let ne : q.tail ≢ (q.head + j) % signal_queue_depth =
          λ same. omega (arith, same, below, room, r.head_in, r.tail_at) in
        ne in
      rw (
        one_more,
        window-last (update q.entries q.tail e) q.head q.count,
        window-update q.entries q.tail e q.head q.count apart,
        sym r.tail_at,
        update_self q.entries q.tail e,
      )

  append_entry-IsRing : IsRing (append_entry q kind payload)
  unfolding append_entry
  append_entry-IsRing = record {
    head_in = r.head_in;
    count_in = omega (arith, room);
    tail_at = omega (arith, r.tail_at);
  }

pub forget-contents :
    (q : SignalQueue)
    → 0 < q.count
    → contents (record q { head = (q.head + 1) % signal_queue_depth; count = q.count - 1 })
      ≡ forget_oldest (contents q)
unfolding contents window
forget-contents q some_left =
    let e : q.count ≡ suc (q.count - 1) = omega (arith, some_left) in
    window_mod q.entries ((q.head + 1) % signal_queue_depth) (q.head + 1) (q.count - 1)
      (omega arith)
    ∙ ap (λ n. forget_oldest (window q.entries q.head n)) (sym e)

-- In a ring in order, where the tail stands behind the counted entries, queueing a signal adds it
-- as the newest, a full queue forgets its oldest one for it, and the ring stays in order.
pub enqueue-contents :
    (q : SignalQueue) (kind payload : ℕ)
    → IsRing q
    → IsRing (enqueue q kind payload)
      × (contents (enqueue q kind payload)
          ≡ push_bounded (contents q) q.count (signal kind payload))
unfolding enqueue
enqueue-contents q kind payload r = elim (dec_lt q.count signal_queue_depth) [
  | yes room ↦
      let test : leb signal_queue_depth q.count ≡ false = ground arith in
      rw test
        (append_entry-IsRing q kind payload room r, append_entry-contents q kind payload room r)
  | no full ↦
      let test : leb signal_queue_depth q.count ≡ true = ground arith in
      let fewer = record q { head = (q.head + 1) % signal_queue_depth; count = q.count - 1 } in
      let room : fewer.count < signal_queue_depth = omega (arith, full, r.count_in) in
      let ring : IsRing fewer = record {
        head_in = omega arith;
        count_in = omega (arith, r.count_in);
        tail_at = omega (arith, full, r.tail_at, r.count_in);
      } in
      rw test (
        append_entry-IsRing fewer kind payload room ring,
        append_entry-contents fewer kind payload room ring
            ∙ ap (λ xs. xs ++ signal kind payload ∷ []) (forget-contents q (omega (arith, full))),
      )
]
