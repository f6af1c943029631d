-- ===== src/Dgp/Cap/Preserve.antt =====
-- Every capability operation keeps the table sound, whatever it returns.
use zxfoundation.Base.{
  ℕ, ◌<◌, ◌≡◌, refl, sym, subst, inl, inr, Bool, true, false, some, done, Result, ok, err, arith,
  Outcome-cases,
}
use zxfoundation.Base.Arrays.{update}
use zxfoundation.Scoms.Kobject.{Heap, try_get}
use zxfoundation.Scoms.Kobject.Counting.{one_at, try_get-counts, Confined, AreWords}
use zxfoundation.Dgp.Cap.Token.{CapToken}
use zxfoundation.Dgp.Cap.Slots.{
  Slot, CapState, max_capabilities, retired, put_target, slot_for, issue_locked,
}
use zxfoundation.Dgp.Cap.Held.{held-update, slot_points}
use zxfoundation.Dgp.Cap.Sound.{IsSound, IsValid, retired-IsSound, empty-IsSound}
use zxfoundation.Dgp.Cap.Issue.{
  Started, Issued, written, Refused, issue_locked-Issued, issue_locked-Refused,
}
use zxfoundation.Dgp.Cap.Ops.{retire_at}

pub IsSound-before :
    (s : CapState) (slots : ℕ → Slot)
    → IsValid s
    → Started s.capabilities slots
    → IsSound s.heap slots
IsSound-before s slots v (inl e) = v.sound slots e
IsSound-before s slots v (inr (z, e)) =
    subst (IsSound s.heap) (sym e) (empty-IsSound s.heap v.heap_words)

counted-words :
    (h : Heap) (p : ℕ) {h' : Heap} → AreWords h → try_get h p ≡ done (true, h') → AreWords h'
unfolding try_get
counted-words h p w e q = ground (arith, w q)

same-IsSound :
    (h h' : Heap) (slots : ℕ → Slot)
    → ((q : ℕ) → (h' q).count ≡ (h q).count)
    → IsSound h slots
    → IsSound h' slots
same-IsSound h h' slots c v = record {
  words = λ q. omega (arith, c q, v.words q);
  stamps = v.stamps;
  targets = v.targets;
  counted = λ q. omega (arith, c q, v.counted q);
}

Refused-IsValid : (s s' : CapState) → Refused s s' → IsValid s → IsValid s'
Refused-IsValid s s' r v = record {
  confined = subst Confined (sym r.finalizer) v.confined;
  heap_words = λ q. omega (arith, r.counts q, v.heap_words q);
  sound = λ slots e.
      same-IsSound s.heap s'.heap slots r.counts (IsSound-before s slots v (r.slots_kept slots e));
}

inactive_points : (slot : Slot) (q : ℕ) → slot.active ≡ false → slot_points slot q ≡ 0
inactive_points slot q off = ground arith

issued_points :
    (slot : Slot) (p q : ℕ)
    → slot.active ≡ true
    → slot.target ≡ some p
    → slot_points slot q ≡ one_at p q
issued_points slot p q on at = ground arith

issued-IsSound :
    (h h' : Heap) (slots : ℕ → Slot) (i p : ℕ) (slot : Slot)
    → IsSound h slots
    → i < max_capabilities
    → (slots i).active ≡ false
    → slot.active ≡ true
    → slot.target ≡ some p
    → slot.generation ≡ (slots i).generation
    → try_get h p ≡ done (true, h')
    → IsSound h' (update slots i slot)
issued-IsSound h h' slots i p slot v below off on at gen got = record {
  words = counted-words h p v.words got;
  stamps = λ j. ground (arith, v.stamps j, v.stamps i);
  targets = λ j. ground (arith, v.targets j);
  counted = λ q. omega (
    arith,
    held-update slots i slot q max_capabilities below,
    inactive_points (slots i) q off,
    issued_points slot p q on at,
    v.counted q,
    (try_get-counts h p got).1 q,
  );
}

pub Issued-IsValid :
    (s : CapState) (type rights owner_domain : ℕ) (t : CapToken) (s' : CapState)
    → Issued s type rights owner_domain t s'
    → IsValid s
    → IsValid s'
Issued-IsValid s type rights owner_domain t s' i v = record {
  confined = subst Confined (sym i.kept.0) v.confined;
  heap_words = counted-words s.heap i.target v.heap_words i.heap_after;
  sound = λ slots e. subst (IsSound s'.heap) (cc) (
      issued-IsSound s.heap s'.heap i.slots i.index i.target
        (written s i.slots i.index i.target type rights owner_domain)
        (IsSound-before s i.slots v i.slots_before) i.index_lt i.was_free refl refl refl
        i.heap_after);
}

pub issue_locked-IsValid :
    (mem : Bool) (s : CapState) (type obj_id rights owner_domain : ℕ) (r : Result CapToken)
    {s' : CapState}
    → issue_locked mem s type obj_id rights owner_domain ≡ done (r, s')
    → IsValid s
    → IsValid s'
issue_locked-IsValid mem s type obj_id rights owner_domain (ok t) {s'} e v =
    Issued-IsValid s type rights owner_domain t s'
      (issue_locked-Issued mem s type obj_id rights owner_domain e) v
issue_locked-IsValid mem s type obj_id rights owner_domain (err x) {s'} e v =
    Refused-IsValid s s' (issue_locked-Refused mem s type obj_id rights owner_domain {e = x} e) v

-- The slot that a token names is active, and its index is within the array.
pub slot_for-active :
    (slots : ℕ → Slot) (t : CapToken) {i : ℕ}
    → slot_for (some slots) t ≡ some i
    → ((slots i).active ≡ true) × (0 < i) × (i < max_capabilities)
unfolding slot_for
slot_for-active slots t e = ground arith

retired_state :
    (s : CapState) (slots : ℕ → Slot) (i : ℕ) (s' : CapState)
    → IsValid s
    → (h : Heap) → s'.heap ≡ h
    → s'.finalizer ≡ s.finalizer
    → s'.capabilities ≡ some (update slots i (retired (slots i)))
    → IsSound h (update slots i (retired (slots i)))
    → IsValid s'
retired_state s slots i s' v h at_heap at_fin at_slots sound = record {
  confined = subst Confined (sym at_fin) v.confined;
  heap_words = subst AreWords (sym at_heap) sound.words;
  sound = λ slots' e.
      subst (IsSound s'.heap) (cc)
        (subst (λ x. IsSound x (update slots i (retired (slots i)))) (sym at_heap) sound);
}

pub retire_at-IsValid :
    (s : CapState) (slots : ℕ → Slot) (i : ℕ) {r : Result (Unit {0})} {s' : CapState}
    → IsValid s
    → s.capabilities ≡ some slots
    → i < max_capabilities
    → (slots i).active ≡ true
    → retire_at s slots i ≡ done (r, s')
    → IsValid s'
unfolding retire_at
retire_at-IsValid s slots i {r} {s'} v at below on e =
    elim (Outcome-cases (put_target s.finalizer s.heap (slots i).target)) [
      | inl z ↦ absurd (ground arith)
      | inr (h, z) ↦
          retired_state s slots i s' v h (ground arith) (ground arith) (ground arith)
            (retired-IsSound s.finalizer s.heap slots i v.confined (v.sound slots at) below on z)
    ]
