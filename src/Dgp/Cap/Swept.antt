-- ===== src/Dgp/Cap/Swept.antt =====
-- What a whole revocation sweep has done when it ends.
use zxfoundation.Base.{
  ℕ, ◌+◌, ◌-◌, ◌≤◌, ◌<◌, ◌≡◌, ◌≢◌, refl, sym, ap, subst, ◌∙◌, ◌⊎◌, inl, inr, true, false, Option,
  some, done, ok, arith, ℕ_discrete, dec_lt, Outcome-cases,
}
use zxfoundation.Base.Arrays.{update_ne}
use zxfoundation.Scoms.Kobject.{Heap, Finalizer}
use zxfoundation.Scoms.Kobject.Counting.{Confined, AreWords}
use zxfoundation.Dgp.Cap.Sound.{IsValid, put_target-Put}
use zxfoundation.Dgp.Cap.Slots.{Slot, CapState, max_capabilities, retired}
use zxfoundation.Dgp.Cap.Held.{held, held-update, slot_points, slot_points-le-held}
use zxfoundation.Dgp.Cap.Sweeps.{start, each_slot_inv, Retires, revoke_target_slot_cases}
use zxfoundation.Dgp.Cap.Ops.{Sweep, each_slot, revoke_target_slot, cap_revoke_target}

-- After the rounds below `i`: no active slot there refers to the target, the rest is as it was, and
-- the count returned so far is the number of references given up.
record TargetSwept (before : ℕ → Slot) (target i : ℕ) (w : Sweep) : Type 0 where
  clear : (j : ℕ) → 0 < j → j < i → (w.slots j).active ≡ true → (w.slots j).target ≢ some target
  rest : (j : ℕ) → i ≤ j → w.slots j ≡ before j
  balance : held w.slots target max_capabilities + w.revoked ≡ held before target max_capabilities
  small : w.revoked < i

TargetSwept-skip :
    (before : ℕ → Slot) (target i : ℕ) (w : Sweep)
    → ((w.slots i).active ≡ false) ⊎ ((w.slots i).target ≢ some target)
    → TargetSwept before target i w
    → TargetSwept before target (i + 1) w
TargetSwept-skip before target i w why t = record {
  clear = λ j pos below on at. elim (ℕ_discrete i j) [
    | yes e ↦
        skipped (subst (λ k. (w.slots k).active ≡ true) (sym e) on)
          (subst (λ k. (w.slots k).target ≡ some target) (sym e) at) why
    | no ne ↦ t.clear j pos (omega (arith, below, ne)) on at
  ];
  rest = λ j h. t.rest j (omega (arith, h));
  balance = t.balance;
  small = omega (arith, t.small);
}
  where
    skipped :
        (w.slots i).active ≡ true
        → (w.slots i).target ≡ some target
        → ((w.slots i).active ≡ false) ⊎ ((w.slots i).target ≢ some target)
        → ⊥
    skipped on at (inl off) = cc
    skipped on at (inr ne) = ne at

points_one :
    (slot : Slot) (p : ℕ) → slot.active ≡ true → slot.target ≡ some p → slot_points slot p ≡ 1
points_one slot p on at = ground arith

begun : (s : CapState) (slots : ℕ → Slot) (target : ℕ) → TargetSwept slots target 1 (start s slots)
begun s slots target = record {
  clear = λ j pos below. absurd (omega (arith, pos, below));
  rest = λ j h. refl;
  balance = omega arith;
  small = omega arith;
}

TargetSwept-take :
    (f : Option Finalizer) (before : ℕ → Slot) (target i : ℕ) (w w' : Sweep)
    → i < max_capabilities
    → (w.slots i).target ≡ some target
    → Retires f i w w'
    → TargetSwept before target i w
    → TargetSwept before target (i + 1) w'
TargetSwept-take f before target i w w' h at r t = record {
  clear = λ j pos below on. elim (ℕ_discrete i j) [
    | yes e ↦ absurd (taken_off j e on)
    | no ne ↦
        subst (λ (x : Slot). x.target ≢ some target) (sym (other j ne))
          (t.clear j pos (omega (arith, below, ne))
            (ap (λ (x : Slot). x.active) (sym (other j ne)) ∙ on))
  ];
  rest = λ j g. other j (omega (arith, g)) ∙ t.rest j (omega (arith, g));
  balance = omega (
    arith,
    ap (λ (x : ℕ → Slot). held x target max_capabilities) r.slots_after,
    held-update w.slots i (retired (w.slots i)) target max_capabilities h,
    points_one (w.slots i) target r.on at,
    t.balance,
    r.revoked_after,
    t.small,
    h,
  );
  small = omega (arith, t.small, r.revoked_after, h);
}
  where
    other : (j : ℕ) → i ≢ j → w'.slots j ≡ w.slots j
    other j ne =
        ap (λ (x : ℕ → Slot). x j) r.slots_after ∙ update_ne w.slots i j (retired (w.slots i)) ne

    taken_off : (j : ℕ) → i ≡ j → (w'.slots j).active ≡ true → ⊥
    taken_off j e on = ground (arith, ap (λ (x : ℕ → Slot). x j) r.slots_after)

TargetSwept-step :
    (f : Option Finalizer) (before : ℕ → Slot) (target i : ℕ) (w w' : Sweep)
    → i < max_capabilities
    → TargetSwept before target i w
    → revoke_target_slot f target i w ≡ done w'
    → TargetSwept before target (i + 1) w'
TargetSwept-step f before target i w w' h t e = elim (revoke_target_slot_cases f target i w w' e) [
  | inl (why, same) ↦
      subst (TargetSwept before target (i + 1)) (sym same)
        (TargetSwept-skip before target i w why t)
  | inr (at, r) ↦ TargetSwept-take f before target i w w' h at r t
]

-- The puts of the rounds below `i`, where the object has a reference outside of the table too.
record GivenUp (before : ℕ → Slot) (h : Heap) (target i : ℕ) (w : Sweep) : Type 0 where
  swept : TargetSwept before target i w
  words : AreWords w.heap
  count : (w.heap target).count + w.revoked ≡ (h target).count

GivenUp-step :
    (f : Option Finalizer) (before : ℕ → Slot) (h : Heap) (target i : ℕ) (w w' : Sweep)
    → Confined f
    → held before target max_capabilities < (h target).count
    → i < max_capabilities
    → GivenUp before h target i w
    → revoke_target_slot f target i w ≡ done w'
    → GivenUp before h target (i + 1) w'
GivenUp-step f before h target i w w' c shared below g e =
    let swept = TargetSwept-step f before target i w w' below g.swept e in
    elim (revoke_target_slot_cases f target i w w' e) [
      | inl (why, same) ↦ record {
        swept = swept;
        words = subst (λ (x : Sweep). AreWords x.heap) (sym same) g.words;
        count =
            subst (λ (x : Sweep). (x.heap target).count + x.revoked ≡ (h target).count) (sym same)
              g.count;
      }
      | inr (at, r) ↦
          let put = put_target-Put f w.heap (w.slots i).target target c g.words at r.put_done in
          let one = points_one (w.slots i) target r.on at in
          let here = slot_points-le-held w.slots i target max_capabilities below in
          let many : 1 < (w.heap target).count =
            omega (arith, g.count, g.swept.balance, shared, one, here) in
          record {
            swept = swept;
            words = put.words;
            count = omega (arith, put.lowered many, g.count, r.revoked_after, g.swept.small, below);
          }
    ]

-- No capability in use refers to the object.
abbrev pub IsClear : (ℕ → Slot) → ℕ → Type 0
IsClear slots target =
    (i : ℕ)
    → 0 < i
    → i < max_capabilities
    → (slots i).active ≡ true
    → (slots i).target ≢ some target

-- The slots that refer to the object are out of use, and counted.
cap_revoke_target-swept :
    (s : CapState) (slots : ℕ → Slot) (target : ℕ) {n : ℕ} {s' : CapState}
    → s.capabilities ≡ some slots
    → cap_revoke_target s target ≡ done (ok n, s')
    → (slots' : ℕ → Slot) × (s'.capabilities ≡ some slots')
      × IsClear slots' target
      × (held slots' target max_capabilities + n ≡ held slots target max_capabilities)
unfolding cap_revoke_target
cap_revoke_target-swept s slots target {n} {s'} z e =
    elim (Outcome-cases (
      each_slot (max_capabilities - 1) 1 (revoke_target_slot s.finalizer target) (start s slots))) [
        | inl stop ↦ absurd (ground arith)
        | inr (w, swept) ↦
            let t =
              each_slot_inv (TargetSwept slots target) (revoke_target_slot s.finalizer target)
                (λ i a b h p q. TargetSwept-step s.finalizer slots target i a b h p q)
                (max_capabilities - 1) 1 max_capabilities (start s slots) refl (omega arith)
                (begun s slots target) swept in
            let same : w.revoked ≡ n = ground arith in
            (w.slots, ground arith, t.clear, omega (arith, same, t.balance))
      ]

cap_revoke_target-GivenUp :
    (s : CapState) (slots : ℕ → Slot) (target : ℕ) {n : ℕ} {s' : CapState}
    → IsValid s
    → s.capabilities ≡ some slots
    → held slots target max_capabilities < (s.heap target).count
    → cap_revoke_target s target ≡ done (ok n, s')
    → (s'.heap target).count + n ≡ (s.heap target).count
unfolding cap_revoke_target
cap_revoke_target-GivenUp s slots target {n} {s'} v z shared e =
    elim (Outcome-cases (
      each_slot (max_capabilities - 1) 1 (revoke_target_slot s.finalizer target) (start s slots))) [
        | inl stop ↦ absurd (ground arith)
        | inr (w, swept) ↦
            let g =
              each_slot_inv (GivenUp slots s.heap target) (revoke_target_slot s.finalizer target)
                (λ i a b h p q.
                  GivenUp-step s.finalizer slots s.heap target i a b v.confined shared h p q)
                (max_capabilities - 1) 1 max_capabilities (start s slots) refl (omega arith)
                (record { swept = begun s slots target; words = v.heap_words; count = omega arith })
                swept in
            let count : w.revoked ≡ n = ground arith in
            let heap : s'.heap ≡ w.heap = ground arith in rw heap (omega (arith, g.count, count))
      ]

-- In a valid state, if revoking an object returns, then no capability in use refers to it any more;
-- the number returned is how many slots that referred to it are out of use now; and unless all
-- references to the object were those of the table, its count is less by exactly that number.
pub cap_revoke_target-clears :
    (s : CapState) (slots : ℕ → Slot) (target : ℕ) {n : ℕ} {s' : CapState}
    → IsValid s
    → s.capabilities ≡ some slots
    → cap_revoke_target s target ≡ done (ok n, s')
    → (slots' : ℕ → Slot) × (s'.capabilities ≡ some slots')
      × IsClear slots' target
      × (held slots' target max_capabilities + n ≡ held slots target max_capabilities)
      × ((held slots target max_capabilities ≡ (s.heap target).count)
          ⊎ ((s'.heap target).count + n ≡ (s.heap target).count))
cap_revoke_target-clears s slots target v z e =
    let (slots', there, clear, balance) = cap_revoke_target-swept s slots target z e in
    (
      slots',
      there,
      clear,
      balance,
      elim (dec_lt (held slots target max_capabilities) (s.heap target).count) [
        | yes shared ↦ inr (cap_revoke_target-GivenUp s slots target v z shared e)
        | no all ↦ inl (omega (arith, all, (v.sound slots z).counted target))
      ],
    )
