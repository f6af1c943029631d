-- ===== src/Dgp/Cap/Revocation.antt =====
-- What release and revocation leave behind.
use zxfoundation.Base.{
  ℕ, ◌+◌, ◌%◌, ◌^◌, ◌<◌, ◌≡◌, ◌≢◌, sym, ap, ◌∙◌, inl, inr, Bool, true, none, some, done, ok, err,
  from_generic, not_found, arith, Bool-cases, Option-cases, Outcome-cases,
}
use zxfoundation.Base.Arrays.{update, update_self}
use zxfoundation.Dgp.Cap.Token.{CapToken, object_id, generation, is_valid}
use zxfoundation.Dgp.Cap.Slots.{Slot, CapState, retired, slot_for, put_target, validate_slot}
use zxfoundation.Dgp.Cap.Sound.{IsValid}
use zxfoundation.Dgp.Cap.Issue.{written, issue_locked-Issued}
use zxfoundation.Dgp.Cap.Authority.{Names, slot_for-Names}
use zxfoundation.Dgp.Cap.Ops.{retire_at, cap_release, cap_issue}

-- A slot whose generation has moved on is not found by an old token, active or not.
pub stale-refused :
    (slots : ℕ → Slot) (t : CapToken)
    → (slots (object_id t)).generation ≢ generation t
    → slot_for (some slots) t ≡ none
unfolding slot_for
stale-refused slots t ne = ground arith

-- A release retired the slot that the token named.
pub record Released (s : CapState) (t : CapToken) (s' : CapState) : Type 0 where
  pub slots : ℕ → Slot
  pub present : s.capabilities ≡ some slots
  pub names : Names slots t
  pub valid : is_valid t ≡ true
  pub after : s'.capabilities ≡ some (update slots (object_id t) (retired (slots (object_id t))))
  pub put_done : put_target s.finalizer s.heap (slots (object_id t)).target ≡ done s'.heap

pub cap_release-Released :
    (s : CapState) (t : CapToken) {s' : CapState}
    → cap_release s t ≡ done (ok tt, s')
    → Released s t s'
unfolding cap_release retire_at
cap_release-Released s t {s'} e = elim (Bool-cases (is_valid t)) [
  | inr null ↦ absurd (ground arith)
  | inl valid ↦ elim (Option-cases s.capabilities) [
    | inl z ↦ absurd (ground arith)
    | inr (slots, z) ↦ elim (Option-cases (slot_for (some slots) t)) [
      | inl y ↦ absurd (ground arith)
      | inr (i, y) ↦ elim (Outcome-cases (put_target s.finalizer s.heap (slots i).target)) [
        | inl x ↦ absurd (ground arith)
        | inr (h, x) ↦
            let (at, names) = slot_for-Names slots t y in
            record {
              slots = slots;
              present = z;
              names = names;
              valid = valid;
              after = ground arith;
              put_done = ground arith;
            }
      ]
    ]
  ]
]

module _ (s : CapState) (t : CapToken) {s' : CapState} (released : Released s t s') where
  none-found : (slots : ℕ → Slot) → s'.capabilities ≡ some slots → slot_for (some slots) t ≡ none
  unfolding slot_for
  none-found slots e =
      let r = released in
      let at : slots ≡ update r.slots (object_id t) (retired (r.slots (object_id t))) = cc in
      rw at (ground arith)

  released-refused :
      (needed owner : ℕ) (check : Bool)
      → validate_slot s' t needed owner check ≡ err (from_generic not_found)
  unfolding validate_slot
  released-refused needed owner check = ground (arith, released.after, none-found _ released.after)

  release-again : cap_release s' t ≡ done (err (from_generic not_found), s')
  unfolding cap_release
  release-again = ground (arith, released.after, released.valid, none-found _ released.after)

-- After a release that succeeded no check accepts the token, and a second release finds nothing.
cap_release-ends :
    (s : CapState) (t : CapToken) {s' : CapState}
    → cap_release s t ≡ done (ok tt, s')
    → ((needed owner : ℕ) (check : Bool)
        → validate_slot s' t needed owner check ≡ err (from_generic not_found))
      × (cap_release s' t ≡ done (err (from_generic not_found), s'))
cap_release-ends s t e = (
  released-refused s t (cap_release-Released s t e),
  release-again s t (cap_release-Released s t e),
)

next-generation-ne : (g : ℕ) → g < 2 ^ 16 → (g + 1) % 2 ^ 16 ≢ g
next-generation-ne g h = omega arith

retired_moved :
    (slots : ℕ → Slot) (i : ℕ) (after : ℕ → Slot) (g : ℕ)
    → (slots i).generation < 2 ^ 16
    → (slots i).generation ≡ g
    → after ≡ update slots i (retired (slots i))
    → (after i).generation ≢ g
retired_moved slots i after g small e again h = next-generation-ne (slots i).generation small (
    ap (λ (x : Slot). x.generation) (sym (update_self slots i (retired (slots i))))
    ∙ ap (λ (x : ℕ → Slot). (x i).generation) (sym again)
    ∙ h
    ∙ sym e)

-- After a release in a valid state, whatever capability is issued next, in the released slot or
-- another, the old token is still refused by every check.
pub cap_release-cap_issue :
    (mem : Bool) (s : CapState) (t : CapToken) (type obj_id rights owner_domain : ℕ)
    {s' s'' : CapState} {u : CapToken}
    → IsValid s
    → cap_release s t ≡ done (ok tt, s')
    → cap_issue mem s' type obj_id rights owner_domain ≡ done (ok u, s'')
    → (needed owner : ℕ) (check : Bool)
    → validate_slot s'' t needed owner check ≡ err (from_generic not_found)
unfolding validate_slot cap_issue
cap_release-cap_issue mem s t type obj_id rights owner_domain {s'} {s''} {u} v e f needed owner
      check =
    let r = cap_release-Released s t e in
    let i = issue_locked-Issued mem s' type obj_id rights owner_domain f in
    let w = written s' i.slots i.index i.target type rights owner_domain in
    let again : i.slots ≡ update r.slots (object_id t) (retired (r.slots (object_id t))) =
      ground (arith, i.slots_before, r.after) in
    let moved : (i.slots (object_id t)).generation ≢ generation t =
      retired_moved r.slots (object_id t) i.slots (generation t)
        ((v.sound r.slots r.present).stamps (object_id t)) r.names.generation_eq again in
    let kept : (update i.slots i.index w (object_id t)).generation ≢ generation t =
      ground (arith, moved) in
    ground (arith, i.slots_after, stale-refused (update i.slots i.index w) t kept)
