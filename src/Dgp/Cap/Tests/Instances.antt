-- ===== src/Dgp/Cap/Tests/Instances.antt =====
-- The theorems on capabilities at the states of the small run.
use zxfoundation.Base.{
  ℕ, ◌+◌, ◌<◌, ◌≡◌, ◌↔◌, ◌⊎◌, refl, true, false, some, done, Result, ok, err, from_generic,
  not_found, arith, ap, sym, subst, ℕ_discrete,
}
use zxfoundation.Dgp.Cap.Token.{object_id, token_rights, domain_type}
use zxfoundation.Dgp.Cap.Token.Laws.{Subset}
use zxfoundation.Dgp.Cap.Slots.{Slot, CapState, empty_slot, slot_for, validate_slot}
use zxfoundation.Dgp.Cap.Preserve.{slot_for-active}
use zxfoundation.Base.Arrays.{update_ne}
use zxfoundation.Dgp.Cap.Held.{held}
use zxfoundation.Dgp.Cap.Ops.{cap_release}
use zxfoundation.Dgp.Cap.Reach.{calls, here, next, issues, Reach-target_live}
use zxfoundation.Dgp.Cap.Authority.{Authorized, validate_slot-Authorized}
use zxfoundation.Dgp.Cap.Delegation.{Delegated, cap_duplicate_for-Delegated}
use zxfoundation.Dgp.Cap.Revocation.{cap_release-cap_issue}
use zxfoundation.Dgp.Cap.Swept.{IsClear, cap_revoke_target-clears}
use zxfoundation.Dgp.Cap.Total.{cap_release_total}
use zxfoundation.Dgp.Cap.Tests.Scenario.{
  first_slot, boot-IsValid, rights, token, slots1, issued, issued-IsValid, released, release_token,
  reissued, reissue_token, issue_step, copy_token, lent, lend_token, revoke_seven,
}

Reach-target_live_example : (p : ℕ) × ((slots1 1).target ≡ some p) × (0 < (issued.heap p).count)
Reach-target_live_example =
    Reach-target_live boot-IsValid
      (next here (calls (issues true domain_type 7 rights 5) issue_step)) slots1 refl 1
      (omega arith) refl

validate_slot-Authorized_example : (validate_slot issued token 2 5 true ≡ ok 7) ↔ (
    (slots : ℕ → Slot) × Authorized issued slots token 2 7
    × ((true ≡ false) ⊎ ((slots (object_id token)).owner_domain ≡ 5)))
validate_slot-Authorized_example = validate_slot-Authorized issued token 2 5 true 7

cap_duplicate_for-Delegated_example :
    Delegated issued token 2 5 6 copy_token lent
    × ((◌≡◌ {A = ℕ} 6 5) ⊎ Subset 0x10 (token_rights token))
cap_duplicate_for-Delegated_example =
    cap_duplicate_for-Delegated true issued token 2 5 6 (omega arith) issued-IsValid lend_token

cap_release-cap_issue_example : validate_slot reissued token 2 5 true ≡ err (from_generic not_found)
cap_release-cap_issue_example =
    cap_release-cap_issue true issued token domain_type 8 rights 5 issued-IsValid release_token
      reissue_token 2 5 true

cap_revoke_target-clears_example :
    (slots' : ℕ → Slot) × (released.capabilities ≡ some slots')
    × IsClear slots' 7
    × (held slots' 7 1024 + 1 ≡ held slots1 7 1024)
    × ((held slots1 7 1024 ≡ 2) ⊎ ((released.heap 7).count + 1 ≡ 2))
cap_revoke_target-clears_example =
    cap_revoke_target-clears issued slots1 7 issued-IsValid refl revoke_seven

-- The object of every slot in use has two references.
issued-shared :
    (slots : ℕ → Slot) (i p : ℕ)
    → issued.capabilities ≡ some slots
    → slot_for (some slots) token ≡ some i
    → (slots i).target ≡ some p
    → 1 < (issued.heap p).count
issued-shared slots i p z y at =
    let same : slots1 ≡ slots = cc in
    let (on, pos, below) = slot_for-active slots token y in
    let active1 = subst (λ f. (f i).active ≡ true) (sym same) on in
    let target1 = subst (λ f. (f i).target ≡ some p) (sym same) at in
    elim (ℕ_discrete 1 i) [
      | no ne ↦ absurd (
          let off = ap (λ x. x.active) (update_ne (λ j. empty_slot) 1 i first_slot ne) in
          ground arith)
      | yes e ↦
          let here = subst (λ j. (slots1 j).target ≡ some p) (sym e) target1 in
          let seven : 7 ≡ p = ground arith in
          subst (λ q. 1 < (issued.heap q).count) seven (omega arith)
    ]

cap_release_total_example :
    (r : Result (Unit {0})) × (s' : CapState) × (cap_release issued token ≡ done (r, s'))
cap_release_total_example = cap_release_total issued token issued-IsValid issued-shared
