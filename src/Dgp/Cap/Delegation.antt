-- ===== src/Dgp/Cap/Delegation.antt =====
-- What a capability derived from another may hold: `cap_duplicate`, `cap_acquire` and
-- `cap_duplicate_for`.
use zxfoundation.Base.{
  ℕ, ◌%◌, ◌^◌, ◌<◌, ◌≡◌, ◌≢◌, refl, sym, ap, ◌∙◌, ◌⊎◌, inl, inr, Bool, true, some, done, ok, err,
  from_memory, capability_invalid, arith, ℕ_discrete, Result-cases,
}
use zxfoundation.Base.Arrays.{update, update_self}
use zxfoundation.Base.Bits.{bit_and_comm}
use zxfoundation.Dgp.Cap.Token.{
  CapToken, make, token_type, object_id, generation, token_rights, delegate_right,
}
use zxfoundation.Dgp.Cap.Token.Laws.{IsU16, Subset, make_fields, field_digits}
use zxfoundation.Dgp.Cap.Slots.{Slot, CapState, max_capabilities, validate_slot}
use zxfoundation.Dgp.Cap.Sound.{IsValid}
use zxfoundation.Dgp.Cap.Preserve.{IsSound-before}
use zxfoundation.Dgp.Cap.Issue.{Issued, written, issue_locked-Issued}
use zxfoundation.Dgp.Cap.Authority.{
  Names, Authorized, accepted-Authorized, foreign-refused, slot_for_of_Names,
}
use zxfoundation.Dgp.Cap.Ops.{cap_duplicate, cap_acquire, cap_duplicate_for, slot_of}

-- A token that an issue returned, read back.
pub record Granted (s : CapState) (type rights owner : ℕ) (t : CapToken) (s' : CapState)
    : Type 0 where
  pub type_eq : token_type t ≡ type
  pub rights_eq : token_rights t ≡ rights
  pub slots : ℕ → Slot
  pub present : s'.capabilities ≡ some slots
  pub names : Names slots t
  pub owned : (slots (object_id t)).owner_domain ≡ owner

issued_fields :
    (type index gen rights : ℕ) (t : CapToken)
    → IsU16 type
    → index < max_capabilities
    → IsU16 gen
    → IsU16 rights
    → t ≡ make type index gen rights
    → (token_type t ≡ type)
      × (object_id t ≡ index)
      × (generation t ≡ gen)
      × (token_rights t ≡ rights)
issued_fields type index gen rights t ty below g ri e =
    rw e (make_fields type index gen rights ty (omega (arith, below)) g ri)

written_at :
    (slots : ℕ → Slot) (i : ℕ) (w : Slot) (t : CapToken)
    → object_id t ≡ i
    → update slots i w (object_id t) ≡ w
written_at slots i w t e = rw e (update_self slots i w)

written-Names :
    (slots : ℕ → Slot) (i : ℕ) (w : Slot) (t : CapToken)
    → object_id t ≡ i
    → 0 < i
    → i < max_capabilities
    → w.active ≡ true
    → w.generation ≡ generation t
    → w.type ≡ token_type t
    → w.rights ≡ token_rights t
    → Names (update slots i w) t
written-Names slots i w t e pos below on gen ty ri =
    let at = written_at slots i w t e in
    record {
      index_pos = rw e pos;
      index_lt = rw e below;
      on = ap (λ (x : Slot). x.active) at ∙ on;
      generation_eq = ap (λ (x : Slot). x.generation) at ∙ gen;
      type_eq = ap (λ (x : Slot). x.type) at ∙ ty;
      rights_eq = ap (λ (x : Slot). x.rights) at ∙ ri;
    }

pub Issued-Granted :
    (s : CapState) (type rights owner : ℕ) (t : CapToken) (s' : CapState)
    → IsU16 type
    → IsU16 rights
    → IsValid s
    → Issued s type rights owner t s'
    → Granted s type rights owner t s'
Issued-Granted s type rights owner t s' ty ri v i =
    let stamp = (IsSound-before s i.slots v i.slots_before).stamps i.index in
    let (ty_eq, id_eq, gen_eq, ri_eq) =
      issued_fields type i.index (i.slots i.index).generation rights t ty i.index_lt stamp ri
        i.token in
    let w = written s i.slots i.index i.target type rights owner in
    record {
      type_eq = ty_eq;
      rights_eq = ri_eq;
      slots = update i.slots i.index w;
      present = i.slots_after;
      names =
          written-Names i.slots i.index w t id_eq i.index_pos i.index_lt refl (sym gen_eq)
            (sym ty_eq) (sym ri_eq);
      owned = ap (λ (x : Slot). x.owner_domain) (written_at i.slots i.index w t id_eq);
    }

-- What a delegation returns has the type of its source, the rights asked for,
-- all of them rights of the source, and belongs to the domain named.
pub record Delegated (s : CapState) (source : CapToken) (rights from owner : ℕ) (t : CapToken)
    (s' : CapState) : Type 0 where
  pub granted : Granted s (token_type source) rights owner t s'
  pub before : ℕ → Slot
  pub ko : ℕ
  pub authorized : Authorized s before source rights ko
  pub source_owned : (before (object_id source)).owner_domain ≡ from

field_bound : (t : CapToken) → IsU16 (token_type t)
field_bound t = omega (arith, field_digits t)

slot_of-Authorized :
    (s : CapState) (slots : ℕ → Slot) (t : CapToken) (needed ko : ℕ)
    → Authorized s slots t needed ko
    → slot_of s t ≡ some (slots (object_id t))
unfolding slot_of
slot_of-Authorized s slots t needed ko a =
    ground (arith, a.present, slot_for_of_Names slots t a.valid a.names)

-- In a valid state, a token that `cap_duplicate` returns has the type of its source and the
-- rights asked for (a u16), which are rights of a source accepted at the time, and its slot
-- belongs to the domain named, which owns the source too: no amplification.
cap_duplicate-Delegated :
    (mem : Bool) (s : CapState) (source : CapToken) (rights owner : ℕ) {t : CapToken}
    {s' : CapState}
    → IsU16 rights
    → IsValid s
    → cap_duplicate mem s source rights owner ≡ done (ok t, s')
    → Delegated s source rights owner owner t s'
unfolding cap_duplicate
cap_duplicate-Delegated mem s source rights owner {t} {s'} ri v e =
    elim (Result-cases (validate_slot s source rights owner true)) [
      | inl (x, z) ↦ absurd (ground arith)
      | inr (ko, z) ↦
          let (before, a, owned) = accepted-Authorized s source rights owner true ko z in
          let found = slot_of-Authorized s before source rights ko a in
          record {
            granted =
                Issued-Granted s (token_type source) rights owner t s' (field_bound source) ri v (
                  issue_locked-Issued mem s (token_type source) ((s.heap ko).id % 2 ^ 16) rights
                    owner (ground (arith, a.names.type_eq)));
            before = before;
            ko = ko;
            authorized = a;
            source_owned = owned refl;
          }
    ]

-- In a valid state, a token that `cap_duplicate_for` returns has the type of its source and the
-- rights asked for (a u16), which are rights of a source accepted at the time; the first domain
-- owns the source and the second the new slot, and where they differ the source carries the
-- delegate right.
pub cap_duplicate_for-Delegated :
    (mem : Bool) (s : CapState) (source : CapToken) (rights from owner : ℕ) {t : CapToken}
    {s' : CapState}
    → IsU16 rights
    → IsValid s
    → cap_duplicate_for mem s source rights from owner ≡ done (ok t, s')
    → Delegated s source rights from owner t s'
      × ((owner ≡ from) ⊎ Subset delegate_right (token_rights source))
unfolding cap_duplicate_for
cap_duplicate_for-Delegated mem s source rights from owner {t} {s'} ri v e =
    elim (Result-cases (validate_slot s source rights from true)) [
      | inl (x, z) ↦ absurd (ground arith)
      | inr (ko, z) ↦
          let (before, a, owned) = accepted-Authorized s source rights from true ko z in
          let found = slot_of-Authorized s before source rights ko a in
          (
            record {
              granted =
                  Issued-Granted s (token_type source) rights owner t s' (field_bound source) ri v (
                    issue_locked-Issued mem s (token_type source) ((s.heap ko).id % 2 ^ 16) rights
                      owner (ground (arith, a.names.type_eq)));
              before = before;
              ko = ko;
              authorized = a;
              source_owned = owned refl;
            },
            elim (ℕ_discrete owner from) [
              | yes same ↦ inl same
              | no ne ↦ inr (
                  bit_and_comm delegate_right (token_rights source)
                  ∙ ground (arith, a.names.rights_eq))
            ],
          )
    ]

-- The recipient that `cap_duplicate` and `cap_acquire` take is also the owner that they require: a
-- good capability of another domain is refused, and nothing changes.
cap_duplicate_foreign :
    (mem : Bool) (s : CapState) (slots : ℕ → Slot) (source : CapToken) (rights owner ko : ℕ)
    → Authorized s slots source rights ko
    → (slots (object_id source)).owner_domain ≢ owner
    → (cap_duplicate mem s source rights owner ≡ done (err (from_memory capability_invalid), s))
      × (cap_acquire mem s source rights owner ≡ done (err (from_memory capability_invalid), s))
unfolding cap_duplicate cap_acquire
cap_duplicate_foreign mem s slots source rights owner ko a ne =
    let refused = foreign-refused s slots source rights owner ko a ne in
    (ground arith, ground arith)
