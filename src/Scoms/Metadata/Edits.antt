-- ===== src/Scoms/Metadata/Edits.antt =====
-- The other assignments to an entry keep the links.
use zxfoundation.Base.{
  ℕ, ◌+◌, ◌%◌, ◌^◌, ◌≡◌, inl, inr, refl, sym, subst, Option, none, some, arith, Option-cases,
}
use zxfoundation.Scoms.Metadata.{ObjectMetadata, ObjectTable, modify_at, find_locked}
use zxfoundation.Scoms.Metadata.Ops.{edit_entry, set_reclaimer, set_owner, bump_hardware_generation}
use zxfoundation.Scoms.Metadata.Links.{IsLinked, SameEntry}
use zxfoundation.Scoms.Metadata.Dependents.{edited-IsLinked}
use zxfoundation.Scoms.Metadata.Attaching.{find_locked-IsFound}

abbrev KeepsLinks : (ObjectMetadata → ObjectMetadata) → Type 0
KeepsLinks f =
    (x : ObjectMetadata) → SameEntry x (f x) × ((f x).dependent_count ≡ x.dependent_count)

edit_entry-IsLinked :
    (t : ObjectTable) (p : ℕ) (f : ObjectMetadata → ObjectMetadata)
    → IsLinked t
    → KeepsLinks f
    → IsLinked (edit_entry t p f).1
edit_entry-IsLinked t p f l keeps = elim (Option-cases (find_locked t p)) [
  | inl z ↦ let e : (edit_entry t p f).1 ≡ t = ground arith in subst IsLinked (sym e) l
  | inr ((i, entry), z) ↦
      let c = find_locked-IsFound {t = t} {p = p} {i = i} {e = entry} l z in
      let e : (edit_entry t p f).1 ≡ record t { blocks = modify_at t.blocks i f } = ground arith in
      subst IsLinked (sym e) (edited-IsLinked i f entry l c.found keeps)
]

pub set_owner-IsLinked :
    (t : ObjectTable) (p owner : ℕ) → IsLinked t → IsLinked (set_owner t p owner).1
unfolding set_owner
set_owner-IsLinked t p owner l =
    edit_entry-IsLinked t p (λ e. record e { owner_domain = owner }) l
      (λ x. (
        record {
          active = refl;
          object = refl;
          pending = refl;
          slot = refl;
          type = refl;
          id = refl;
          generation = refl;
        },
        refl,
      ))

pub set_reclaimer-IsLinked :
    (t : ObjectTable) (p : ℕ) (r : Option ℕ) → IsLinked t → IsLinked (set_reclaimer t p r).1
unfolding set_reclaimer
set_reclaimer-IsLinked t p none l = l
set_reclaimer-IsLinked t p (some r) l =
    edit_entry-IsLinked t p (λ e. record e { reclaimer = some r }) l
      (λ x. (
        record {
          active = refl;
          object = refl;
          pending = refl;
          slot = refl;
          type = refl;
          id = refl;
          generation = refl;
        },
        refl,
      ))

pub bump_hardware_generation-IsLinked :
    (t : ObjectTable) (p : ℕ) → IsLinked t → IsLinked (bump_hardware_generation t p).1
unfolding bump_hardware_generation
bump_hardware_generation-IsLinked t p l = elim (Option-cases (find_locked t p)) [
  | inl z ↦ let e : (bump_hardware_generation t p).1 ≡ t = ground arith in subst IsLinked (sym e) l
  | inr ((i, entry), z) ↦
      let c = find_locked-IsFound {t = t} {p = p} {i = i} {e = entry} l z in
      let bumped = (entry.hardware_generation + 1) % 2 ^ 32 in
      let f : ObjectMetadata → ObjectMetadata = λ e. record e { hardware_generation = bumped } in
      let e : (bump_hardware_generation t p).1 ≡ record t { blocks = modify_at t.blocks i f } =
        ground arith in
      subst IsLinked (sym e) (
        edited-IsLinked i f entry l c.found (λ x. (
          record {
            active = refl;
            object = refl;
            pending = refl;
            slot = refl;
            type = refl;
            id = refl;
            generation = refl;
          },
          refl,
        )))
]
