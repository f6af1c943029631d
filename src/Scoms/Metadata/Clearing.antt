-- ===== src/Scoms/Metadata/Clearing.antt =====
-- `clear_parent_locked` keeps the links.
use zxfoundation.Base.{
  ℕ, ◌+◌, ◌-◌, ◌≤◌, ◌≡◌, ◌≢◌, ◌⊎◌, inl, inr, refl, sym, ap, subst, ◌∙◌, true, arith, ==_ne,
  ℕ_discrete,
}
use zxfoundation.Scoms.Metadata.{
  ObjectMetadata, ObjectTable, invalid_id, modify_at, is_parent, drop_dependent,
  clear_parent_locked, without_parent,
}
use zxfoundation.Scoms.Metadata.Blocks.{
  view, metadata_at-view, view-modify_at, view-modify_at_ne, modify_at-ne,
}
use zxfoundation.Scoms.Metadata.Links.{
  counts_to, dependents, IsAttached, IsLinked, SameEntry, SameEntry-refl, SameHeader-refl,
  IsChangedAt,
}
use zxfoundation.Scoms.Metadata.Changes.{
  IsLinked-changed, dependents-changed, counts_to-parent, counts_to_none, IsAttached-dependents,
}

abbrev one_less : ObjectMetadata → ObjectMetadata
one_less e = record e { dependent_count = e.dependent_count - 1 }

is_parent-IsAttached :
    {t : ObjectTable} (c k q : ℕ)
    → IsAttached t c k q
    → 1 ≤ (view t.blocks k).dependent_count
    → is_parent t.heap (view t.blocks c) (view t.blocks k) ≡ true
unfolding is_parent
is_parent-IsAttached {t} c k q a some_left =
    let live = a.live in
    let parent = a.parent in
    let type = a.type in
    let id = a.id in
    let generation = a.generation in
    rw (live, parent, type, id, generation) (ground (arith, some_left))

drop_dependent-IsAttached :
    {t : ObjectTable} (c k q : ℕ)
    → IsAttached t c k q
    → 1 ≤ (view t.blocks k).dependent_count
    → drop_dependent t (view t.blocks c) ≡ modify_at t.blocks k one_less
unfolding drop_dependent
drop_dependent-IsAttached {t} c k q a some_left =
    let at = metadata_at-view t.blocks k a.live in
    let is = is_parent-IsAttached c k q a some_left in
    let slot = a.slot in
    let index : k + 1 - 1 ≡ k = omega arith in rw (slot, index, at, is) (ground arith)

-- The table without the child's link.
abbrev unlinked : ObjectTable → ℕ → ℕ → ObjectTable
unlinked t c k = record t { blocks = modify_at (modify_at t.blocks k one_less) c without_parent }

unlinked-child :
    (t : ObjectTable) (c k : ℕ)
    → k ≢ c
    → (view t.blocks c).active ≡ true
    → view (unlinked t c k).blocks c ≡ without_parent (view t.blocks c)
unlinked-child t c k ne live =
    view-modify_at (modify_at t.blocks k one_less) c without_parent (view t.blocks c)
      (modify_at-ne t.blocks k c one_less ne ∙ metadata_at-view t.blocks c live)
    ∙ ap without_parent (view-modify_at_ne t.blocks k c one_less ne)

unlinked-parent :
    (t : ObjectTable) (c k : ℕ)
    → c ≢ k
    → (view t.blocks k).active ≡ true
    → view (unlinked t c k).blocks k ≡ one_less (view t.blocks k)
unlinked-parent t c k ne live =
    view-modify_at_ne (modify_at t.blocks k one_less) c k without_parent ne
    ∙ view-modify_at t.blocks k one_less (view t.blocks k) (metadata_at-view t.blocks k live)

unlinked-other :
    (t : ObjectTable) (c k i : ℕ) → c ≢ i → k ≢ i → view (unlinked t c k).blocks i ≡ view t.blocks i
unlinked-other t c k i c_ne k_ne =
    view-modify_at_ne (modify_at t.blocks k one_less) c i without_parent c_ne
    ∙ view-modify_at_ne t.blocks k i one_less k_ne

unlinked-IsChangedAt :
    {t : ObjectTable} (c k : ℕ)
    → IsLinked t
    → c ≢ k
    → (view t.blocks k).active ≡ true
    → IsChangedAt t (unlinked t c k) c
unlinked-IsChangedAt {t} c k l ne live = record {
  others = λ i off. elim (ℕ_discrete k i) [
    | yes e ↦
        subst (λ j. SameEntry (view t.blocks j) (view (unlinked t c k).blocks j)) e
          (subst (SameEntry (view t.blocks k)) (sym (unlinked-parent t c k ne live)) (record {
            active = refl;
            object = refl;
            pending = refl;
            slot = refl;
            type = refl;
            id = refl;
            generation = refl;
          }))
    | no other ↦
        subst (SameEntry (view t.blocks i)) (sym (unlinked-other t c k i off other))
          (SameEntry-refl (view t.blocks i))
  ];
  headers = λ i p live_i o. SameHeader-refl (t.heap p);
}

-- The parent has one child less; every other object has as many as before.
unlinked-counted :
    {t : ObjectTable} (c k q m : ℕ)
    → IsLinked t
    → (view t.blocks c).active ≡ true
    → (view t.blocks c).parent_id ≢ invalid_id
    → IsAttached t c k q
    → (view (unlinked t c k).blocks m).active ≡ true
    → (view (unlinked t c k).blocks m).dependent_count ≡ dependents (unlinked t c k).blocks m
unlinked-counted {t} c k q m l live child a live_m =
    let change = unlinked-IsChangedAt {t = t} c k l a.apart a.live in
    let here = unlinked-child t c k (λ e. a.apart (sym e)) live in
    let (p, o) = l.owned c live in
    let moved = dependents-changed {t = t} {t' = unlinked t c k} c m change o.below in
    let off =
      ap (λ e. counts_to e m) here
      ∙ counts_to_none (without_parent (view t.blocks c)) m (inr refl) in
    let (one, none_else) = counts_to-parent c k q m live child a in
    elim (ℕ_discrete k m) [
      | yes e ↦
          let count =
            subst
              (λ j.
                (view (unlinked t c k).blocks j).dependent_count
                ≡ (view t.blocks j).dependent_count - 1)
              e (ap (λ x. x.dependent_count) (unlinked-parent t c k a.apart a.live)) in
          let one_m = subst (λ j. counts_to (view t.blocks c) j ≡ 1) e one in
          let was =
            subst (λ j. (view t.blocks j).dependent_count ≡ dependents t.blocks j) e
              (l.counted k a.live) in
          omega (arith, moved, off, one_m, count, was)
      | no k_ne ↦
          let zero_m = none_else k_ne in
          elim (ℕ_discrete c m) [
            | yes e ↦
                let count =
                  subst
                    (λ j.
                      (view (unlinked t c k).blocks j).dependent_count
                      ≡ (view t.blocks j).dependent_count)
                    e (ap (λ x. x.dependent_count) here) in
                let was =
                  subst (λ j. (view t.blocks j).dependent_count ≡ dependents t.blocks j) e
                    (l.counted c live) in
                omega (arith, moved, off, zero_m, count, was)
            | no c_ne ↦
                let same = unlinked-other t c k m c_ne k_ne in
                let count = ap (λ x. x.dependent_count) same in
                let was = l.counted m (ap (λ x. x.active) (sym same) ∙ live_m) in
                omega (arith, moved, off, zero_m, count, was)
          ]
    ]

unlinked-IsLinked :
    {t : ObjectTable} (c k q : ℕ)
    → IsLinked t
    → (view t.blocks c).active ≡ true
    → (view t.blocks c).parent_id ≢ invalid_id
    → IsAttached t c k q
    → IsLinked (unlinked t c k)
unlinked-IsLinked {t} c k q l live child a =
    let change = unlinked-IsChangedAt {t = t} c k l a.apart a.live in
    let here = unlinked-child t c k (λ e. a.apart (sym e)) live in
    let (p, o) = l.owned c live in
    IsLinked-changed c l change
      (λ z. (
        p,
        record {
          object = rw here (o.object);
          flags = o.flags;
          named = o.named;
          below = o.below;
          kept = rw here (o.kept);
        },
      ))
      (λ z some_parent. absurd (some_parent (rw here refl)))
      (λ d r off live_d child_d b. (rw here live, rw here refl))
      (λ m live_m. unlinked-counted c k q m l live child a live_m)

-- What `clear_parent_locked` leaves, for the entry of a registered object.
pub record IsCleared (t t' : ObjectTable) (c : ℕ) : Type 0 where
  pub linked : IsLinked t'
  pub heap : t'.heap ≡ t.heap
  pub entry :
      view t'.blocks c ≡ view t.blocks c ⊎ view t'.blocks c ≡ without_parent (view t.blocks c)
  pub free : (view t'.blocks c).parent_id ≡ invalid_id

pub clear_parent_locked-IsCleared :
    {t : ObjectTable} (c : ℕ)
    → IsLinked t
    → (view t.blocks c).active ≡ true
    → IsCleared t (clear_parent_locked t c (view t.blocks c)) c
unfolding clear_parent_locked
clear_parent_locked-IsCleared {t} c l live =
    elim (ℕ_discrete (view t.blocks c).parent_id invalid_id) [
      | yes e ↦ rw e (record { linked = l; heap = refl; entry = inl refl; free = e })
      | no child ↦
          let (k, q, a) = l.linked c live child in
          let dropped =
            drop_dependent-IsAttached c k q a (IsAttached-dependents c k q l live child a) in
          let here = unlinked-child t c k (λ e. a.apart (sym e)) live in
          rw (==_ne (view t.blocks c).parent_id invalid_id child, dropped)
            (record {
              linked = unlinked-IsLinked c k q l live child a;
              heap = refl;
              entry = inr here;
              free = ap (λ x. x.parent_id) here;
            })
    ]
