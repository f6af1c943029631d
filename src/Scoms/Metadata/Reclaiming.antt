-- ===== src/Scoms/Metadata/Reclaiming.antt =====
-- The end of a registration and the reclamation keep the links.
use zxfoundation.Base.{
  ℕ, ◌+◌, ◌<◌, ◌≡◌, ◌⊎◌, inl, inr, refl, sym, ap, subst, ◌∙◌, true, false, none, some, arith,
  ℕ_discrete, Bool-cases, Option-cases, done,
}
use zxfoundation.Scoms.Metadata.{
  ObjectMetadata, ObjectTable, max_object_metadata, invalid_id, metadata_at, modify_at, find_locked,
  retired_locked, clear_parent_locked,
}
use zxfoundation.Scoms.Metadata.Ops.{set_flags, unregister_object, complete_reclaim}
use zxfoundation.Scoms.Metadata.Blocks.{
  view, view-metadata_at, metadata_at-view, view-modify_at, view-modify_at_ne, find_locked-IsNamed,
  retired_locked-IsNamed,
}
use zxfoundation.Scoms.Metadata.Links.{
  dependents, IsLinked, SameEntry-refl, SameHeader-refl, IsChangedAt,
}
use zxfoundation.Scoms.Metadata.Changes.{
  IsLinked-changed, dependents-changed, counts_to_none, IsAttached-dependents,
}
use zxfoundation.Scoms.Metadata.Clearing.{IsCleared, clear_parent_locked-IsCleared}
use zxfoundation.Scoms.Metadata.Dependents.{set_flags-SameHeader}
use zxfoundation.Scoms.Metadata.Registering.{IsOwned-flags}

-- An entry that is nobody's child goes out of use: every other object has as many children as before.
withdrawn-counted :
    {t t' : ObjectTable} (i k : ℕ) (f : ObjectMetadata → ObjectMetadata)
    → IsLinked t
    → IsChangedAt t t' i
    → i < max_object_metadata
    → t'.blocks ≡ modify_at t.blocks i f
    → (view t.blocks i).active ≡ false ⊎ (view t.blocks i).parent_id ≡ invalid_id
    → (view t'.blocks i).active ≡ false
    → (view t'.blocks k).active ≡ true
    → (view t'.blocks k).dependent_count ≡ dependents t'.blocks k
withdrawn-counted {t} {t'} i k f l change below blocks no_child idle live_k =
    let moved = dependents-changed {t = t} {t' = t'} i k change below in
    let before = counts_to_none (view t.blocks i) k no_child in
    let after = counts_to_none (view t'.blocks i) k (inl idle) in
    elim (ℕ_discrete i k) [
      | yes z ↦
          absurd
            (let on = subst (λ j. (view t'.blocks j).active ≡ true) (sym z) live_k in ground arith)
      | no ne ↦
          let same = ap (λ b. view b k) blocks ∙ view-modify_at_ne t.blocks i k f ne in
          let count = ap (λ x. x.dependent_count) same in
          let counted = l.counted k (ap (λ x. x.active) (sym same) ∙ live_k) in
          omega (arith, moved, before, after, count, counted)
    ]

-- The entry `i` goes out of use, without children and without a parent.
retired_entry-IsLinked :
    {t : ObjectTable} (i : ℕ) (f : ObjectMetadata → ObjectMetadata)
    → IsLinked t
    → i < max_object_metadata
    → (view t.blocks i).active ≡ true
    → (view t.blocks i).dependent_count ≡ 0
    → (view t.blocks i).parent_id ≡ invalid_id
    → ((e : ObjectMetadata) → (f e).active ≡ false)
    → IsLinked (record t { blocks = modify_at t.blocks i f })
retired_entry-IsLinked {t} i f l below live childless alone off =
    let t' = record t { blocks = modify_at t.blocks i f } in
    let here = view-modify_at t.blocks i f (view t.blocks i) (metadata_at-view t.blocks i live) in
    let idle = ap (λ e. e.active) here ∙ off (view t.blocks i) in
    let change : IsChangedAt t t' i = record {
      others = λ j ne. rw (view-modify_at_ne t.blocks i j f ne) (SameEntry-refl (view t.blocks j));
      headers = λ j p live_j o. SameHeader-refl (t.heap p);
    } in
    IsLinked-changed i l change (λ z. absurd (ground arith)) (λ z child. absurd (ground arith))
      (λ d q ne live_d child a.
        absurd
          (let one = IsAttached-dependents d i q l live_d child a in omega (arith, one, childless)))
      (λ k live_k. withdrawn-counted i k f l change below refl (inr alone) idle live_k)

pub unregister_object-IsLinked :
    (t : ObjectTable) (p : ℕ) → IsLinked t → IsLinked (unregister_object t p).1
unfolding unregister_object
unregister_object-IsLinked t p l = elim (Option-cases (find_locked t p)) [
  | inl z ↦ let e : (unregister_object t p).1 ≡ t = ground arith in subst IsLinked (sym e) l
  | inr ((i, entry), z) ↦
      let n = find_locked-IsNamed {t = t} {p = p} {i = i} {e = entry} z in
      let same = view-metadata_at t.blocks i entry n.found in
      let live = ap (λ x. x.active) same ∙ n.passes in
      elim (ℕ_discrete entry.dependent_count 0) [
        | no some_left ↦
            let e : (unregister_object t p).1 ≡ t = ground arith in subst IsLinked (sym e) l
        | yes childless ↦
            let t1 = clear_parent_locked t i entry in
            let c =
              subst (λ x. IsCleared t (clear_parent_locked t i x) i) same
                (clear_parent_locked-IsCleared i l live) in
            let kept : ((view t1.blocks i).active ≡ true)
                × ((view t1.blocks i).dependent_count ≡ 0) =
              elim c.entry [
                | inl u ↦ (
                  ap (λ x. x.active) u ∙ live,
                  ap (λ x. x.dependent_count) (u ∙ same) ∙ childless,
                )
                | inr u ↦ (
                  ap (λ x. x.active) u ∙ live,
                  ap (λ x. x.dependent_count) u ∙ ap (λ x. x.dependent_count) same ∙ childless,
                )
              ] in
            let f : ObjectMetadata → ObjectMetadata =
              λ e. record e { active = false; reclaim_pending = true } in
            let e : (unregister_object t p).1 ≡ record t1 { blocks = modify_at t1.blocks i f } =
              ground arith in
            subst IsLinked (sym e)
              (retired_entry-IsLinked i f c.linked n.below kept.0 kept.1 c.free (λ x. refl))
      ]
]

-- An entry whose object is being reclaimed is out of use already, and so is its object.
reclaimed-IsLinked :
    {t : ObjectTable} (i p : ℕ) (f : ObjectMetadata → ObjectMetadata) (e : ObjectMetadata)
    → IsLinked t
    → (t.heap p).object_flags ≡ i + 1
    → i < max_object_metadata
    → metadata_at t.blocks i ≡ some e
    → (view t.blocks i).reclaim_pending ≡ true
    → ((x : ObjectMetadata) → (f x).active ≡ x.active)
    → IsLinked (record { heap = set_flags t.heap p 0; blocks = modify_at t.blocks i f })
reclaimed-IsLinked {t} i p f e l flags below found pending keeps =
    let t' : ObjectTable = record {
      heap = set_flags t.heap p 0;
      blocks = modify_at t.blocks i f;
    } in
    let idle : (view t.blocks i).active ≡ false = elim (Bool-cases (view t.blocks i).active) [
      | inr off ↦ off
      | inl on ↦ let kept = (l.owned i on).1.kept in absurd (ground arith)
    ] in
    let here = view-modify_at t.blocks i f e found in
    let idle_after = ap (λ x. x.active) here ∙ keeps (view t.blocks i) ∙ idle in
    let change : IsChangedAt t t' i = record {
      others = λ j ne. rw (view-modify_at_ne t.blocks i j f ne) (SameEntry-refl (view t.blocks j));
      headers = λ j q live o.
          let owned = IsOwned-flags j q l live o in
          set_flags-SameHeader t.heap p 0 q (λ z.
            let flags_q = ap (λ x. (t.heap x).object_flags) z in
            let index : j ≡ i = omega (arith, flags, flags_q, owned.flags) in
            let on = subst (λ x. (view t.blocks x).active ≡ true) index live in ground arith);
    } in
    IsLinked-changed i l change (λ z. absurd (ground arith)) (λ z child. absurd (ground arith))
      (λ d q ne live_d child a. absurd (let on = a.live in ground arith))
      (λ k live_k. withdrawn-counted i k f l change below refl (inl idle) idle_after live_k)

pub complete_reclaim-IsLinked :
    (t t' : ObjectTable) (p : ℕ) → IsLinked t → complete_reclaim t p ≡ done t' → IsLinked t'
unfolding complete_reclaim
complete_reclaim-IsLinked t t' p l h = elim (Option-cases (retired_locked t p)) [
  | inl z ↦ absurd (ground arith)
  | inr ((i, entry), z) ↦
      let n = retired_locked-IsNamed {t = t} {p = p} {i = i} {e = entry} z in
      let same = view-metadata_at t.blocks i entry n.found in
      let pending = ap (λ x. x.reclaim_pending) same ∙ n.passes in
      let f : ObjectMetadata → ObjectMetadata =
        λ e. record e { object = none; reclaimer = none; reclaim_pending = false } in
      let result : t' ≡ record { heap = set_flags t.heap p 0; blocks = modify_at t.blocks i f } =
        ground arith in
      subst IsLinked (sym result)
        (reclaimed-IsLinked i p f entry l n.flags n.below n.found pending (λ x. refl))
]
