-- ===== src/Scoms/Metadata/Registering.antt =====
-- Registration keeps the links.
use zxfoundation.Base.{
  ℕ, ◌+◌, ◌<◌, ◌≡◌, ◌≢◌, inl, inr, sym, ap, subst, ◌∙◌, Bool, true, none, some, arith, ℕ_discrete,
  Option-cases,
}
use zxfoundation.Base.Arrays.{update_self}
use zxfoundation.Scoms.Metadata.{
  ObjectTable, invalid_id, max_object_metadata, modify_at, find_locked,
}
use zxfoundation.Scoms.Metadata.Ops.{find_free, registered, set_flags, register_object}
use zxfoundation.Scoms.Metadata.Blocks.{
  view, view-metadata_at, metadata_at-view, view-modify_at, view-modify_at_ne, IsFree,
  find_free-IsFree, find_free-view, find_locked-IsNamed, find_locked_of,
}
use zxfoundation.Scoms.Metadata.Links.{
  dependents, IsOwned, IsLinked, SameEntry-refl, SameHeader-refl, IsChangedAt,
}
use zxfoundation.Scoms.Metadata.Changes.{IsLinked-changed, dependents-changed, counts_to_none}
use zxfoundation.Scoms.Metadata.Dependents.{
  IsLinked-same, dependents_none, set_flags-SameHeader, set_flags-id,
}

created-IsLinked :
    {t : ObjectTable} (granted : ℕ → Bool)
    → IsLinked t
    → IsLinked (record t { blocks = (find_free max_object_metadata 0 granted t.blocks).0 })
created-IsLinked {t} granted l =
    let same = find_free-view max_object_metadata 0 granted t.blocks in
    IsLinked-same l
      (λ c. record {
        others = λ j ne. rw (same j) (SameEntry-refl (view t.blocks j));
        headers = λ j p live o. SameHeader-refl (t.heap p);
      })
      (λ j. ap (λ e. e.dependent_count) (same j))

-- An entry in use names an object whose flags name the entry.
pub IsOwned-flags :
    {t : ObjectTable} (i p : ℕ)
    → IsLinked t
    → (view t.blocks i).active ≡ true
    → (view t.blocks i).object ≡ some p
    → IsOwned t i p
IsOwned-flags {t} i p l live object =
    let (q, o) = l.owned i live in
    let same = sym o.object ∙ object in let e : q ≡ p = ground arith in subst (IsOwned t i) e o

IsOwned-find_locked :
    {t : ObjectTable} (i p : ℕ)
    → (view t.blocks i).active ≡ true
    → IsOwned t i p
    → find_locked t p ≡ some (i, view t.blocks i)
IsOwned-find_locked {t} i p live o = find_locked_of (record {
  flags = o.flags;
  below = o.below;
  found = metadata_at-view t.blocks i live;
  passes = live;
  describes_it = o.object;
})

abbrev entered : ObjectTable → ℕ → ℕ → ℕ → ℕ → ObjectTable
entered t i p owner flags = record {
  heap = set_flags t.heap p (i + 1);
  blocks = modify_at t.blocks i (registered p owner flags);
}

-- The free entry `i` is given to the object `p`, which has none.
entered-IsLinked :
    {t : ObjectTable} (i p owner flags : ℕ)
    → IsLinked t
    → IsFree t.blocks i
    → i < max_object_metadata
    → find_locked t p ≡ none
    → (t.heap p).id ≢ invalid_id
    → IsLinked (entered t i p owner flags)
entered-IsLinked {t} i p owner flags l free below unknown some_id =
    let t' = entered t i p owner flags in
    let here = view-modify_at t.blocks i (registered p owner flags) free.entry free.found in
    let was = view-metadata_at t.blocks i free.entry free.found in
    let idle = ap (λ e. e.active) was ∙ free.idle in
    let change : IsChangedAt t t' i = record {
      others = λ j ne.
          rw (view-modify_at_ne t.blocks i j (registered p owner flags) ne)
            (SameEntry-refl (view t.blocks j));
      headers = λ j q live o.
          let known = IsOwned-find_locked j q live (IsOwned-flags j q l live o) in
          set_flags-SameHeader t.heap p (i + 1) q
            (λ e. let same = ap (find_locked t) e in ground arith);
    } in
    IsLinked-changed i l change
      (λ live. (
        p,
        record {
          object = ap (λ e. e.object) here;
          flags =
              ap (λ o. o.object_flags)
                (update_self t.heap p (record (t.heap p) { object_flags = i + 1 }));
          below = below;
          kept = ap (λ e. e.reclaim_pending) here;
          named = rw (set_flags-id t.heap p (i + 1) p) some_id;
        },
      ))
      (λ live child. absurd (child (ap (λ e. e.parent_id) here)))
      (λ d q ne live child a. absurd (let on = a.live in ground arith))
      (λ k live.
        let moved = dependents-changed {t = t} {t' = t'} i k change below in
        let before = counts_to_none (view t.blocks i) k (inl idle) in
        let after = counts_to_none (view t'.blocks i) k (inr (ap (λ e. e.parent_id) here)) in
        elim (ℕ_discrete i k) [
          | yes e ↦
              let count = ap (λ e. e.dependent_count) here in
              let none_yet = dependents_none i l idle in
              subst (λ j. (view t'.blocks j).dependent_count ≡ dependents t'.blocks j) e
                (let moved_i = dependents-changed {t = t} {t' = t'} i i change below in
                  let before_i = counts_to_none (view t.blocks i) i (inl idle) in
                  let after_i =
                    counts_to_none (view t'.blocks i) i (inr (ap (λ e. e.parent_id) here)) in
                  omega (arith, moved_i, before_i, after_i, count, none_yet))
          | no ne ↦
              let same = view-modify_at_ne t.blocks i k (registered p owner flags) ne in
              let count = ap (λ e. e.dependent_count) same in
              let counted = l.counted k (ap (λ e. e.active) (sym same) ∙ live) in
              omega (arith, moved, before, after, count, counted)
        ])

-- The search for a free entry registers nothing.
created-unknown :
    (t : ObjectTable) (granted : ℕ → Bool) (p : ℕ)
    → find_locked t p ≡ none
    → find_locked (record t { blocks = (find_free max_object_metadata 0 granted t.blocks).0 }) p
      ≡ none
created-unknown t granted p z =
    let t' = record t { blocks = (find_free max_object_metadata 0 granted t.blocks).0 } in
    elim (Option-cases (find_locked t' p)) [
      | inl none_there ↦ none_there
      | inr ((i, e), there) ↦
          let n = find_locked-IsNamed {t = t'} {p = p} {i = i} {e = e} there in
          let same =
            sym (find_free-view max_object_metadata 0 granted t.blocks i)
            ∙ view-metadata_at t'.blocks i e n.found in
          let live = ap (λ x. x.active) same ∙ n.passes in
          let here = find_locked_of {t = t} {p = p} {i = i} {e = view t.blocks i} (record {
            flags = n.flags;
            below = n.below;
            found = metadata_at-view t.blocks i live;
            passes = live;
            describes_it = ap (λ x. x.object) same ∙ n.describes_it;
          }) in
          absurd (ground arith)
    ]

pub register_object-IsLinked :
    (granted : ℕ → Bool) (t : ObjectTable) (p owner : ℕ)
    → IsLinked t
    → (t.heap p).id ≢ invalid_id
    → IsLinked (register_object granted t p owner).1
unfolding register_object
register_object-IsLinked granted t p owner l some_id = elim (Option-cases (find_locked t p)) [
  | inr (found, z) ↦
      let e : (register_object granted t p owner).1 ≡ t = ground arith in subst IsLinked (sym e) l
  | inl z ↦
      let search = find_free max_object_metadata 0 granted t.blocks in
      let created = created-IsLinked granted l in
      elim (Option-cases search.1) [
        | inl full ↦
            let e : (register_object granted t p owner).1 ≡ record t { blocks = search.0 } =
              ground arith in
            subst IsLinked (sym e) created
        | inr (i, given) ↦
            let (free, below) =
              find_free-IsFree max_object_metadata 0 granted t.blocks search.0 i
                (λ j. (search.0, given j)) in
            let unknown = created-unknown t granted p z in
            let e : (register_object granted t p owner).1
                ≡ entered (record t { blocks = search.0 }) i p owner (t.heap p).object_flags =
              ground arith in
            subst IsLinked (sym e) (
              entered-IsLinked i p owner (t.heap p).object_flags created free below unknown some_id)
      ]
]
