-- ===== src/Scoms/Metadata/Attaching.antt =====
-- Attaching and detaching children keeps the links.
use zxfoundation.Base.{
  ℕ, ◌+◌, ◌%◌, ◌^◌, ◌≡◌, ◌≢◌, inl, inr, refl, sym, ap, subst, ◌∙◌, true, some, arith, ℕ_discrete,
  Option-cases,
}
use zxfoundation.Scoms.Kobject.{Bobject}
use zxfoundation.Scoms.Metadata.{
  ObjectMetadata, ObjectTable, invalid_id, metadata_at, modify_at, find_locked, clear_parent_locked,
}
use zxfoundation.Scoms.Metadata.Ops.{with_parent, one_more, attach, detach}
use zxfoundation.Scoms.Metadata.Blocks.{
  view, view-metadata_at, metadata_at-view, view-modify_at, view-modify_at_ne, modify_at-ne,
  find_locked-IsNamed,
}
use zxfoundation.Scoms.Metadata.Links.{
  counts_to, dependents, IsOwned, IsLinked, SameEntry, SameEntry-refl, SameHeader-refl, IsChangedAt,
}
use zxfoundation.Scoms.Metadata.Changes.{
  IsLinked-changed, dependents-changed, counts_to_none, dependents_le,
}
use zxfoundation.Scoms.Metadata.Clearing.{IsCleared, clear_parent_locked-IsCleared}
use zxfoundation.Scoms.Metadata.Registering.{IsOwned-flags}

-- The table with the object `q`, of entry `k`, as the parent of the child with entry `c`.
abbrev joined : ObjectTable → ℕ → ℕ → ℕ → ObjectTable
joined t c k q = record t {
  blocks = modify_at (modify_at t.blocks c (with_parent (t.heap q))) k one_more;
}

joined-child :
    (t : ObjectTable) (c k q : ℕ)
    → c ≢ k
    → (view t.blocks c).active ≡ true
    → view (joined t c k q).blocks c ≡ with_parent (t.heap q) (view t.blocks c)
joined-child t c k q ne live =
    view-modify_at_ne (modify_at t.blocks c (with_parent (t.heap q))) k c one_more (λ e. ne (sym e))
    ∙ view-modify_at t.blocks c (with_parent (t.heap q)) (view t.blocks c)
        (metadata_at-view t.blocks c live)

joined-parent :
    (t : ObjectTable) (c k q : ℕ)
    → c ≢ k
    → (view t.blocks k).active ≡ true
    → view (joined t c k q).blocks k ≡ one_more (view t.blocks k)
joined-parent t c k q ne live =
    view-modify_at (modify_at t.blocks c (with_parent (t.heap q))) k one_more (view t.blocks k)
      (modify_at-ne t.blocks c k (with_parent (t.heap q)) ne ∙ metadata_at-view t.blocks k live)
    ∙ ap one_more (view-modify_at_ne t.blocks c k (with_parent (t.heap q)) ne)

joined-other :
    (t : ObjectTable) (c k q i : ℕ)
    → c ≢ i
    → k ≢ i
    → view (joined t c k q).blocks i ≡ view t.blocks i
joined-other t c k q i c_ne k_ne =
    view-modify_at_ne (modify_at t.blocks c (with_parent (t.heap q))) k i one_more k_ne
    ∙ view-modify_at_ne t.blocks c i (with_parent (t.heap q)) c_ne

joined-IsChangedAt :
    {t : ObjectTable} (c k q : ℕ)
    → IsLinked t
    → c ≢ k
    → (view t.blocks k).active ≡ true
    → IsChangedAt t (joined t c k q) c
joined-IsChangedAt {t} c k q l ne live = record {
  others = λ i off. elim (ℕ_discrete k i) [
    | yes e ↦
        subst (λ j. SameEntry (view t.blocks j) (view (joined t c k q).blocks j)) e
          (subst (SameEntry (view t.blocks k)) (sym (joined-parent t c k q ne live)) (record {
            active = refl;
            object = refl;
            pending = refl;
            slot = refl;
            type = refl;
            id = refl;
            generation = refl;
          }))
    | no other ↦
        subst (SameEntry (view t.blocks i)) (sym (joined-other t c k q i off other))
          (SameEntry-refl (view t.blocks i))
  ];
  headers = λ i p live_i o. SameHeader-refl (t.heap p);
}

-- What `attach` knows of the two objects when it joins them.
record IsJoinable (t : ObjectTable) (c k p q : ℕ) : Type 0 where
  apart : c ≢ k
  child : (view t.blocks c).active ≡ true
  child_object : IsOwned t c p
  alone : (view t.blocks c).parent_id ≡ invalid_id
  parent : (view t.blocks k).active ≡ true
  parent_object : IsOwned t k q

counts_to_joined :
    (e : ObjectMetadata) (o : Bobject) (k m : ℕ)
    → e.active ≡ true
    → o.id ≢ invalid_id
    → o.object_flags ≡ k + 1
    → (k ≡ m → counts_to (with_parent o e) m ≡ 1) × (k ≢ m → counts_to (with_parent o e) m ≡ 0)
unfolding counts_to
counts_to_joined e o k m on some_id flags =
    (λ z. ground (arith, flags), λ ne. ground (arith, flags))

joined-counted :
    {t : ObjectTable} (c k p q m : ℕ)
    → IsLinked t
    → IsJoinable t c k p q
    → (view (joined t c k q).blocks m).active ≡ true
    → (view (joined t c k q).blocks m).dependent_count ≡ dependents (joined t c k q).blocks m
joined-counted {t} c k p q m l j live_m =
    let change = joined-IsChangedAt {t = t} c k q l j.apart j.parent in
    let here = joined-child t c k q j.apart j.child in
    let moved = dependents-changed {t = t} {t' = joined t c k q} c m change j.child_object.below in
    let off = counts_to_none (view t.blocks c) m (inr j.alone) in
    let now = ap (λ e. counts_to e m) here in
    let (one, none_else) =
      counts_to_joined (view t.blocks c) (t.heap q) k m j.child j.parent_object.named
        j.parent_object.flags in
    elim (ℕ_discrete k m) [
      | yes e ↦
          let count =
            subst
              (λ x.
                (view (joined t c k q).blocks x).dependent_count
                ≡ ((view t.blocks x).dependent_count + 1) % 2 ^ 32)
              e (ap (λ x. x.dependent_count) (joined-parent t c k q j.apart j.parent)) in
          let was =
            subst (λ x. (view t.blocks x).dependent_count ≡ dependents t.blocks x) e
              (l.counted k j.parent) in
          omega (arith, moved, off, now, one e, count, was, dependents_le t.blocks m)
      | no k_ne ↦
          let zero_m = none_else k_ne in
          elim (ℕ_discrete c m) [
            | yes e ↦
                let count =
                  subst
                    (λ x.
                      (view (joined t c k q).blocks x).dependent_count
                      ≡ (view t.blocks x).dependent_count)
                    e (ap (λ x. x.dependent_count) here) in
                let was =
                  subst (λ x. (view t.blocks x).dependent_count ≡ dependents t.blocks x) e
                    (l.counted c j.child) in
                omega (arith, moved, off, now, zero_m, count, was)
            | no c_ne ↦
                let same = joined-other t c k q m c_ne k_ne in
                let count = ap (λ x. x.dependent_count) same in
                let was = l.counted m (ap (λ x. x.active) (sym same) ∙ live_m) in
                omega (arith, moved, off, now, zero_m, count, was)
          ]
    ]

joined-IsLinked :
    {t : ObjectTable} (c k p q : ℕ) → IsLinked t → IsJoinable t c k p q → IsLinked (joined t c k q)
joined-IsLinked {t} c k p q l j =
    let t' = joined t c k q in
    let change = joined-IsChangedAt {t = t} c k q l j.apart j.parent in
    let here = joined-child t c k q j.apart j.child in
    let there = joined-parent t c k q j.apart j.parent in
    let own = j.child_object in
    let parent = j.parent_object in
    IsLinked-changed c l change
      (λ z. (
        p,
        record {
          object = rw here own.object;
          flags = own.flags;
          named = own.named;
          below = own.below;
          kept = rw here own.kept;
        },
      ))
      (λ z child. (
        k,
        q,
        record {
          slot = ap (λ e. e.parent_slot) here ∙ parent.flags;
          apart = j.apart;
          live = rw there j.parent;
          parent = rw there parent.object;
          type = sym (ap (λ e. e.parent_type) here);
          id = sym (ap (λ e. e.parent_id) here);
          generation = sym (ap (λ e. e.parent_generation) here);
        },
      ))
      (λ d r off live_d child_d b. (rw here j.child, rw here refl))
      (λ m live_m. joined-counted c k p q m l j live_m)

-- What a found object is, seen from its entry.
pub record IsFound (t : ObjectTable) (p i : ℕ) (e : ObjectMetadata) : Type 0 where
  pub entry : view t.blocks i ≡ e
  pub live : (view t.blocks i).active ≡ true
  pub found : metadata_at t.blocks i ≡ some e
  pub owned : IsOwned t i p

pub find_locked-IsFound :
    {t : ObjectTable} {p i : ℕ} {e : ObjectMetadata}
    → IsLinked t
    → find_locked t p ≡ some (i, e)
    → IsFound t p i e
find_locked-IsFound {t} {p} {i} {e} l z =
    let n = find_locked-IsNamed {t = t} {p = p} {i = i} {e = e} z in
    let same = view-metadata_at t.blocks i e n.found in
    let live = ap (λ x. x.active) same ∙ n.passes in
    record {
      entry = same;
      live = live;
      found = n.found;
      owned = IsOwned-flags i p l live (ap (λ x. x.object) same ∙ n.describes_it);
    }

pub attach-IsLinked : (t : ObjectTable) (p q : ℕ) → IsLinked t → IsLinked (attach t p q).1
unfolding attach
attach-IsLinked t p q l = elim (ℕ_discrete p q) [
  | yes same ↦ let e : (attach t p q).1 ≡ t = ground arith in subst IsLinked (sym e) l
  | no ne ↦ elim (Option-cases (find_locked t p)) [
    | inl z ↦ let e : (attach t p q).1 ≡ t = ground arith in subst IsLinked (sym e) l
    | inr ((i, child), z) ↦ elim (Option-cases (find_locked t q)) [
      | inl y ↦ let e : (attach t p q).1 ≡ t = ground arith in subst IsLinked (sym e) l
      | inr ((k, parent), y) ↦
          let c = find_locked-IsFound {t = t} {p = p} {i = i} {e = child} l z in
          let o = find_locked-IsFound {t = t} {p = q} {i = k} {e = parent} l y in
          elim (ℕ_discrete child.parent_id invalid_id) [
            | no taken ↦ let e : (attach t p q).1 ≡ t = ground arith in subst IsLinked (sym e) l
            | yes alone ↦
                let e : (attach t p q).1 ≡ joined t i k q = ground arith in
                let apart : i ≢ k = λ x.
                  let same = subst (λ j. (view t.blocks j).object ≡ some p) x c.owned.object in
                  let two = sym same ∙ o.owned.object in ground arith in
                subst IsLinked (sym e) (
                  joined-IsLinked i k p q l (record {
                    apart = apart;
                    child = c.live;
                    child_object = c.owned;
                    alone = ap (λ x. x.parent_id) c.entry ∙ alone;
                    parent = o.live;
                    parent_object = o.owned;
                  }))
          ]
    ]
  ]
]

pub detach-IsLinked : (t : ObjectTable) (p : ℕ) → IsLinked t → IsLinked (detach t p).1
unfolding detach
detach-IsLinked t p l = elim (Option-cases (find_locked t p)) [
  | inl z ↦ let e : (detach t p).1 ≡ t = ground arith in subst IsLinked (sym e) l
  | inr ((i, child), z) ↦ elim (ℕ_discrete child.parent_id invalid_id) [
    | yes alone ↦ let e : (detach t p).1 ≡ t = ground arith in subst IsLinked (sym e) l
    | no taken ↦
        let c = find_locked-IsFound {t = t} {p = p} {i = i} {e = child} l z in
        let e : (detach t p).1 ≡ clear_parent_locked t i child = ground arith in
        let cleared =
          subst (λ x. IsCleared t (clear_parent_locked t i x) i) c.entry
            (clear_parent_locked-IsCleared i l c.live) in
        subst IsLinked (sym e) cleared.linked
  ]
]
