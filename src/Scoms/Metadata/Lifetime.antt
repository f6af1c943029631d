-- ===== src/Scoms/Metadata/Lifetime.antt =====
-- One object from its registration to the reuse of its entry.
use zxfoundation.Base.{
  ℕ, ◌+◌, ◌<◌, ◌≡◌, ◌≢◌, refl, sym, ap, subst, ◌∙◌, Bool, true, false, none, some, arith,
  Option-cases, ok, inl, inr,
}
use zxfoundation.Base.Arrays.{update_self, update_ne}
use zxfoundation.Scoms.Kobject.{none_type}
use zxfoundation.Scoms.Metadata.{
  ObjectMetadata, ObjectTable, invalid_id, max_object_metadata, blank, find_locked, retired_locked,
  metadata_at, modify_at,
}
use zxfoundation.Scoms.Metadata.Ops.{register_object, metadata, registered, set_flags, find_free}
use zxfoundation.Scoms.Metadata.Blocks.{
  view, view-metadata_at, metadata_at-view, modify_at-same, view-modify_at_ne, find_locked-IsNamed,
  find_locked_of, find_free-IsFree, find_free-view,
}

-- The entry `i` describes `p`, and all that was found before in other entries is still there.
record IsEntered (t t' : ObjectTable) (p i : ℕ) (entry : ObjectMetadata) : Type 0 where
  given : metadata_at t'.blocks i ≡ some entry
  flags : (t'.heap p).object_flags ≡ i + 1
  below : i < max_object_metadata
  live : entry.active ≡ true
  object : entry.object ≡ some p
  idle : (view t.blocks i).active ≡ false
  others : (j : ℕ) → i ≢ j → view t'.blocks j ≡ view t.blocks j
  headers : (q : ℕ) → p ≢ q → (t'.heap q).object_flags ≡ (t.heap q).object_flags

IsEntered-find_locked :
    {t t' : ObjectTable} {p i : ℕ} {entry : ObjectMetadata} (q : ℕ)
    → IsEntered t t' p i entry
    → p ≢ q
    → find_locked t' q ≡ find_locked t q
IsEntered-find_locked {t} {t'} {p} {i} {entry} q n ne = elim (Option-cases (find_locked t q)) [
  | inr ((j, e), z) ↦
      let m = find_locked-IsNamed {t = t} {p = q} {i = j} {e = e} z in
      let same = view-metadata_at t.blocks j e m.found in
      let live = ap (λ x. x.active) same ∙ m.passes in
      let off : i ≢ j =
        λ x. let idle = subst (λ k. (view t.blocks k).active ≡ false) x n.idle in ground arith in
      let kept = n.others j off ∙ same in
      find_locked_of {t = t'} {p = q} {i = j} {e = e} (record {
        flags = n.headers q ne ∙ m.flags;
        below = m.below;
        found = metadata_at-view t'.blocks j (ap (λ x. x.active) kept ∙ m.passes) ∙ ap some kept;
        passes = m.passes;
        describes_it = m.describes_it;
      })
      ∙ sym z
  | inl z ↦ elim (Option-cases (find_locked t' q)) [
    | inl y ↦ y ∙ sym z
    | inr ((j, e), y) ↦
        let m = find_locked-IsNamed {t = t'} {p = q} {i = j} {e = e} y in
        let off : i ≢ j = λ x.
          let here = subst (λ k. metadata_at t'.blocks k ≡ some entry) x n.given in
          let there = m.found in
          let it = n.object in let it' = m.describes_it in ne (ground arith) in
        let same = sym (n.others j off) ∙ view-metadata_at t'.blocks j e m.found in
        let found = find_locked_of {t = t} {p = q} {i = j} {e = e} (record {
          flags = sym (n.headers q ne) ∙ m.flags;
          below = m.below;
          found = metadata_at-view t.blocks j (ap (λ x. x.active) same ∙ m.passes) ∙ ap some same;
          passes = m.passes;
          describes_it = m.describes_it;
        }) in
        absurd (ground arith)
  ]
]

-- After a registration that succeeds the object is found with its owner, its earlier flags and no
-- parent, child or reclaimer, and what is found for every other object does not change.
pub register_object-metadata :
    (granted : ℕ → Bool) (t t' : ObjectTable) (p owner : ℕ)
    → register_object granted t p owner ≡ (ok tt, t')
    → (metadata t' p
        ≡ ok (record {
          object = some p;
          owner_domain = owner;
          parent_slot = 0;
          parent_type = none_type;
          parent_id = invalid_id;
          parent_generation = 0;
          object_flags = (t.heap p).object_flags;
          dependent_count = 0;
          hardware_generation = 0;
          reclaimer = none;
          active = true;
          reclaim_pending = false;
        }))
      × ((q : ℕ) → p ≢ q → metadata t' q ≡ metadata t q)
unfolding register_object metadata
register_object-metadata granted t t' p owner h = elim (Option-cases (find_locked t p)) [
  | inr (found, z) ↦ absurd (ground arith)
  | inl z ↦
      let search = find_free max_object_metadata 0 granted t.blocks in
      elim (Option-cases search.1) [
        | inl full ↦ absurd (ground arith)
        | inr (i, given) ↦
            let (free, below) =
              find_free-IsFree max_object_metadata 0 granted t.blocks search.0 i
                (λ j. (search.0, given j)) in
            let f = registered p owner (t.heap p).object_flags in
            let e : t'
                ≡ record { heap = set_flags t.heap p (i + 1); blocks = modify_at search.0 i f } =
              ground arith in
            let same = find_free-view max_object_metadata 0 granted t.blocks in
            let n : IsEntered t t' p i (f blank) =
              subst (λ x. IsEntered t x p i (f blank)) (sym e)
                (record {
                  given = modify_at-same search.0 i f free.entry free.found;
                  flags =
                      ap (λ o. o.object_flags)
                        (update_self t.heap p (record (t.heap p) { object_flags = i + 1 }));
                  below = below;
                  live = refl;
                  object = refl;
                  idle =
                      ap (λ x. x.active)
                        (sym (same i) ∙ view-metadata_at search.0 i free.entry free.found)
                      ∙ free.idle;
                  others = λ j ne. view-modify_at_ne search.0 i j f ne ∙ same j;
                  headers = λ q ne.
                      ap (λ o. o.object_flags)
                        (update_ne t.heap p q (record (t.heap p) { object_flags = i + 1 }) ne);
                }) in
            let found = find_locked_of {t = t'} {p = p} {i = i} {e = f blank} (record {
              flags = n.flags;
              below = n.below;
              found = n.given;
              passes = refl;
              describes_it = refl;
            }) in
            (ground arith, λ q ne. let kept = IsEntered-find_locked q n ne in ground arith)
      ]
]

retired_entry : ObjectMetadata → ObjectMetadata
retired_entry e = record e { active = false; reclaim_pending = true }

reclaimed_entry : ObjectMetadata → ObjectMetadata
reclaimed_entry e = record e { object = none; reclaimer = none; reclaim_pending = false }

-- The object of the entry `i` is out of use and still has its entry.
record IsRetired (t : ObjectTable) (p i r : ℕ) (e : ObjectMetadata) : Type 0 where
  gone : find_locked t p ≡ none
  kept : retired_locked t p ≡ some (i, e)
  off : e.active ≡ false
  reclaimer : e.reclaimer ≡ some r

-- An entry that a registration can take again.
pub record IsFreed (t : ObjectTable) (i : ℕ) : Type 0 where
  entry : ObjectMetadata
  there : metadata_at t.blocks i ≡ some entry
  off : entry.active ≡ false
  done_with : entry.reclaim_pending ≡ false
  object : entry.object ≡ none
