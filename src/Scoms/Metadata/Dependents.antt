-- ===== src/Scoms/Metadata/Dependents.antt =====
-- Changes that no link is about, and entries that nobody is a child of.
use zxfoundation.Base.{
  ℕ, suc, ◌+◌, ◌≡◌, ◌≢◌, inl, inr, refl, sym, subst, ◌∙◌, true, false, some, arith, ==_ne,
  ℕ_discrete, Bool-cases,
}
use zxfoundation.Base.Arrays.{update_ne}
use zxfoundation.Base.Sums.{total_zero, total-same}
use zxfoundation.Scoms.Kobject.{Heap}
use zxfoundation.Scoms.Metadata.{
  ObjectMetadata, ObjectTable, max_object_metadata, invalid_id, metadata_at, modify_at,
}
use zxfoundation.Scoms.Metadata.Ops.{set_flags}
use zxfoundation.Scoms.Metadata.Blocks.{view, view-modify_at, view-modify_at_ne}
use zxfoundation.Scoms.Metadata.Links.{
  counts_to, dependents, IsLinked, SameEntry, SameEntry-refl, SameHeader, SameHeader-refl,
  IsChangedAt, counts_to-SameEntry,
}
use zxfoundation.Scoms.Metadata.Changes.{IsAttached-kept, IsOwned-kept}

-- Entries and headers are the same, as far as links go.
pub IsLinked-same :
    {t t' : ObjectTable}
    → IsLinked t
    → ((c : ℕ) → IsChangedAt t t' c)
    → ((i : ℕ) → (view t'.blocks i).dependent_count ≡ (view t.blocks i).dependent_count)
    → IsLinked t'
unfolding dependents
IsLinked-same {t} {t'} l change count =
    let same : (i : ℕ) → SameEntry (view t.blocks i) (view t'.blocks i) =
      λ i. (change (suc i)).others i (λ e. omega (arith, e)) in
    record {
      owned = λ i live.
          let was = sym (same i).active ∙ live in
          let (p, o) = l.owned i was in
          (p, IsOwned-kept (suc i) i p (change (suc i)) (λ e. omega (arith, e)) was o);
      linked = λ d live child.
          let (k, q, a) = l.linked d (sym (same d).active ∙ live) (λ z. child ((same d).id ∙ z)) in
          (
            k,
            q,
            IsAttached-kept (suc d) d k q (change (suc d)) (λ e. omega (arith, e))
                (λ e. ((same k).active ∙ a.live, (same k).object)) a,
          );
      counted = λ k live.
          count k
          ∙ l.counted k (sym (same k).active ∙ live)
          ∙ total-same (λ i. counts_to (view t.blocks i) k) (λ i. counts_to (view t'.blocks i) k)
              max_object_metadata
              (λ i below. counts_to-SameEntry (view t.blocks i) (view t'.blocks i) k (same i));
    }

-- An assignment that no link is about.
pub edited-IsLinked :
    {t : ObjectTable} (i : ℕ) (f : ObjectMetadata → ObjectMetadata) (e : ObjectMetadata)
    → IsLinked t
    → metadata_at t.blocks i ≡ some e
    → ((x : ObjectMetadata) → SameEntry x (f x) × ((f x).dependent_count ≡ x.dependent_count))
    → IsLinked (record t { blocks = modify_at t.blocks i f })
edited-IsLinked {t} i f e l found keeps =
    let after : (j : ℕ)
        → SameEntry (view t.blocks j) (view (modify_at t.blocks i f) j)
          × ((view (modify_at t.blocks i f) j).dependent_count
              ≡ (view t.blocks j).dependent_count) =
      λ j. elim (ℕ_discrete i j) [
        | yes z ↦
            subst
              (λ x.
                SameEntry (view t.blocks x) (view (modify_at t.blocks i f) x)
                × ((view (modify_at t.blocks i f) x).dependent_count
                    ≡ (view t.blocks x).dependent_count))
              z (rw (view-modify_at t.blocks i f e found) (keeps (view t.blocks i)))
        | no ne ↦ rw (view-modify_at_ne t.blocks i j f ne) (SameEntry-refl (view t.blocks j), refl)
      ] in
    IsLinked-same l
      (λ c. record {
        others = λ j ne. (after j).0;
        headers = λ j p live o. SameHeader-refl (t.heap p);
      })
      (λ j. (after j).1)

-- Nobody is the child of an entry that is not in use.
pub dependents_none :
    {t : ObjectTable} (i : ℕ)
    → IsLinked t
    → (view t.blocks i).active ≡ false
    → dependents t.blocks i ≡ 0
unfolding dependents counts_to
dependents_none {t} i l idle =
    total_zero (λ j. counts_to (view t.blocks j) i) max_object_metadata
      (λ j below. elim (Bool-cases (view t.blocks j).active) [
        | inr off ↦ ground arith
        | inl on ↦ elim (ℕ_discrete (view t.blocks j).parent_id invalid_id) [
          | yes e ↦ ground arith
          | no child ↦
              let (k, q, a) = l.linked j on child in
              let ne : k ≢ i = λ e.
                let live = subst (λ x. (view t.blocks x).active ≡ true) e a.live in ground arith in
              let slot = a.slot in
              let other = ==_ne (k + 1) (i + 1) (λ e. ne (omega (arith, e))) in ground arith
        ]
      ])

-- A registered object does not change its header, where another one's flags do.
pub set_flags-SameHeader :
    (h : Heap) (p flags q : ℕ) → p ≢ q → SameHeader (h q) (set_flags h p flags q)
set_flags-SameHeader h p flags q ne =
    rw (update_ne h p q (record (h p) { object_flags = flags }) ne) (SameHeader-refl (h q))

pub set_flags-id : (h : Heap) (p flags q : ℕ) → (set_flags h p flags q).id ≡ (h q).id
set_flags-id h p flags q = ground arith
