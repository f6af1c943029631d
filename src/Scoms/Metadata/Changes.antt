-- ===== src/Scoms/Metadata/Changes.antt =====
-- Links where one entry changes, and how many children every object then has.
use zxfoundation.Base.{
  ℕ, ◌+◌, ◌<◌, ◌≤◌, ◌≡◌, ◌≢◌, ◌⊎◌, sym, subst, ◌∙◌, true, false, arith, ℕ_discrete,
}
use zxfoundation.Base.Sums.{total-change, le-total, total_le}
use zxfoundation.Scoms.Metadata.{
  ObjectMetadata, MetadataBlocks, ObjectTable, max_object_metadata, invalid_id,
}
use zxfoundation.Scoms.Metadata.Blocks.{view}
use zxfoundation.Scoms.Metadata.Links.{
  counts_to, dependents, IsAttached, IsOwned, IsLinked, counts_to-SameEntry, IsChangedAt,
}

pub IsAttached-kept :
    {t t' : ObjectTable} (c d k q : ℕ)
    → IsChangedAt t t' c
    → c ≢ d
    → (c ≡ k
        → ((view t'.blocks k).active ≡ true)
          × ((view t'.blocks k).object ≡ (view t.blocks k).object))
    → IsAttached t d k q
    → IsAttached t' d k q
IsAttached-kept {t} {t'} c d k q change ne stays a =
    let child = change.others d ne in
    let header = change.headers k q a.live a.parent in
    let parent : ((view t'.blocks k).active ≡ true)
        × ((view t'.blocks k).object ≡ (view t.blocks k).object) =
      elim (ℕ_discrete c k) [
        | yes e ↦ stays e
        | no off ↦ let s = change.others k off in (s.active ∙ a.live, s.object)
      ] in
    record {
      slot = child.slot ∙ a.slot;
      apart = a.apart;
      live = parent.0;
      parent = parent.1 ∙ a.parent;
      type = header.type ∙ a.type ∙ sym child.type;
      id = header.id ∙ a.id ∙ sym child.id;
      generation = header.generation ∙ a.generation ∙ sym child.generation;
    }

pub IsOwned-kept :
    {t t' : ObjectTable} (c i p : ℕ)
    → IsChangedAt t t' c
    → c ≢ i
    → (view t.blocks i).active ≡ true
    → IsOwned t i p
    → IsOwned t' i p
IsOwned-kept {t} {t'} c i p change ne live o =
    let s = change.others i ne in
    let header = change.headers i p live o.object in
    record {
      object = s.object ∙ o.object;
      flags = header.flags ∙ o.flags;
      named = λ e. o.named (sym header.id ∙ e);
      below = o.below;
      kept = s.pending ∙ o.kept;
    }

-- What is left to show where only the entry `c` changes.
pub IsLinked-changed :
    {t t' : ObjectTable} (c : ℕ)
    → IsLinked t
    → IsChangedAt t t' c
    → ((view t'.blocks c).active ≡ true → (p : ℕ) × IsOwned t' c p)
    → ((view t'.blocks c).active ≡ true
        → (view t'.blocks c).parent_id ≢ invalid_id
        → (k : ℕ) × (q : ℕ) × IsAttached t' c k q)
    → ((d q : ℕ)
        → c ≢ d
        → (view t.blocks d).active ≡ true
        → (view t.blocks d).parent_id ≢ invalid_id
        → IsAttached t d c q
        → ((view t'.blocks c).active ≡ true)
          × ((view t'.blocks c).object ≡ (view t.blocks c).object))
    → ((k : ℕ)
        → (view t'.blocks k).active ≡ true
        → (view t'.blocks k).dependent_count ≡ dependents t'.blocks k)
    → IsLinked t'
IsLinked-changed {t} {t'} c l change owner link stays count = record {
  owned = λ i live. elim (ℕ_discrete c i) [
    | yes e ↦ subst (λ j. (p : ℕ) × IsOwned t' j p) e (owner (rw e live))
    | no ne ↦
        let was = sym (change.others i ne).active ∙ live in
        let (p, o) = l.owned i was in (p, IsOwned-kept c i p change ne was o)
  ];
  linked = λ d live child. elim (ℕ_discrete c d) [
    | yes e ↦
        subst (λ j. (k : ℕ) × (q : ℕ) × IsAttached t' j k q) e
          (link (rw e live) (λ z. child (rw (← e) z)))
    | no ne ↦
        let s = change.others d ne in
        let was = sym s.active ∙ live in
        let (k, q, a) = l.linked d was (λ z. child (s.id ∙ z)) in
        (
          k,
          q,
          IsAttached-kept c d k q change ne
              (λ e.
                subst
                  (λ j.
                    ((view t'.blocks j).active ≡ true)
                    × ((view t'.blocks j).object ≡ (view t.blocks j).object))
                  e
                  (stays d q ne was (λ z. child (s.id ∙ z))
                    (subst (λ j. IsAttached t d j q) (sym e) a)))
              a,
        )
  ];
  counted = count;
}

pub counts_to_le : (e : ObjectMetadata) (k : ℕ) → counts_to e k ≤ 1
unfolding counts_to
counts_to_le e k = ground arith

-- The children of every object, where only the entry `c` changes.
pub dependents-changed :
    {t t' : ObjectTable} (c k : ℕ)
    → IsChangedAt t t' c
    → c < max_object_metadata
    → dependents t'.blocks k + counts_to (view t.blocks c) k
      ≡ dependents t.blocks k + counts_to (view t'.blocks c) k
unfolding dependents
dependents-changed {t} {t'} c k change below =
    total-change (λ i. counts_to (view t.blocks i) k) (λ i. counts_to (view t'.blocks i) k) c
      max_object_metadata below
      (λ i ne. counts_to-SameEntry (view t.blocks i) (view t'.blocks i) k (change.others i ne))

pub counts_to-le-dependents :
    (b : MetadataBlocks) (c k : ℕ)
    → c < max_object_metadata
    → counts_to (view b c) k ≤ dependents b k
unfolding dependents
counts_to-le-dependents b c k below =
    le-total (λ i. counts_to (view b i) k) c max_object_metadata below

pub dependents_le : (b : MetadataBlocks) (k : ℕ) → dependents b k ≤ max_object_metadata
unfolding dependents
dependents_le b k =
    total_le (λ i. counts_to (view b i) k) max_object_metadata (λ i. counts_to_le (view b i) k)

-- A child counts for its parent alone.
pub counts_to-parent :
    {t : ObjectTable} (c k q m : ℕ)
    → (view t.blocks c).active ≡ true
    → (view t.blocks c).parent_id ≢ invalid_id
    → IsAttached t c k q
    → (counts_to (view t.blocks c) k ≡ 1) × (k ≢ m → counts_to (view t.blocks c) m ≡ 0)
unfolding counts_to
counts_to-parent {t} c k q m live child a = (ground (arith, a.slot), λ ne. ground (arith, a.slot))

pub counts_to_none :
    (e : ObjectMetadata) (k : ℕ)
    → (e.active ≡ false) ⊎ (e.parent_id ≡ invalid_id)
    → counts_to e k ≡ 0
unfolding counts_to
counts_to_none e k h = ground arith

-- An object without children is nobody's parent.
pub IsAttached-dependents :
    {t : ObjectTable} (c k q : ℕ)
    → IsLinked t
    → (view t.blocks c).active ≡ true
    → (view t.blocks c).parent_id ≢ invalid_id
    → IsAttached t c k q
    → 1 ≤ (view t.blocks k).dependent_count
IsAttached-dependents {t} c k q l live child a =
    let (p, o) = l.owned c live in
    let one = (counts_to-parent c k q 0 live child a).0 in
    omega (arith, l.counted k a.live, counts_to-le-dependents t.blocks c k o.below, one)
