-- ===== src/Scoms/Metadata/Links.antt =====
-- What the metadata of all objects keep together: an active entry and its object name each other, a
-- child's parent is registered, and every parent counts its children.
use zxfoundation.Base.{
  ℕ, ◌+◌, ◌<◌, ◌≡◌, ◌≢◌, refl, true, false, not, ◌&&◌, some, arith, if◌then◌else◌, ◌==◌,
}
use zxfoundation.Base.Sums.{total}
use zxfoundation.Scoms.Kobject.{Bobject}
use zxfoundation.Scoms.Metadata.{
  ObjectMetadata, MetadataBlocks, ObjectTable, max_object_metadata, invalid_id,
}
use zxfoundation.Scoms.Metadata.Blocks.{view}

-- One, if the entry is that of a child of the object whose entry is `k`.
unfoldable pub counts_to : ObjectMetadata → ℕ → ℕ
counts_to e k =
    if e.active && not (e.parent_id == invalid_id) && (e.parent_slot == k + 1) then 1 else 0

-- How many children the object with entry `k` has.
unfoldable pub dependents : MetadataBlocks → ℕ → ℕ
dependents b k = total (λ i. counts_to (view b i) k) max_object_metadata

-- The child with entry `c` has the object `q`, of entry `k`, as its parent.
pub record IsAttached (t : ObjectTable) (c k q : ℕ) : Type 0 where
  pub slot : (view t.blocks c).parent_slot ≡ k + 1
  pub apart : c ≢ k
  pub live : (view t.blocks k).active ≡ true
  pub parent : (view t.blocks k).object ≡ some q
  pub type : (t.heap q).type ≡ (view t.blocks c).parent_type
  pub id : (t.heap q).id ≡ (view t.blocks c).parent_id
  pub generation : (t.heap q).generation ≡ (view t.blocks c).parent_generation

pub record IsOwned (t : ObjectTable) (i p : ℕ) : Type 0 where
  pub object : (view t.blocks i).object ≡ some p
  pub flags : (t.heap p).object_flags ≡ i + 1
  pub below : i < max_object_metadata
  pub kept : (view t.blocks i).reclaim_pending ≡ false
  pub named : (t.heap p).id ≢ invalid_id

pub record IsLinked (t : ObjectTable) : Type 0 where
  pub owned : (i : ℕ) → (view t.blocks i).active ≡ true → (p : ℕ) × IsOwned t i p
  pub linked :
      (c : ℕ)
      → (view t.blocks c).active ≡ true
      → (view t.blocks c).parent_id ≢ invalid_id
      → (k : ℕ) × (q : ℕ) × IsAttached t c k q
  pub counted :
      (k : ℕ)
      → (view t.blocks k).active ≡ true
      → (view t.blocks k).dependent_count ≡ dependents t.blocks k

-- The parts of an entry that links are about, its count aside.
pub record SameEntry (e e' : ObjectMetadata) : Type 0 where
  pub active : e'.active ≡ e.active
  pub object : e'.object ≡ e.object
  pub pending : e'.reclaim_pending ≡ e.reclaim_pending
  pub slot : e'.parent_slot ≡ e.parent_slot
  pub type : e'.parent_type ≡ e.parent_type
  pub id : e'.parent_id ≡ e.parent_id
  pub generation : e'.parent_generation ≡ e.parent_generation

-- The parts of a header that entries refer to.
pub record SameHeader (o o' : Bobject) : Type 0 where
  pub flags : o'.object_flags ≡ o.object_flags
  pub type : o'.type ≡ o.type
  pub id : o'.id ≡ o.id
  pub generation : o'.generation ≡ o.generation

pub SameHeader-refl : (o : Bobject) → SameHeader o o
SameHeader-refl o = record { flags = refl; type = refl; id = refl; generation = refl }

pub SameEntry-refl : (e : ObjectMetadata) → SameEntry e e
SameEntry-refl e = record {
  active = refl;
  object = refl;
  pending = refl;
  slot = refl;
  type = refl;
  id = refl;
  generation = refl;
}

pub counts_to-SameEntry :
    (e e' : ObjectMetadata) (k : ℕ) → SameEntry e e' → counts_to e k ≡ counts_to e' k
unfolding counts_to
counts_to-SameEntry e e' k s = ground (arith, s.active, s.slot, s.id)

-- Nothing but the entry `c` and counts of children change, and no header of a registered object.
pub record IsChangedAt (t t' : ObjectTable) (c : ℕ) : Type 0 where
  pub others : (i : ℕ) → c ≢ i → SameEntry (view t.blocks i) (view t'.blocks i)
  pub headers :
      (i p : ℕ)
      → (view t.blocks i).active ≡ true
      → (view t.blocks i).object ≡ some p
      → SameHeader (t.heap p) (t'.heap p)
