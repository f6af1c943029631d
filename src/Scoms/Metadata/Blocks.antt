-- ===== src/Scoms/Metadata/Blocks.antt =====
-- The allocated blocks as one array of entries, blank where no block is.
use zxfoundation.Base.{
  ℕ, zero, suc, ◌+◌, ◌-◌, ◌/◌, ◌%◌, ◌<◌, ◌≡◌, ◌≢◌, inl, inr, refl, ap, ◌∙◌, Bool, true, false, ◌&&◌,
  ◌||◌, Option, none, some, arith, ==_refl, ==_iff, Bool-cases, Option-cases, ℕ_discrete,
}
use zxfoundation.Scoms.Metadata.{
  ObjectMetadata, MetadataBlocks, ObjectTable, blank, metadata_at, create_block, modify_at,
  describes, named_entry, find_locked, retired_locked, max_object_metadata, metadata_block_size,
}
use zxfoundation.Scoms.Metadata.Ops.{find_free}

entry_or_blank : Option ObjectMetadata → ObjectMetadata
entry_or_blank none = blank
entry_or_blank (some e) = e

unfoldable pub view : MetadataBlocks → ℕ → ObjectMetadata
unfolding entry_or_blank
view b i = entry_or_blank (metadata_at b i)

pub view-metadata_at :
    (b : MetadataBlocks) (i : ℕ) (e : ObjectMetadata) → metadata_at b i ≡ some e → view b i ≡ e
unfolding view
view-metadata_at b i e h = rw h

pub metadata_at-view :
    (b : MetadataBlocks) (i : ℕ) → (view b i).active ≡ true → metadata_at b i ≡ some (view b i)
unfolding view
metadata_at-view b i h = elim (Option-cases (metadata_at b i)) [
  | inl z ↦ absurd (ground arith)
  | inr (e, z) ↦ ground arith
]

pub modify_at-same :
    (b : MetadataBlocks) (i : ℕ) (f : ObjectMetadata → ObjectMetadata) (e : ObjectMetadata)
    → metadata_at b i ≡ some e
    → metadata_at (modify_at b i f) i ≡ some (f e)
unfolding metadata_at modify_at
modify_at-same b i f e h = elim (Option-cases (b (i / metadata_block_size))) [
  | inl z ↦ absurd (ground arith)
  | inr (block, z) ↦ ground arith
]

pub modify_at-ne :
    (b : MetadataBlocks) (i j : ℕ) (f : ObjectMetadata → ObjectMetadata)
    → i ≢ j
    → metadata_at (modify_at b i f) j ≡ metadata_at b j
unfolding metadata_at modify_at
modify_at-ne b i j f ne = elim (Option-cases (b (i / metadata_block_size))) [
  | inl z ↦ ground arith
  | inr (block, z) ↦ elim (ℕ_discrete (i / metadata_block_size) (j / metadata_block_size)) [
    | yes same ↦
        let apart : i % metadata_block_size ≢ j % metadata_block_size =
          λ e. ne (omega (arith, same, e)) in
        ground arith
    | no other ↦ ground arith
  ]
]

pub view-modify_at :
    (b : MetadataBlocks) (i : ℕ) (f : ObjectMetadata → ObjectMetadata) (e : ObjectMetadata)
    → metadata_at b i ≡ some e
    → view (modify_at b i f) i ≡ f (view b i)
unfolding view
view-modify_at b i f e h = rw (modify_at-same b i f e h, h)

pub view-modify_at_ne :
    (b : MetadataBlocks) (i j : ℕ) (f : ObjectMetadata → ObjectMetadata)
    → i ≢ j
    → view (modify_at b i f) j ≡ view b j
unfolding view
view-modify_at_ne b i j f ne = rw (modify_at-ne b i j f ne)

view-create_block :
    (granted : Bool) (b : MetadataBlocks) (i j : ℕ) → view (create_block granted b i) j ≡ view b j
unfolding view metadata_at create_block
view-create_block granted b i j = elim (Option-cases (b (i / metadata_block_size))) [
  | inr (block, z) ↦ ground arith
  | inl z ↦ elim (ℕ_discrete (i / metadata_block_size) (j / metadata_block_size)) [
    | yes same ↦ elim (Bool-cases granted) [ inl g ↦ ground arith | inr g ↦ ground arith ]
    | no other ↦ ground arith
  ]
]

-- What `find_free` gives: an entry in use by nobody, and no entry changed.
pub record IsFree (b : MetadataBlocks) (i : ℕ) : Type 0 where
  pub entry : ObjectMetadata
  pub found : metadata_at b i ≡ some entry
  pub idle : entry.active ≡ false
  pub empty : entry.reclaim_pending ≡ false

pub find_free-IsFree :
    (n i : ℕ) (granted : ℕ → Bool) (b b' : MetadataBlocks) (k : ℕ)
    → find_free n i granted b ≡ (b', some k)
    → IsFree b' k × (k < i + n)
unfolding find_free
find_free-IsFree zero i granted b b' k h = absurd (ground arith)
find_free-IsFree (suc n) i granted b b' k h =
    let created = create_block (granted i) b i in
    elim (Option-cases (metadata_at created i)) [
      | inl z ↦
          let (free, below) = find_free-IsFree n (i + 1) granted created b' k (ground arith) in
          (free, omega (arith, below))
      | inr (e, z) ↦ elim (Bool-cases (e.active || e.reclaim_pending)) [
        | inl used ↦
            let (free, below) = find_free-IsFree n (i + 1) granted created b' k (ground arith) in
            (free, omega (arith, below))
        | inr unused ↦
            let blocks : b' ≡ created = ground arith in
            let index : k ≡ i = ground arith in
            (
              record {
                entry = e;
                found = rw (blocks, index) z;
                idle = ground arith;
                empty = ground arith;
              },
              omega (arith, index),
            )
      ]
    ]

pub find_free-view :
    (n i : ℕ) (granted : ℕ → Bool) (b : MetadataBlocks) (j : ℕ)
    → view (find_free n i granted b).0 j ≡ view b j
unfolding find_free
find_free-view zero i granted b j = refl
find_free-view (suc n) i granted b j =
    let created = create_block (granted i) b i in
    let same = view-create_block (granted i) b i j in
    let rest = find_free-view n (i + 1) granted created j in
    elim (Option-cases (metadata_at created i)) [
      | inl z ↦ ground arith
      | inr (e, z) ↦ elim (Bool-cases (e.active || e.reclaim_pending)) [
        | inl used ↦ ground arith
        | inr unused ↦ ground arith
      ]
    ]

-- That the flags of an object name an entry, which passes the test and describes the object.
pub record IsNamed (test : ObjectMetadata → Bool) (t : ObjectTable) (p i : ℕ) (e : ObjectMetadata)
    : Type 0 where
  pub flags : (t.heap p).object_flags ≡ i + 1
  pub below : i < max_object_metadata
  pub found : metadata_at t.blocks i ≡ some e
  pub passes : test e ≡ true
  pub describes_it : e.object ≡ some p

describes-some : (o : Option ℕ) (p : ℕ) → describes o p ≡ true → o ≡ some p
unfolding describes
describes-some none p h = absurd (ground arith)
describes-some (some q) p h = ap some ((==_iff q p).0 h)

named_entry-IsNamed :
    (test : ObjectMetadata → Bool) (t : ObjectTable) (p i : ℕ) (e : ObjectMetadata)
    → named_entry test t p ≡ some (i, e)
    → IsNamed test t p i e
unfolding named_entry
named_entry-IsNamed test t p i e h =
    let flags = (t.heap p).object_flags in
    elim (Option-cases (metadata_at t.blocks (flags - 1))) [
      | inl z ↦ absurd (ground arith)
      | inr (entry, z) ↦
          let index : flags - 1 ≡ i = ground arith in
          let same : entry ≡ e = ground arith in
          let both : (test entry && describes entry.object p) ≡ true = ground arith in
          record {
            flags = ground arith;
            below = ground arith;
            found = rw (← index, ← same) z;
            passes = rw (← same) (ground arith);
            describes_it = rw (← same) (describes-some entry.object p (ground arith));
          }
    ]

named_entry_of :
    (test : ObjectMetadata → Bool) (t : ObjectTable) (p i : ℕ) (e : ObjectMetadata)
    → IsNamed test t p i e
    → named_entry test t p ≡ some (i, e)
unfolding named_entry describes
named_entry_of test t p i e n =
    let flags = n.flags in
    let index : i + 1 - 1 ≡ i = omega arith in
    let at = n.found in
    let it = ap (λ o. describes o p) n.describes_it ∙ ==_refl p in
    let passed : (test e && describes e.object p) ≡ true =
      ap (λ b. b && describes e.object p) n.passes ∙ it in
    rw (flags, index, at, passed) (ground (arith, n.below))

pub find_locked-IsNamed :
    {t : ObjectTable} {p i : ℕ} {e : ObjectMetadata}
    → find_locked t p ≡ some (i, e)
    → IsNamed (λ x. x.active) t p i e
unfolding find_locked
find_locked-IsNamed {t} {p} {i} {e} h = named_entry-IsNamed (λ x. x.active) t p i e h

pub find_locked_of :
    {t : ObjectTable} {p i : ℕ} {e : ObjectMetadata}
    → IsNamed (λ x. x.active) t p i e
    → find_locked t p ≡ some (i, e)
unfolding find_locked
find_locked_of {t} {p} {i} {e} n = named_entry_of (λ x. x.active) t p i e n

pub retired_locked-IsNamed :
    {t : ObjectTable} {p i : ℕ} {e : ObjectMetadata}
    → retired_locked t p ≡ some (i, e)
    → IsNamed (λ x. x.reclaim_pending) t p i e
unfolding retired_locked
retired_locked-IsNamed {t} {p} {i} {e} h = named_entry-IsNamed (λ x. x.reclaim_pending) t p i e h

pub retired_locked_of :
    {t : ObjectTable} {p i : ℕ} {e : ObjectMetadata}
    → IsNamed (λ x. x.reclaim_pending) t p i e
    → retired_locked t p ≡ some (i, e)
unfolding retired_locked
retired_locked_of {t} {p} {i} {e} n = named_entry_of (λ x. x.reclaim_pending) t p i e n
