-- ===== src/Scoms/Metadata/History.antt =====
-- The metadata over time: calls of the component in any order, and in between whatever the rest of
-- the kernel does to headers that are not registered, or to the counts and states of those that are.
use zxfoundation.Base.{
  ℕ, ◌≡◌, ◌≢◌, refl, Bool, true, Option, none, some, arith, Outcome, done, fault, Outcome-cases,
  inl, inr,
}
use zxfoundation.Scoms.Kobject.{Heap}
use zxfoundation.Scoms.Metadata.{ObjectTable, invalid_id, find_locked, metadata_at}
use zxfoundation.Scoms.Metadata.Ops.{
  register_object, unregister_object, set_reclaimer, complete_reclaim, set_owner, attach, detach,
  bump_hardware_generation,
}
use zxfoundation.Scoms.Metadata.Blocks.{view, metadata_at-view, find_locked_of}
use zxfoundation.Scoms.Metadata.Links.{IsLinked, SameHeader, SameEntry-refl}
use zxfoundation.Scoms.Metadata.Dependents.{IsLinked-same}
use zxfoundation.Scoms.Metadata.Registering.{register_object-IsLinked, IsOwned-flags}
use zxfoundation.Scoms.Metadata.Reclaiming.{unregister_object-IsLinked, complete_reclaim-IsLinked}
use zxfoundation.Scoms.Metadata.Attaching.{attach-IsLinked, detach-IsLinked}
use zxfoundation.Scoms.Metadata.Edits.{
  set_owner-IsLinked, set_reclaimer-IsLinked, bump_hardware_generation-IsLinked,
}

pub data Call : Type 0 where
  registers : (ℕ → Bool) → ℕ → ℕ → Call
  unregisters reclaims detaches bumps : ℕ → Call
  sets_owner attaches : ℕ → ℕ → Call
  sets_reclaimer : ℕ → Option ℕ → Call

-- The table that a call leaves; a trap changes nothing more.
after_reclaim : ObjectTable → Outcome ObjectTable → ObjectTable
after_reclaim t (done t') = t'
after_reclaim t fault = t

unfoldable pub perform : ObjectTable → Call → ObjectTable
unfolding after_reclaim
perform t (registers granted p owner) = (register_object granted t p owner).1
perform t (unregisters p) = (unregister_object t p).1
perform t (reclaims p) = after_reclaim t (complete_reclaim t p)
perform t (detaches p) = (detach t p).1
perform t (bumps p) = (bump_hardware_generation t p).1
perform t (sets_owner p owner) = (set_owner t p owner).1
perform t (attaches child parent) = (attach t child parent).1
perform t (sets_reclaimer p r) = (set_reclaimer t p r).1

-- An object is registered once it has an ID. A table gives it one before it registers it.
unfoldable pub MayCall : ObjectTable → Call → Type 0
MayCall t (registers granted p owner) = (t.heap p).id ≢ invalid_id
MayCall t (unregisters p) = Unit
MayCall t (reclaims p) = Unit
MayCall t (detaches p) = Unit
MayCall t (bumps p) = Unit
MayCall t (sets_owner p owner) = Unit
MayCall t (attaches child parent) = Unit
MayCall t (sets_reclaimer p r) = Unit

-- `others` is a step of other code: a registered object keeps its type, ID and generation, and its
-- flags; what becomes of the other headers is free.
pub data Step : ObjectTable → ObjectTable → Type 0 where
  calls : {t : ObjectTable} (c : Call) → MayCall t c → Step t (perform t c)
  others :
      {t : ObjectTable} (h : Heap)
      → ((p : ℕ) → find_locked t p ≢ none → SameHeader (t.heap p) (h p))
      → Step t (record t { heap = h })

pub data Reach (t : ObjectTable) : ObjectTable → Type 0 where
  start : Reach t t
  next : {u v : ObjectTable} → Reach t u → Step u v → Reach t v

perform-IsLinked : (t : ObjectTable) (c : Call) → MayCall t c → IsLinked t → IsLinked (perform t c)
unfolding perform MayCall
perform-IsLinked t (registers granted p owner) m l = register_object-IsLinked granted t p owner l m
perform-IsLinked t (unregisters p) m l = unregister_object-IsLinked t p l
perform-IsLinked t (reclaims p) m l = elim (Outcome-cases (complete_reclaim t p)) [
  | inl z ↦ rw z l
  | inr (t', z) ↦ rw z (complete_reclaim-IsLinked t t' p l z)
]
perform-IsLinked t (detaches p) m l = detach-IsLinked t p l
perform-IsLinked t (bumps p) m l = bump_hardware_generation-IsLinked t p l
perform-IsLinked t (sets_owner p owner) m l = set_owner-IsLinked t p owner l
perform-IsLinked t (attaches child parent) m l = attach-IsLinked t child parent l
perform-IsLinked t (sets_reclaimer p r) m l = set_reclaimer-IsLinked t p r l

-- An entry in use is found through its object.
owned-find_locked :
    {t : ObjectTable} (i p : ℕ)
    → IsLinked t
    → (view t.blocks i).active ≡ true
    → (view t.blocks i).object ≡ some p
    → find_locked t p ≡ some (i, view t.blocks i)
owned-find_locked {t} i p l live object =
    let o = IsOwned-flags i p l live object in
    find_locked_of {t = t} {p = p} {i = i} {e = view t.blocks i} (record {
      flags = o.flags;
      below = o.below;
      found = metadata_at-view t.blocks i live;
      passes = live;
      describes_it = object;
    })

Step-IsLinked : {t t' : ObjectTable} → Step t t' → IsLinked t → IsLinked t'
Step-IsLinked (calls {t} c m) l = perform-IsLinked t c m l
Step-IsLinked (others {t} h same) l =
    IsLinked-same l
      (λ c. record {
        others = λ i ne. SameEntry-refl (view t.blocks i);
        headers =
            λ i p live o. same p (λ z. let found = owned-find_locked i p l live o in ground arith);
      })
      (λ i. refl)

pub Reach-IsLinked : {t t' : ObjectTable} → IsLinked t → Reach t t' → IsLinked t'
Reach-IsLinked l start = l
Reach-IsLinked l (next r s) = Step-IsLinked s (Reach-IsLinked l r)

-- Before the first registration.
abbrev pub no_metadata : Heap → ObjectTable
no_metadata h = record { heap = h; blocks = λ i. none }

pub no_metadata-IsLinked : (h : Heap) → IsLinked (no_metadata h)
unfolding view metadata_at
no_metadata-IsLinked h = record {
  owned = λ i live. absurd (ground arith);
  linked = λ i live child. absurd (ground arith);
  counted = λ i live. absurd (ground arith);
}
