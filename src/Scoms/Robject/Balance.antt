-- ===== src/Scoms/Robject/Balance.antt =====
-- Handles and the reference counts that they stand for.
use zxfoundation.Base.{ℕ, ◌+◌, ◌<◌, ◌^◌, ◌≡◌, refl, Option, none, some, done, arith}
use zxfoundation.Scoms.Kobject.{LifecycleState, Heap, Finalizer, try_get_ref, try_get, transition}
use zxfoundation.Scoms.Kobject.Counting.{one_at, put-counts}
use zxfoundation.Scoms.Kobject.Lifecycle.{Edge, edge_of_may_enter}
use zxfoundation.Scoms.Robject.{
  Robject, take_pointer, construct, drop_pointer, copy_assign, convert,
}

-- The references that a handle stands for at each address.
abbrev pub points : Option ℕ → ℕ → ℕ
points none q = 0
points (some p) q = one_at p q

abbrev pub refs_of : {s : LifecycleState} → Robject s → ℕ → ℕ
refs_of r q = points r.ptr q

take_pointer-balance :
    {s : LifecycleState} (h : Heap) (p : Option ℕ) {r : Robject s} {h' : Heap}
    → take_pointer h p ≡ done (r, h')
    → (q : ℕ) → (h' q).count ≡ (h q).count + refs_of r q
unfolding take_pointer try_get try_get_ref
take_pointer-balance h none e q = ground arith
take_pointer-balance h (some p) e q = ground arith

-- Taking a reference by construction or copy: the new handle accounts for the whole change of the
-- counts, also when the object is already released and the handle comes out null.
construct-balance :
    (s : LifecycleState) (h : Heap) (p : Option ℕ) {r : Robject s} {h' : Heap}
    → construct s h p ≡ done (r, h')
    → (q : ℕ) → (h' q).count ≡ (h q).count + refs_of r q
unfolding construct
construct-balance s h p e = take_pointer-balance h p e

drop_pointer-counts :
    (f : Option Finalizer) (h : Heap) (p : Option ℕ)
    → ((q : ℕ) → p ≡ some q → (1 < (h q).count) × ((h q).count < 2 ^ 32))
    → (h' : Heap) × (drop_pointer f h p ≡ done h')
      × ((q : ℕ) → (h' q).count + points p q ≡ (h q).count)
unfolding drop_pointer
drop_pointer-counts f h none c = (h, refl, λ q. omega arith)
drop_pointer-counts f h (some p) c = put-counts f h p (c p refl).0 (c p refl).1

-- Copy assignment keeps the books: with others still holding the old object, what the counts lose
-- and gain is what the old and the new value of the handle stand for.
copy_assign-balance :
    {s : LifecycleState} (f : Option Finalizer) (h : Heap) (this other : Robject s) {r : Robject s}
    {h' : Heap}
    → ((q : ℕ) → this.ptr ≡ some q → (1 < (h q).count) × ((h q).count < 2 ^ 32))
    → copy_assign f h this other ≡ done (r, h')
    → (q : ℕ) → (h' q).count + refs_of this q ≡ (h q).count + refs_of r q
unfolding copy_assign
copy_assign-balance f h this other c e q =
    let (h1, dropped, counts) = drop_pointer-counts f h this.ptr c in
    omega (arith, counts q, take_pointer-balance h1 other.ptr (rw (dropped, copy_assign) at e) q)

module _ {s : LifecycleState} (t : LifecycleState) (h : Heap) (r : Robject s) {new : Robject t}
    {old : Robject s} {h' : Heap} (converted : convert t h r ≡ done (new, old, h')) where
  -- A conversion (`activate`, `seal`, `suspend`, `resume`, `begin_destroy`, `abort`) changes no
  -- count: the one reference ends in the new handle or stays in the old.
  pub convert-balance :
      (q : ℕ) → ((h' q).count ≡ (h q).count) × (refs_of new q + refs_of old q ≡ refs_of r q)
  unfolding convert transition
  convert-balance q = (ground arith, ground arith)

  -- A handle of the new type is non-null only after a move along an edge of the diagram, from the
  -- object's state to the one that the type names.
  pub convert-Edge : (p : ℕ) → new.ptr ≡ some p → Edge (h p).state t × ((h' p).state ≡ t)
  unfolding convert transition
  convert-Edge p at_p = (edge_of_may_enter (h p).state t (ground arith), ground arith)
