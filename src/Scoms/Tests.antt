-- ===== src/Scoms/Tests.antt =====
-- Runs of the object model and instances of its theorems.
use zxfoundation.Base.{
  ℕ, ◌≡◌, refl, ◌↔◌, true, false, none, some, done, fault, arith, if◌then◌else◌,
}
use zxfoundation.Base.Arrays.{update}
use zxfoundation.Scoms.Kobject.{
  sealed, active, suspended, dying, domain, Bobject, Heap, Finalizer, try_get_ref, transition,
  try_get, put, initialize, is_one,
}
use zxfoundation.Scoms.Kobject.Lifecycle.{Edge, transition-Edge}
use zxfoundation.Scoms.Kobject.Counting.{Confined}
use zxfoundation.Scoms.Robject.{Robject, construct, copy_assign, convert}

abbrev live_object : Bobject
live_object = record {
  id = 7;
  type = domain;
  state = active;
  count = 2;
  generation = 3;
  object_flags = 0;
}

abbrev objects : Heap
objects p = live_object

-- A finalizer that clears the count of the reclaimed header.
abbrev reclaim : Finalizer
reclaim h p = done (update h p (record (h p) { count = 0 }))

reclaim-Confined : Confined (some reclaim)
reclaim-Confined h p h' e = (λ q ne. ground arith, ground arith)

sealed_is_not_dying : (transition (record live_object { state = sealed }) dying).0 ≡ false
unfolding transition
sealed_is_not_dying = refl

saturated : try_get_ref 0x7fff_fffe ≡ fault
unfolding try_get_ref
saturated = refl

released : try_get_ref 0 ≡ done (false, 0)
unfolding try_get_ref
released = refl

fresh_is_one : is_one (initialize live_object 9 domain).count ≡ true
unfolding is_one initialize
fresh_is_one = refl

transition-Edge_example :
    (((transition live_object suspended).0 ≡ true) ↔ Edge active suspended)
    × ((transition live_object suspended).1 ≡ (
        if (transition live_object suspended).0
        then record live_object { state = suspended }
        else live_object))
transition-Edge_example = transition-Edge live_object suspended

taken_heap : Heap
taken_heap = update objects 4 (record live_object { count = 3 })

try_get-objects : try_get objects 4 ≡ done (true, taken_heap)
unfolding try_get taken_heap
try_get-objects = refl

dropped_heap : Heap
dropped_heap = update objects 4 (record live_object { count = 1 })

put-objects : put (some reclaim) objects 4 ≡ done dropped_heap
unfolding put dropped_heap
put-objects = refl

abbrev handle : ℕ → Robject active
handle p = record { ptr = some p }

construct-objects : construct active objects (some 4) ≡ done (handle 4, taken_heap)
unfolding construct try_get taken_heap
construct-objects = refl

abbrev moved_heap : Heap
moved_heap =
    update (update objects 4 (record live_object { count = 1 })) 5
      (record live_object { count = 3 })

copy_assign-objects :
    copy_assign (some reclaim) objects (handle 4) (handle 5) ≡ done (handle 5, moved_heap)
unfolding copy_assign try_get put
copy_assign-objects = refl

abbrev suspended_heap : Heap
suspended_heap = update objects 4 (record live_object { state = suspended })

abbrev suspended_handle : Robject suspended
suspended_handle = record { ptr = some 4 }

convert-objects :
    convert suspended objects (handle 4)
    ≡ done (suspended_handle, record { ptr = none }, suspended_heap)
unfolding convert transition
convert-objects = refl
