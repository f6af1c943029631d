-- ===== src/Scoms/Robject.antt =====
-- `robject<T, State>` of zxfoundation/scoms/kobject.zcomponent/ref.cxxm: a counted handle whose
-- type names the state that the object is meant to be in. A null handle is `none`; a member call
-- through a null handle is a fault.
pub mod Balance
use zxfoundation.Base.{
  ℕ, ◌-◌, ◌^◌, Bool, true, false, Option, none, some, Outcome, done, fault, ◌>>=◌, if◌then◌else◌,
  ◌≡◌, ◌⊎◌,
}
use zxfoundation.Base.Arrays.{update}
use zxfoundation.Scoms.Kobject.{
  LifecycleState, embryo, sealed, active, suspended, dying, destroyed, Heap, Finalizer, try_get,
  put, transition,
}

pub record Robject (s : LifecycleState) : Type 0 where
  pub ptr : Option ℕ

abbrev pub null : {s : LifecycleState} → Robject s
null = record { ptr = none }

-- `ptr_ && !ptr_->ko.try_get()` leaves the handle null.
take_pointer : {s : LifecycleState} → Heap → Option ℕ → Outcome (Robject s × Heap)
take_pointer h none = done (null, h)
take_pointer h (some p) = do
  (got, h') ← try_get h p
  done (if got then record { ptr = some p } else null, h')

-- `robject(T*)` and `acquire`, and the copy constructor on the other handle's pointer.
unfoldable pub construct : (s : LifecycleState) → Heap → Option ℕ → Outcome (Robject s × Heap)
unfolding take_pointer
construct s h p = take_pointer h p

-- `if (ptr_) ptr_->ko.put()`
drop_pointer : Option Finalizer → Heap → Option ℕ → Outcome Heap
drop_pointer f h none = done h
drop_pointer f h (some p) = put f h p

-- `~robject`
unfoldable pub destruct : {s : LifecycleState} → Option Finalizer → Heap → Robject s → Outcome Heap
unfolding drop_pointer
destruct f h r = drop_pointer f h r.ptr

-- The move constructor: the new handle, and what is left of the other.
unfoldable pub move : {s : LifecycleState} → Robject s → Robject s × Robject s
move other = (other, null)

-- Move assignment between two distinct handles; on itself it does nothing.
unfoldable pub move_assign :
    {s : LifecycleState}
    → Option Finalizer
    → Heap
    → Robject s
    → Robject s
    → Outcome (Robject s × Robject s × Heap)
unfolding drop_pointer
move_assign f h this other = do h' ← drop_pointer f h this.ptr; done (other, null, h')

-- Copy assignment between two distinct handles: the old object is put before the new one is taken.
unfoldable pub copy_assign :
    {s : LifecycleState}
    → Option Finalizer
    → Heap
    → Robject s
    → Robject s
    → Outcome (Robject s × Heap)
unfolding drop_pointer take_pointer
copy_assign f h this other = do h' ← drop_pointer f h this.ptr; take_pointer h' other.ptr

-- The body that the conversions share: on success the reference moves to a handle of the new type,
-- and on refusal it stays with the old one. The triple is the result, what is left, the memory.
unfoldable pub convert :
    {s : LifecycleState} (t : LifecycleState)
    → Heap
    → Robject s
    → Outcome (Robject t × Robject s × Heap)
convert t h r = elim r.ptr [
  | none ↦ fault
  | some p ↦
      let (moved, o) = transition (h p) t in
      let h' = update h p o in
      done (if moved then (record { ptr = some p }, null, h') else (null, r, h'))
]

unfoldable pub activate : Heap → Robject embryo → Outcome (Robject active × Robject embryo × Heap)
unfolding convert
activate = convert active

unfoldable pub seal : Heap → Robject embryo → Outcome (Robject sealed × Robject embryo × Heap)
unfolding convert
seal = convert sealed

unfoldable pub activate_sealed :
    Heap → Robject sealed → Outcome (Robject active × Robject sealed × Heap)
unfolding convert
activate_sealed = convert active

unfoldable pub suspend : Heap → Robject active → Outcome (Robject suspended × Robject active × Heap)
unfolding convert
suspend = convert suspended

unfoldable pub resume :
    Heap → Robject suspended → Outcome (Robject active × Robject suspended × Heap)
unfolding convert
resume = convert active

-- `requires (State == active || State == suspended)`
unfoldable pub begin_destroy :
    {s : LifecycleState}
    → (s ≡ active) ⊎ (s ≡ suspended)
    → Heap
    → Robject s
    → Outcome (Robject dying × Robject s × Heap)
unfolding convert
begin_destroy _ = convert dying

unfoldable pub abort : Heap → Robject embryo → Outcome (Robject dying × Robject embryo × Heap)
unfolding convert
abort = convert dying

-- `release`: the raw pointer leaves the handle with its reference.
unfoldable pub release : {s : LifecycleState} → Robject s → Option ℕ × Robject s
release r = (r.ptr, null)

-- `from_raw_noref`
unfoldable pub from_raw_noref : (s : LifecycleState) → Option ℕ → Robject s
from_raw_noref s p = record { ptr = p }

-- `id` and `generation`
unfoldable pub id : {s : LifecycleState} → Heap → Robject s → ℕ
id h r = elim r.ptr [ none ↦ 2 ^ 32 - 1 | some p ↦ (h p).id ]

unfoldable pub generation : {s : LifecycleState} → Heap → Robject s → ℕ
generation h r = elim r.ptr [ none ↦ 0 | some p ↦ (h p).generation ]

-- `swap_state_to`, with `mark_dying`, `mark_destroyed` and `mark_suspended`, on a raw pointer.
unfoldable pub swap_state_to : LifecycleState → Heap → Option ℕ → Bool × Heap
swap_state_to t h none = (false, h)
swap_state_to t h (some p) = let (moved, o) = transition (h p) t in (moved, update h p o)

unfoldable pub mark_dying : Heap → Option ℕ → Bool × Heap
unfolding swap_state_to
mark_dying = swap_state_to dying

unfoldable pub mark_destroyed : Heap → Option ℕ → Bool × Heap
unfolding swap_state_to
mark_destroyed = swap_state_to destroyed

unfoldable pub mark_suspended : Heap → Option ℕ → Bool × Heap
unfolding swap_state_to
mark_suspended = swap_state_to suspended
