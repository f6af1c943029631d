-- ===== src/Scoms/Kobject.antt =====
-- The object header and its reference count: zxfoundation/scoms/kobject.zcomponent/types.cxxm
-- (`kref`), base.cxxm and base.cxx (`bobject`), and base/typestate.cxxm (`lifecycle_state`).
-- Headers stand in a memory from addresses. Atomic operations take effect one after the other.
pub mod Counting
pub mod Totality
pub mod Lifecycle
use zxfoundation.Base.{
  ℕ, ◌+◌, ◌-◌, ◌%◌, ◌^◌, Bool, true, false, Option, none, some, Outcome, done, fault, ◌>>=◌, ltb,
  ◌==◌, if◌then◌else◌,
}
use zxfoundation.Base.Arrays.{update}

pub data LifecycleState : Type 0 where
  embryo sealed active suspended dying destroyed : LifecycleState

pub data KobjectType : Type 0 where
  none_type domain gate portal vm_region io_binding capability strand irq_desc : KobjectType
  memory_resource memory_extent memory_folio page storage grant mapping : KobjectType
  address_space page_table key endpoint message kmem_cache policy_server : KobjectType
  service_entry device_binding dataset_extent : KobjectType

-- `state == s` and `type == t`, by the enumerators' values.
abbrev pub lifecycle_code : LifecycleState → ℕ
lifecycle_code embryo = 0
lifecycle_code sealed = 1
lifecycle_code active = 2
lifecycle_code suspended = 3
lifecycle_code dying = 4
lifecycle_code destroyed = 5

abbrev pub is_state : LifecycleState → LifecycleState → Bool
is_state s t = lifecycle_code s == lifecycle_code t

pub record Bobject : Type 0 where
  pub id : ℕ
  pub type : KobjectType
  pub state : LifecycleState
  pub count : ℕ
  pub generation : ℕ
  pub object_flags : ℕ

-- `kref::try_get`: no reference to a released object, and a trap before the count saturates.
unfoldable pub try_get_ref : ℕ → Outcome (Bool × ℕ)
try_get_ref count =
    if count == 0
    then done (false, count)
    else if ltb count 0x7fff_fffe
    then done (true, (count + 1) % 2 ^ 32)
    else fault

-- `kref::put`: true for the last reference.
unfoldable pub put_ref : ℕ → Outcome (Bool × ℕ)
put_ref count =
    if count == 0
    then fault
    else if count == 1
    then done (true, (count + 2 ^ 32 - 1) % 2 ^ 32)
    else done (false, (count + 2 ^ 32 - 1) % 2 ^ 32)

-- `kref::is_one`
unfoldable pub is_one : ℕ → Bool
is_one count = count == 1

-- The states from which `transition` accepts each target.
unfoldable pub may_enter : LifecycleState → LifecycleState → Bool
may_enter s embryo = is_state s destroyed
may_enter s sealed = is_state s embryo
may_enter s active =
    if is_state s embryo then true else if is_state s sealed then true else is_state s suspended
may_enter s suspended = is_state s active
may_enter s dying =
    if is_state s embryo then true else if is_state s active then true else is_state s suspended
may_enter s destroyed = is_state s dying

-- `bobject::transition`
unfoldable pub transition : Bobject → LifecycleState → Bool × Bobject
unfolding may_enter
transition o target =
    if may_enter o.state target then (true, record o { state = target }) else (false, o)

-- `bobject::initialize`. The generation is the table's business.
unfoldable pub initialize : Bobject → ℕ → KobjectType → Bobject
initialize o object_id object_type = record o {
  id = object_id;
  type = object_type;
  state = embryo;
  count = 1;
  object_flags = 0;
}

abbrev pub Heap : Type 0
Heap = ℕ → Bobject

-- What runs after the last put: a function pointer, which may stop the kernel.
abbrev pub Finalizer : Type 0
Finalizer = Heap → ℕ → Outcome Heap

-- `bobject::try_get`
unfoldable pub try_get : Heap → ℕ → Outcome (Bool × Heap)
unfolding try_get_ref
try_get h p = do
  (got, count) ← try_get_ref (h p).count
  done (got, update h p (record (h p) { count = count }))

-- What `bobject::put` does once the count is down: the last reference runs the finalizer, and a
-- missing one is a trap.
pub finish_put : Option Finalizer → Heap → ℕ → Bool → Outcome Heap
finish_put finalizer h p false = done h
finish_put none h p true = fault
finish_put (some run) h p true = run h p

-- `bobject::put`
unfoldable pub put : Option Finalizer → Heap → ℕ → Outcome Heap
unfolding put_ref finish_put
put finalizer h p = do
  (last, count) ← put_ref (h p).count
  finish_put finalizer (update h p (record (h p) { count = count })) p last
