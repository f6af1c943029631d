-- ===== src/Base/Results.antt =====
-- How a kernel routine ends. `std::expected<T, kernel_error>` is `Result`; a trap or a null
-- dereference, after which the kernel does not go on, is `fault`. lib/error.cxxm has the codes.
use mathlib.Core.Path.{◌≡◌, refl}
use mathlib.Core.Logic.{◌⊎◌, inl, inr}

-- The members of `memory_error::code`, `locking_error::code` and `generic_error::code`.
pub data MemoryError : Type 0 where
  none_memory out_of_memory invalid_address alignment_error region_overlap hhdm_init_failed :
      MemoryError
  page_fault invalid_irq_contex transaction_aborted capability_invalid purpose_mismatch :
      MemoryError
  zone_exhausted ssp_check_fail : MemoryError

pub data LockingError : Type 0 where
  none_locking timeout deadlock_detected already_locked not_locked max_depth_exceeded : LockingError

pub data GenericError : Type 0 where
  none_generic invalid_arg not_supported not_implemented internal_error not_found : GenericError
  unknown out_of_range uninitialized stall : GenericError

-- A category with its code, as the `from_*` factories build it.
pub data KernelError : Type 0 where
  from_memory : MemoryError → KernelError
  from_locking : LockingError → KernelError
  from_generic : GenericError → KernelError

pub data Result {ℓ} (A : Type ℓ) : Type ℓ where
  ok : A → Result A
  err : KernelError → Result A

pub data Outcome {ℓ} (A : Type ℓ) : Type ℓ where
  done : A → Outcome A
  fault : Outcome A

infixl 5 ◌>>=◌
abbrev pub ◌>>=◌ {ℓ κ} : {A : Type ℓ} {B : Type κ} → Outcome A → (A → Outcome B) → Outcome B
done a >>= f = f a
fault >>= f = fault

pub Outcome-cases {ℓ} : {A : Type ℓ} (o : Outcome A) → (o ≡ fault) ⊎ ((a : A) × (o ≡ done a))
Outcome-cases fault = inl refl
Outcome-cases (done a) = inr (a, refl)

pub Result-cases {ℓ} :
    {A : Type ℓ} (r : Result A) → ((e : KernelError) × (r ≡ err e)) ⊎ ((a : A) × (r ≡ ok a))
Result-cases (err e) = inl (e, refl)
Result-cases (ok a) = inr (a, refl)
