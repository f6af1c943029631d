-- ===== src/Dgp/MemoryContract.antt =====
-- What may be mapped: zxfoundation/dgp/memory_contract.zcomponent/core.cxxm and core.cxx. Masks are
-- their words; a page's protection is the raw word of its table entry.
pub mod Mapping
use zxfoundation.Dgp.Rights.{map_right, share_right}
use zxfoundation.Base.{
  ℕ, ◌+◌, ◌-◌, ◌*◌, ◌%◌, ◌^◌, Bool, true, false, not, ◌&&◌, ◌||◌, Result, ok, err, from_generic,
  from_memory, invalid_arg, out_of_range, alignment_error, capability_invalid, if◌then◌else◌, ltb,
  leb, ◌==◌, bit_and, bit_or,
}
use zxfoundation.Dgp.Isolation.{storage_key_auto, storage_key_count}

-- `memory_access::share`
abbrev pub share_access : ℕ
share_access = 2 ^ 3

-- The entry bits `PTE_NOEXEC` and `PTE_PROTECT`.
abbrev pub pte_noexec : ℕ
pte_noexec = 0x100

abbrev pub pte_protect : ℕ
pte_protect = 0x200

pub data MemoryScope : Type 0 where
  private_domain portal_shared nucleus : MemoryScope

pub data NumaPolicy : Type 0 where
  deterministic_fallback strict_node interleave : NumaPolicy

pub data InvalidationScope : Type 0 where
  nothing local_cpu address_space single_page global alb_global : InvalidationScope

pub record ContractRequest : Type 0 where
  pub domain_id : ℕ
  pub va_start : ℕ
  pub va_end : ℕ
  pub phys_start : ℕ
  pub length : ℕ
  pub prot : ℕ
  pub storage_key : ℕ
  pub numa_node : ℕ
  pub access : ℕ
  pub scope : MemoryScope
  pub policy : NumaPolicy

pub record ContractResult : Type 0 where
  pub storage_key : ℕ
  pub numa_node : ℕ
  pub invalidate : InvalidationScope
  pub rights : ℕ
  pub generation : ℕ
  pub access : ℕ
  pub scope : MemoryScope

abbrev pub is_shared : MemoryScope → Bool
is_shared private_domain = false
is_shared portal_shared = true
is_shared nucleus = false

unfoldable pub memory_access_has : ℕ → ℕ → Bool
memory_access_has available requested = bit_and available requested == requested

-- `is_page_aligned`, with pages of 4096 bytes.
unfoldable pub is_page_aligned : ℕ → Bool
is_page_aligned address = bit_and address 0xfff == 0

unfoldable pub required_rights : ℕ → MemoryScope → ℕ
required_rights access scope =
    if memory_access_has access share_access || is_shared scope
    then bit_or map_right share_right
    else map_right

unfoldable pub validate_range : ℕ → ℕ → Result (Unit {0})
validate_range va_start va_end =
    if (va_end == 0) || leb va_end va_start
    then err (from_generic invalid_arg)
    else if not (is_page_aligned va_start) || not (is_page_aligned va_end)
    then err (from_memory alignment_error)
    else ok tt

unfoldable pub validate_storage_key : ℕ → Result (Unit {0})
validate_storage_key storage_key =
    if storage_key == storage_key_auto
    then ok tt
    else if leb storage_key_count storage_key
    then err (from_generic out_of_range)
    else ok tt

-- Whether a protection allows both to write and to execute.
unfoldable pub is_writable_code : ℕ → Bool
is_writable_code prot = (bit_and prot pte_noexec == 0) && (bit_and prot pte_protect == 0)

unfoldable pub validate_request : ContractRequest → Result (Unit {0})
validate_request r = elim (validate_range r.va_start r.va_end) [
  | err e ↦ err e
  | ok u ↦
      if (r.length == 0) || not (r.length == r.va_end - r.va_start)
      then err (from_generic invalid_arg)
      else if is_writable_code r.prot
      then err (from_memory capability_invalid)
      else if not (r.phys_start == 0) && not (is_page_aligned r.phys_start)
      then err (from_memory alignment_error)
      else validate_storage_key r.storage_key
]

unfoldable pub resolve_storage_key : ℕ → Result ℕ
resolve_storage_key storage_key = elim (validate_storage_key storage_key) [
  | err e ↦ err e
  | ok u ↦ if storage_key == storage_key_auto then ok 0 else ok storage_key
]

-- `authorize_mapping`; `generation` is the counter that `contract_generation` reads.
unfoldable pub authorize_mapping : ℕ → ContractRequest → Result ContractResult
authorize_mapping generation r = elim (validate_request r) [
  | err e ↦ err e
  | ok u ↦
      if is_shared r.scope && not (memory_access_has r.access share_access)
      then err (from_memory capability_invalid)
      else if is_writable_code r.prot
      then err (from_memory capability_invalid)
      else elim (resolve_storage_key r.storage_key) [
        | err e ↦ err e
        | ok key ↦ ok (record {
          storage_key = key;
          numa_node = r.numa_node;
          invalidate = if not (r.phys_start == 0) then address_space else nothing;
          rights = required_rights r.access r.scope;
          generation = generation;
          access = r.access;
          scope = r.scope;
        })
      ]
]

unfoldable pub authorize_protect : ℕ → ContractRequest → ℕ → Result ContractResult
authorize_protect generation r old_prot = elim (authorize_mapping generation r) [
  | err e ↦ err e
  | ok result ↦
      ok (record result { invalidate = if old_prot == r.prot then nothing else address_space })
]

unfoldable pub authorize_unmap : ℕ → ContractRequest → Result ContractResult
authorize_unmap generation r = elim (authorize_mapping generation r) [
  | err e ↦ err e
  | ok result ↦ ok (record result {
    invalidate = if memory_access_has r.access share_access then alb_global else address_space;
  })
]
