-- ===== src/Dgp/MemoryContract/Mapping.antt =====
-- Which mappings the contract authorizes, and on what terms.
use zxfoundation.Base.{
  ℕ, ◌-◌, ◌<◌, ◌≡◌, ◌≢◌, ◌⊎◌, inl, inr, true, false, ok, err, KernelError, Result-cases,
  if◌then◌else◌, ◌==◌, not, arith,
}
use zxfoundation.Dgp.Isolation.{storage_key_auto, storage_key_count}
use zxfoundation.Dgp.MemoryContract.{
  ContractRequest, ContractResult, share_access, is_shared, memory_access_has, is_page_aligned,
  required_rights, is_writable_code, validate_range, validate_storage_key, validate_request,
  resolve_storage_key, authorize_mapping, address_space, nothing,
}

-- What a request must be: a non-empty range of whole pages of the length named, at whole pages of
-- memory if it names memory, not both writable and executable, with a storage key that exists or
-- is left open, and asking to share where the scope is shared.
pub record IsMappable (r : ContractRequest) : Type 0 where
  pub ordered : r.va_start < r.va_end
  pub start_aligned : is_page_aligned r.va_start ≡ true
  pub end_aligned : is_page_aligned r.va_end ≡ true
  pub exact_length : r.length ≡ r.va_end - r.va_start
  pub not_writable_code : is_writable_code r.prot ≡ false
  pub memory_aligned : r.phys_start ≢ 0 → is_page_aligned r.phys_start ≡ true
  pub key_exists : (r.storage_key ≡ storage_key_auto) ⊎ (r.storage_key < storage_key_count)
  pub sharing_asked : is_shared r.scope ≡ true → memory_access_has r.access share_access ≡ true

-- The terms of an authorized mapping.
abbrev pub terms : ℕ → ContractRequest → ContractResult
terms generation r = record {
  storage_key = if r.storage_key == storage_key_auto then 0 else r.storage_key;
  numa_node = r.numa_node;
  invalidate = if not (r.phys_start == 0) then address_space else nothing;
  rights = required_rights r.access r.scope;
  generation = generation;
  access = r.access;
  scope = r.scope;
}

validate_range-ok :
    (a b : ℕ)
    → validate_range a b ≡ ok tt
    → (a < b) × (is_page_aligned a ≡ true) × (is_page_aligned b ≡ true)
unfolding validate_range
validate_range-ok a b h = ground arith

validate_storage_key-ok :
    (k : ℕ) → validate_storage_key k ≡ ok tt → (k ≡ storage_key_auto) ⊎ (k < storage_key_count)
unfolding validate_storage_key
validate_storage_key-ok k h = ground arith

validate_request-ok :
    (r : ContractRequest)
    → validate_request r ≡ ok tt
    → (validate_range r.va_start r.va_end ≡ ok tt)
      × (r.length ≡ r.va_end - r.va_start)
      × (is_writable_code r.prot ≡ false)
      × (r.phys_start ≢ 0 → is_page_aligned r.phys_start ≡ true)
      × (validate_storage_key r.storage_key ≡ ok tt)
unfolding validate_request
validate_request-ok r h = elim (Result-cases (validate_range r.va_start r.va_end)) [
  | inl (e, z) ↦ absurd (ground arith)
  | inr (tt, z) ↦ (z, ground arith, ground arith, ground arith, ground arith)
]

authorize_mapping-ok :
    (generation : ℕ) (r : ContractRequest) (c : ContractResult)
    → authorize_mapping generation r ≡ ok c
    → (validate_request r ≡ ok tt)
      × (is_shared r.scope ≡ true → memory_access_has r.access share_access ≡ true)
unfolding authorize_mapping
authorize_mapping-ok generation r c h = elim (Result-cases (validate_request r)) [
  | inl (e, z) ↦ absurd (ground arith)
  | inr (tt, z) ↦ (z, ground arith)
]

authorize_mapping-IsMappable :
    (generation : ℕ) (r : ContractRequest) (c : ContractResult)
    → authorize_mapping generation r ≡ ok c
    → IsMappable r
authorize_mapping-IsMappable generation r c h =
    let (request, sharing) = authorize_mapping-ok generation r c h in
    let (range, exact, safe, memory, key) = validate_request-ok r request in
    let (ordered, start, end) = validate_range-ok r.va_start r.va_end range in
    record {
      ordered = ordered;
      start_aligned = start;
      end_aligned = end;
      exact_length = exact;
      not_writable_code = safe;
      memory_aligned = memory;
      key_exists = validate_storage_key-ok r.storage_key key;
      sharing_asked = sharing;
    }

IsMappable-validate_range :
    (r : ContractRequest) → IsMappable r → validate_range r.va_start r.va_end ≡ ok tt
unfolding validate_range
IsMappable-validate_range r m = ground (arith, m.ordered, m.start_aligned, m.end_aligned)

IsMappable-validate_storage_key :
    (r : ContractRequest) → IsMappable r → validate_storage_key r.storage_key ≡ ok tt
unfolding validate_storage_key
IsMappable-validate_storage_key r m = ground (arith, m.key_exists)

IsMappable-validate_request : (r : ContractRequest) → IsMappable r → validate_request r ≡ ok tt
unfolding validate_request
IsMappable-validate_request r m =
    let a = IsMappable-validate_range r m in
    let k = IsMappable-validate_storage_key r m in
    ground (arith, m.ordered, m.exact_length, m.not_writable_code, m.memory_aligned)

IsMappable-resolve_storage_key :
    (r : ContractRequest)
    → IsMappable r
    → resolve_storage_key r.storage_key
      ≡ ok (if r.storage_key == storage_key_auto then 0 else r.storage_key)
unfolding resolve_storage_key
IsMappable-resolve_storage_key r m = let k = IsMappable-validate_storage_key r m in ground arith

IsMappable-authorize_mapping :
    (generation : ℕ) (r : ContractRequest)
    → IsMappable r
    → authorize_mapping generation r ≡ ok (terms generation r)
unfolding authorize_mapping
IsMappable-authorize_mapping generation r m =
    let a = IsMappable-validate_request r m in
    let k = IsMappable-resolve_storage_key r m in
    ground (arith, m.not_writable_code, m.sharing_asked)

-- A mapping is authorized exactly if the request is as it must be: whole pages of the length named,
-- never both writable and executable, with a key that exists and sharing only where it is asked
-- for; the terms then name the key, the rights required and the present generation. Any other
-- request is refused.
pub authorize_mapping-Authorized :
    (generation : ℕ) (r : ContractRequest)
    → (IsMappable r × (authorize_mapping generation r ≡ ok (terms generation r)))
      ⊎ (¬ IsMappable r × ((e : KernelError) × (authorize_mapping generation r ≡ err e)))
authorize_mapping-Authorized generation r = elim (Result-cases (authorize_mapping generation r)) [
  | inl (e, refused) ↦
      inr (λ m. let a = IsMappable-authorize_mapping generation r m in ground arith, (e, refused))
  | inr (c, given) ↦
      let m = authorize_mapping-IsMappable generation r c given in
      inl (m, IsMappable-authorize_mapping generation r m)
]
