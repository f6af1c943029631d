-- ===== src/Dgp/MappingTests.antt =====
-- Runs of the memory contract at concrete inputs.
use zxfoundation.Base.{◌≡◌, ◌⊎◌, refl, ok, err, from_memory, capability_invalid, KernelError}
use zxfoundation.Dgp.Isolation.{storage_key_auto}
use zxfoundation.Dgp.MemoryContract.{
  ContractRequest, portal_shared, strict_node, alb_global, pte_noexec, memory_access_has,
  is_page_aligned, is_writable_code, required_rights, validate_range, validate_storage_key,
  validate_request, resolve_storage_key, authorize_mapping, authorize_protect, authorize_unmap,
  nothing,
}
use zxfoundation.Dgp.MemoryContract.Mapping.{IsMappable, terms, authorize_mapping-Authorized}

abbrev window : ContractRequest
window = record {
  domain_id = 7;
  va_start = 0x10000;
  va_end = 0x12000;
  phys_start = 0x40000;
  length = 0x2000;
  prot = pte_noexec;
  storage_key = storage_key_auto;
  numa_node = 0;
  access = 9;
  scope = portal_shared;
  policy = strict_node;
}

window_mapped : authorize_mapping 5 window ≡ ok (terms 5 window)
unfolding authorize_mapping validate_request validate_range validate_storage_key resolve_storage_key
    is_page_aligned is_writable_code memory_access_has required_rights
window_mapped = refl

window_protected :
    authorize_protect 5 window pte_noexec ≡ ok (record (terms 5 window) { invalidate = nothing })
unfolding authorize_protect authorize_mapping validate_request validate_range validate_storage_key
    resolve_storage_key is_page_aligned is_writable_code memory_access_has required_rights
window_protected = refl

window_unmapped :
    authorize_unmap 5 window ≡ ok (record (terms 5 window) { invalidate = alb_global })
unfolding authorize_unmap authorize_mapping validate_request validate_range validate_storage_key
    resolve_storage_key is_page_aligned is_writable_code memory_access_has required_rights
window_unmapped = refl

writable_code_refused :
    authorize_mapping 5 (record window { prot = 0 }) ≡ err (from_memory capability_invalid)
unfolding authorize_mapping validate_request validate_range validate_storage_key resolve_storage_key
    is_page_aligned is_writable_code memory_access_has required_rights
writable_code_refused = refl

authorize_mapping-Authorized_example :
    (IsMappable window × (authorize_mapping 5 window ≡ ok (terms 5 window)))
    ⊎ (¬ IsMappable window × ((e : KernelError) × (authorize_mapping 5 window ≡ err e)))
authorize_mapping-Authorized_example = authorize_mapping-Authorized 5 window
