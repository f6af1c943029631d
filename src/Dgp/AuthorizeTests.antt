-- ===== src/Dgp/AuthorizeTests.antt =====
-- Runs of the authorization chokepoint at concrete inputs.
use zxfoundation.Base.{
  ◌+◌, ◌≡◌, ◌↔◌, ◌⊎◌, refl, true, false, ok, err, KernelError, from_memory, capability_invalid, ℕ,
}
use zxfoundation.Base.Arrays.{update}
use zxfoundation.Scoms.Kobject.{Heap, Bobject, domain, active, dying}
use zxfoundation.Dgp.SyncContract.{Percpu, contract_snapshot, validate_authority_lookup}
use zxfoundation.Dgp.Rights.{has_all_rights}
use zxfoundation.Dgp.Authorize.{
  Metadata, portal_create, mem_share, required_rights_for_op, metadata_kind, validate_op_metadata,
  validate_common, new_lease, consume, authorize,
}
use zxfoundation.Dgp.Authorize.Lease.{IsAuthorized, authorize-Authorized, authorize-consume}

abbrev cpu : Percpu
cpu = record { cpu_id = 0; lock_depth = 1; in_rcu_read_side = 0; irqs_enabled = true }

abbrev live : ℕ → Bobject
live n = record {
  id = n;
  type = domain;
  state = active;
  count = 1;
  generation = n + 1;
  object_flags = 0;
}

abbrev domains : Heap
domains = λ p. live p

-- The caller at 3 is torn down.
abbrev torn_down : Heap
torn_down = update domains 3 (record (live 3) { state = dying })

abbrev span : Metadata
span = record { requested_rights = 4; target_va_start = 4096; target_va_end = 8192; gate_id = 0 }

-- `lifecycle` and `share` are needed for a portal.
portal_granted :
    authorize cpu domains 3 0x24 5 portal_create span ≡ ok (new_lease domains 3 5 portal_create)
unfolding authorize validate_common validate_authority_lookup contract_snapshot validate_op_metadata
    metadata_kind required_rights_for_op has_all_rights
portal_granted = refl

portal_refused :
    authorize cpu domains 3 0x20 5 portal_create span ≡ err (from_memory capability_invalid)
unfolding authorize validate_common validate_authority_lookup contract_snapshot validate_op_metadata
    metadata_kind required_rights_for_op has_all_rights
portal_refused = refl

authorize-Authorized_example :
    (IsAuthorized domains 3 0x24 5 mem_share span
      × (authorize cpu domains 3 0x24 5 mem_share span ≡ ok (new_lease domains 3 5 mem_share)))
    ⊎ (¬ IsAuthorized domains 3 0x24 5 mem_share span
        × ((e : KernelError) × (authorize cpu domains 3 0x24 5 mem_share span ≡ err e)))
authorize-Authorized_example = authorize-Authorized cpu domains 3 0x24 5 mem_share span

authorize-consume_example :
    ((consume torn_down (new_lease domains 3 5 portal_create)).0 ≡ true)
    ↔ (((torn_down 3).generation ≡ 4)
        × ((torn_down 3).state ≡ active)
        × ((torn_down 5).generation ≡ 6)
        × ((torn_down 5).state ≡ active))
      × ((consume torn_down (new_lease domains 3 5 portal_create)).0 ≡ true
          → (consume domains (consume torn_down (new_lease domains 3 5 portal_create)).1).0 ≡ false)
authorize-consume_example =
    authorize-consume cpu domains 3 0x24 5 portal_create span torn_down domains portal_granted
