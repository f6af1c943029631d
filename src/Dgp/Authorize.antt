-- ===== src/Dgp/Authorize.antt =====
-- The authorization chokepoint: zxfoundation/dgp/authorize.zcomponent/core.cxxm and core.cxx. A
-- domain is the address of its header in the heap, with its granted rights.
pub mod Lease
use zxfoundation.Base.{
  ℕ, ◌^◌, Bool, true, false, not, ◌&&◌, ◌||◌, Option, none, some, Result, ok, err, from_generic,
  from_memory, invalid_arg, capability_invalid, if◌then◌else◌, leb, ◌==◌, bit_and, bit_or,
}
use zxfoundation.Scoms.Kobject.{Heap, active, is_state}
use zxfoundation.Dgp.Rights.{
  no_rights, enter_right, map_right, share_right, signal_right, io_right, lifecycle_right,
  delegate_right, debug_right, sched_right, console_right, service_right, has_all_rights,
}
use zxfoundation.Dgp.SyncContract.{
  Percpu, thread, none_phase, contract_snapshot, validate_authority_lookup,
}

pub data OperationKind : Type 0 where
  no_operation domain_create domain_destroy domain_exit domain_info domain_query : OperationKind
  strand_create address_space_create gate_create gate_destroy gate_entry portal_create :
      OperationKind
  portal_destroy io_bind io_unbind io_submit io_irq_bind io_dma_extent : OperationKind
  io_completion_dequeue signal_register signal_poll signal_ack signal_send signal_mask_set :
      OperationKind
  signal_mask_get signal_wait mem_alloc mem_free mem_map mem_unmap : OperationKind
  mem_protect mem_share cap_acquire cap_release cap_validate cap_revoke : OperationKind
  time_yield time_deadline time_now console_write register_service lookup_service : OperationKind
  unregister_service strand_set_policy strand_set_affinity strand_query_state ipc_endpoint_create
        ipc_endpoint_destroy :
      OperationKind
  ipc_send ipc_receive shm_export shm_import shm_map policy_server_register : OperationKind
  policy_server_unregister : OperationKind

unfoldable pub required_rights_for_op : OperationKind → ℕ
required_rights_for_op domain_create = lifecycle_right
required_rights_for_op domain_destroy = lifecycle_right
required_rights_for_op gate_create = lifecycle_right
required_rights_for_op gate_destroy = lifecycle_right
required_rights_for_op portal_destroy = lifecycle_right
required_rights_for_op portal_create = bit_or lifecycle_right share_right
required_rights_for_op strand_create = bit_or lifecycle_right sched_right
required_rights_for_op address_space_create = lifecycle_right
required_rights_for_op ipc_endpoint_create = signal_right
required_rights_for_op ipc_endpoint_destroy = signal_right
required_rights_for_op ipc_send = signal_right
required_rights_for_op ipc_receive = signal_right
required_rights_for_op shm_export = share_right
required_rights_for_op shm_import = map_right
required_rights_for_op shm_map = bit_or map_right share_right
required_rights_for_op policy_server_register = service_right
required_rights_for_op policy_server_unregister = service_right
required_rights_for_op io_bind = io_right
required_rights_for_op io_unbind = io_right
required_rights_for_op io_submit = io_right
required_rights_for_op io_irq_bind = io_right
required_rights_for_op io_dma_extent = io_right
required_rights_for_op io_completion_dequeue = io_right
required_rights_for_op signal_register = signal_right
required_rights_for_op signal_poll = signal_right
required_rights_for_op signal_ack = signal_right
required_rights_for_op signal_send = signal_right
required_rights_for_op signal_mask_set = signal_right
required_rights_for_op signal_mask_get = signal_right
required_rights_for_op signal_wait = signal_right
required_rights_for_op mem_alloc = map_right
required_rights_for_op mem_free = map_right
required_rights_for_op mem_map = map_right
required_rights_for_op mem_unmap = map_right
required_rights_for_op mem_protect = map_right
required_rights_for_op mem_share = share_right
required_rights_for_op gate_entry = enter_right
required_rights_for_op cap_acquire = no_rights
required_rights_for_op cap_release = no_rights
required_rights_for_op cap_validate = no_rights
required_rights_for_op cap_revoke = bit_or delegate_right lifecycle_right
required_rights_for_op time_yield = no_rights
required_rights_for_op time_deadline = no_rights
required_rights_for_op time_now = no_rights
required_rights_for_op console_write = console_right
required_rights_for_op register_service = service_right
required_rights_for_op lookup_service = service_right
required_rights_for_op unregister_service = bit_or service_right lifecycle_right
required_rights_for_op domain_exit = no_rights
required_rights_for_op domain_info = no_rights
required_rights_for_op domain_query = debug_right
required_rights_for_op strand_set_policy = sched_right
required_rights_for_op strand_set_affinity = sched_right
required_rights_for_op strand_query_state = bit_or sched_right debug_right
required_rights_for_op no_operation = no_rights

pub record Metadata : Type 0 where
  pub requested_rights : ℕ
  pub target_va_start : ℕ
  pub target_va_end : ℕ
  pub gate_id : ℕ

-- The three groups of `validate_op_metadata`.
pub data MetadataKind : Type 0 where
  va_range gate_number nothing : MetadataKind

unfoldable pub metadata_kind : OperationKind → MetadataKind
metadata_kind portal_create = va_range
metadata_kind mem_map = va_range
metadata_kind mem_share = va_range
metadata_kind mem_unmap = va_range
metadata_kind mem_protect = va_range
metadata_kind mem_free = va_range
metadata_kind shm_export = va_range
metadata_kind gate_entry = gate_number
metadata_kind io_irq_bind = gate_number
metadata_kind _ = nothing

unfoldable pub validate_op_metadata : OperationKind → Metadata → Result (Unit {0})
validate_op_metadata op meta = elim (metadata_kind op) [
  | va_range ↦
      if leb meta.target_va_end meta.target_va_start then err (from_generic invalid_arg) else ok tt
  | gate_number ↦ if meta.gate_id == 0 then err (from_generic invalid_arg) else ok tt
  | nothing ↦ ok tt
]

unfoldable pub validate_common : Percpu → Heap → (caller target : ℕ) → Result (Unit {0})
validate_common pcp h caller target =
    if not (is_state (h caller).state active)
    then err (from_generic invalid_arg)
    else if not (is_state (h target).state active)
    then err (from_generic invalid_arg)
    else validate_authority_lookup (contract_snapshot pcp thread none_phase (h caller).id)

-- `authorization_lease`
pub record AuthorizationLease : Type 0 where
  pub caller : Option ℕ
  pub target : Option ℕ
  pub caller_generation : ℕ
  pub target_generation : ℕ
  pub operation : OperationKind
  pub rights : ℕ
  pub consumed : Bool

-- One domain's part of `authorization_lease::valid`.
party_valid : Heap → Option ℕ → ℕ → Bool
party_valid h none generation = false
party_valid h (some ko) generation =
    ((h ko).generation == generation) && is_state (h ko).state active

unfoldable pub valid : Heap → AuthorizationLease → Bool
unfolding party_valid
valid h lease =
    not lease.consumed
    && party_valid h lease.caller lease.caller_generation
    && party_valid h lease.target lease.target_generation

-- `authorization_lease::consume`: the result, and the lease afterwards.
unfoldable pub consume : Heap → AuthorizationLease → Bool × AuthorizationLease
consume h lease =
    if not (valid h lease) then (false, lease) else (true, record lease { consumed = true })

-- The lease that `authorize` returns.
abbrev pub new_lease : Heap → (caller target : ℕ) → OperationKind → AuthorizationLease
new_lease h caller target op = record {
  caller = some caller;
  target = some target;
  caller_generation = (h caller).generation;
  target_generation = (h target).generation;
  operation = op;
  rights = required_rights_for_op op;
  consumed = false;
}

unfoldable pub authorize :
    Percpu
    → Heap
    → (caller granted_rights target : ℕ) → OperationKind
    → Metadata
    → Result AuthorizationLease
authorize pcp h caller granted_rights target op meta = elim (validate_common pcp h caller target) [
  | err e ↦ err e
  | ok u ↦ elim (validate_op_metadata op meta) [
    | err e ↦ err e
    | ok v ↦
        let required = required_rights_for_op op in
        if not (required == no_rights)
          && not (has_all_rights granted_rights (bit_or meta.requested_rights required))
        then err (from_memory capability_invalid)
        else ok (new_lease h caller target op)
  ]
]
