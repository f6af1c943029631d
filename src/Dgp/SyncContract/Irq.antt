-- ===== src/Dgp/SyncContract/Irq.antt =====
-- The checks on the context that a call comes from.
use zxfoundation.Base.{ℕ, ◌≡◌, ◌↔◌, true, false, ok, from_generic, invalid_arg, err, arith}
use zxfoundation.Dgp.SyncContract.{
  ContractState, Percpu, LockContext, IrqContract, TeardownPhase, teardown, release_identity,
  unchanged, must_be_enabled, must_be_disabled, contract_snapshot, validate_irq_state,
  validate_authority_lookup,
}

-- For a snapshot of the processor, the check of the interrupt state passes exactly if interrupts
-- are as the contract wants them: off where they must be disabled, on where they must be enabled.
validate_irq_state_iff :
    (pcp : Percpu) (c : LockContext) (p : TeardownPhase) (d : ℕ) (contract : IrqContract)
    → (validate_irq_state (contract_snapshot pcp c p d) contract ≡ ok tt) ↔ (
        (contract ≡ must_be_disabled → pcp.irqs_enabled ≡ false)
        × (contract ≡ must_be_enabled → pcp.irqs_enabled ≡ true))
unfolding validate_irq_state contract_snapshot
validate_irq_state_iff pcp c p d unchanged = ground arith
validate_irq_state_iff pcp c p d must_be_enabled = ground arith
validate_irq_state_iff pcp c p d must_be_disabled = ground arith

-- An authority lookup is refused exactly for a domain whose teardown has reached the release of its
-- identity, and only in the teardown itself.
pub validate_authority_lookup_iff :
    (s : ContractState)
    → (validate_authority_lookup s ≡ err (from_generic invalid_arg))
      ↔ ((s.context ≡ teardown) × (s.phase ≡ release_identity))
unfolding validate_authority_lookup
validate_authority_lookup_iff s = ground arith
