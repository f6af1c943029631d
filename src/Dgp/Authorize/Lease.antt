-- ===== src/Dgp/Authorize/Lease.antt =====
-- When an operation is authorized, and how often its lease can be used.
use zxfoundation.Base.{
  ℕ, ◌<◌, ◌≡◌, ◌≢◌, ◌⊎◌, inl, inr, refl, ◌↔◌, from_generic, invalid_arg, true, false, ok, err,
  KernelError, Result-cases, arith, bit_or,
}
use zxfoundation.Scoms.Kobject.{LifecycleState, Heap, active}
use zxfoundation.Dgp.SyncContract.{Percpu, contract_snapshot, validate_authority_lookup}
use zxfoundation.Dgp.Rights.{no_rights, has_all_rights}
use zxfoundation.Dgp.Authorize.{
  OperationKind, Metadata, MetadataKind, metadata_kind, va_range, gate_number, nothing,
  AuthorizationLease, required_rights_for_op, validate_op_metadata, validate_common, valid, consume,
  new_lease, authorize,
}

-- What an operation's own arguments must be.
abbrev pub IsWellFormed : OperationKind → Metadata → Type 0
IsWellFormed op meta =
    (metadata_kind op ≡ va_range → meta.target_va_start < meta.target_va_end)
    × (metadata_kind op ≡ gate_number → meta.gate_id ≢ 0)

-- The rights that the caller must have been granted: those that the operation takes, and with them
-- those that it asks for. If an operation takes none, those asked for are not looked at.
abbrev pub HasRights : ℕ → OperationKind → Metadata → Type 0
HasRights granted op meta =
    (required_rights_for_op op ≡ no_rights)
    ⊎ (has_all_rights granted (bit_or meta.requested_rights (required_rights_for_op op)) ≡ true)

pub record IsAuthorized (h : Heap) (caller granted target : ℕ) (op : OperationKind)
    (meta : Metadata) : Type 0 where
  pub caller_active : (h caller).state ≡ active
  pub target_active : (h target).state ≡ active
  pub well_formed : IsWellFormed op meta
  pub has_rights : HasRights granted op meta

MetadataKind-cases : (k : MetadataKind) → (k ≡ va_range) ⊎ ((k ≡ gate_number) ⊎ (k ≡ nothing))
MetadataKind-cases va_range = inl refl
MetadataKind-cases gate_number = inr (inl refl)
MetadataKind-cases nothing = inr (inr refl)

is_active_or : (s : LifecycleState) → (s ≡ active) ⊎ (s ≢ active)
is_active_or s = ground arith

validate_common-cases :
    (pcp : Percpu) (h : Heap) (caller target : ℕ)
    → (((h caller).state ≡ active)
        × ((h target).state ≡ active)
        × (validate_common pcp h caller target ≡ ok tt))
      ⊎ (¬ (((h caller).state ≡ active) × ((h target).state ≡ active))
          × (validate_common pcp h caller target ≡ err (from_generic invalid_arg)))
unfolding validate_common validate_authority_lookup contract_snapshot
validate_common-cases pcp h caller target = elim (is_active_or (h caller).state) [
  | inr off ↦ inr (λ b. off b.0, ground arith)
  | inl on ↦ elim (is_active_or (h target).state) [
    | inr off ↦ inr (λ b. off b.1, ground arith)
    | inl both ↦ inl (on, both, ground arith)
  ]
]

module _ (op : OperationKind) (meta : Metadata) where
  validate_op_metadata-ok : IsWellFormed op meta → validate_op_metadata op meta ≡ ok tt
  unfolding validate_op_metadata
  validate_op_metadata-ok w = elim (MetadataKind-cases (metadata_kind op)) [
    | inl k ↦ let a = w.0 k in ground arith
    | inr (inl k) ↦ let a = w.1 k in ground arith
    | inr (inr k) ↦ ground arith
  ]

  validate_op_metadata-IsWellFormed : validate_op_metadata op meta ≡ ok tt → IsWellFormed op meta
  unfolding validate_op_metadata
  validate_op_metadata-IsWellFormed h = (λ k. ground arith, λ k. ground arith)

module _ (pcp : Percpu) (h : Heap) (caller granted target : ℕ) (op : OperationKind)
    (meta : Metadata) where
  authorize-IsAuthorized :
      {lease : AuthorizationLease}
      → authorize pcp h caller granted target op meta ≡ ok lease
      → IsAuthorized h caller granted target op meta
  unfolding authorize
  authorize-IsAuthorized e = elim (validate_common-cases pcp h caller target) [
    | inr (off, c) ↦ absurd (ground arith)
    | inl (a, b, c) ↦ elim (Result-cases (validate_op_metadata op meta)) [
      | inl (x, m) ↦ absurd (ground arith)
      | inr (tt, m) ↦ record {
        caller_active = a;
        target_active = b;
        well_formed = validate_op_metadata-IsWellFormed op meta m;
        has_rights = ground arith;
      }
    ]
  ]

  IsAuthorized-authorize :
      IsAuthorized h caller granted target op meta
      → authorize pcp h caller granted target op meta ≡ ok (new_lease h caller target op)
  unfolding authorize
  IsAuthorized-authorize i = elim (validate_common-cases pcp h caller target) [
    | inr (off, c) ↦ absurd (off (i.caller_active, i.target_active))
    | inl (a, b, c) ↦
        let m = validate_op_metadata-ok op meta i.well_formed in ground (arith, i.has_rights)
  ]

  -- An operation is authorized exactly if both domains are active, its range or gate is given, and
  -- either it takes no rights, and then those asked for are not looked at, or the caller was
  -- granted every right that it takes and every right asked for with it; the lease then names the
  -- two domains, their generations and the rights. Otherwise no lease is given.
  pub authorize-Authorized :
      (IsAuthorized h caller granted target op meta
        × (authorize pcp h caller granted target op meta ≡ ok (new_lease h caller target op)))
      ⊎ (¬ IsAuthorized h caller granted target op meta
          × ((e : KernelError) × (authorize pcp h caller granted target op meta ≡ err e)))
  authorize-Authorized = elim (Result-cases (authorize pcp h caller granted target op meta)) [
    | inl (e, refused) ↦ inr (λ i. let a = IsAuthorized-authorize i in ground arith, (e, refused))
    | inr (lease, given) ↦ let i = authorize-IsAuthorized given in inl (i, IsAuthorized-authorize i)
  ]

  -- A lease is used at most once, and only while it holds: what `authorize` gives can be consumed in
  -- a later state exactly if both domains are active there and of the generations that they had;
  -- once consumed it is refused in every state.
  pub authorize-consume :
      (now later : Heap) {lease : AuthorizationLease}
      → authorize pcp h caller granted target op meta ≡ ok lease
      → ((consume now lease).0 ≡ true)
        ↔ (((now caller).generation ≡ (h caller).generation)
            × ((now caller).state ≡ active)
            × ((now target).generation ≡ (h target).generation)
            × ((now target).state ≡ active))
          × ((consume now lease).0 ≡ true → (consume later (consume now lease).1).0 ≡ false)
  unfolding consume valid
  authorize-consume now later {lease} e =
      let a = IsAuthorized-authorize (authorize-IsAuthorized e) in
      let same : lease ≡ new_lease h caller target op = ground arith in
      rw same (ground arith, ground arith)
