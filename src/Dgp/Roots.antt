-- ===== src/Dgp/Roots.antt =====
-- The address-space root of an isolation domain, and the checks on gates and portals of
-- zxfoundation/dgp/isolation.zcomponent/core.cxx. An ASCE is its raw word.
pub mod Runnable
use zxfoundation.Base.{
  ℕ, ◌/◌, ◌^◌, Bool, true, false, not, ◌&&◌, ◌||◌, Result, ok, err, from_generic, invalid_arg,
  if◌then◌else◌, ltb, leb, ◌==◌, bit_and,
}
use zxfoundation.Scoms.Kobject.{LifecycleState, sealed, is_state}
use zxfoundation.Dgp.Isolation.{IsolationDomain}

abbrev pub max_domains : ℕ
max_domains = 256

unfoldable pub bind_asce_root :
    IsolationDomain → LifecycleState → ℕ → ℕ → Result (Unit {0}) × IsolationDomain
bind_asce_root state current_ls asce root_phys =
    if not (is_state current_ls sealed) || (root_phys == 0) || (asce == 0)
    then (err (from_generic invalid_arg), state)
    else (ok tt, record state { asce = asce; root_phys = root_phys })

-- `activate_domain`, which takes the state by reference and leaves it as it is.
unfoldable pub activate_domain : LifecycleState → ℕ → ℕ → Result (Unit {0})
activate_domain state asce root_phys =
    if not (is_state state sealed) || (root_phys == 0) || (asce == 0)
    then err (from_generic invalid_arg)
    else ok tt

unfoldable pub validate_gate_entry : Bool → ℕ → ℕ → ℕ → Result (Unit {0})
validate_gate_entry initialized caller_domain_id gate_id requested =
    if not initialized
    then err (from_generic invalid_arg)
    else if requested == 0
    then err (from_generic invalid_arg)
    else if leb max_domains caller_domain_id
    then err (from_generic invalid_arg)
    else if ltb 0x1f (gate_id / 2 ^ 5)
    then err (from_generic invalid_arg)
    else ok tt

-- `validate_portal`; the share right is bit 2, and the two domain IDs are discarded.
unfoldable pub validate_portal : Bool → ℕ → ℕ → ℕ → Result (Unit {0})
validate_portal initialized va_start va_end requested =
    if not initialized
    then err (from_generic invalid_arg)
    else if leb va_end va_start
    then err (from_generic invalid_arg)
    else if not (bit_and requested (2 ^ 2) == 2 ^ 2)
    then err (from_generic invalid_arg)
    else ok tt
