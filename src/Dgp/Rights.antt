-- ===== src/Dgp/Rights.antt =====
-- The authority bits of a domain: `isolation_rights` of
-- zxfoundation/dgp/isolation.zcomponent/types.cxxm.
use zxfoundation.Base.{ℕ, ◌^◌, Bool, ◌==◌, bit_and}

-- The members that operations ask for.
abbrev pub no_rights : ℕ
no_rights = 0

abbrev pub enter_right : ℕ
enter_right = 2 ^ 0

abbrev pub map_right : ℕ
map_right = 2 ^ 1

abbrev pub share_right : ℕ
share_right = 2 ^ 2

abbrev pub signal_right : ℕ
signal_right = 2 ^ 3

abbrev pub io_right : ℕ
io_right = 2 ^ 4

abbrev pub lifecycle_right : ℕ
lifecycle_right = 2 ^ 5

abbrev pub delegate_right : ℕ
delegate_right = 2 ^ 6

abbrev pub debug_right : ℕ
debug_right = 2 ^ 8

abbrev pub sched_right : ℕ
sched_right = 2 ^ 9

abbrev pub console_right : ℕ
console_right = 2 ^ 10

abbrev pub service_right : ℕ
service_right = 2 ^ 11

-- `has_all_rights`
unfoldable pub has_all_rights : ℕ → ℕ → Bool
has_all_rights available requested = bit_and available requested == requested
