-- ===== src/Dgp/Cap/Token.antt =====
-- `cap_type`, `cap_rights` and `cap_token` of zxfoundation/dgp/cap.zcomponent/types.cxxm. An
-- enumeration that a token's bits are cast to is its u16, since any value can come out.
pub mod Laws
use zxfoundation.Base.{ℕ, ◌-◌, ◌*◌, ◌/◌, ◌%◌, ◌^◌, Bool, not, ◌&&◌, ◌==◌, bit_and, bit_or}

-- The enumerators of `cap_type` that the nucleus names.
abbrev pub none_type : ℕ
none_type = 0

abbrev pub domain_type : ℕ
domain_type = 1

abbrev pub gate_type : ℕ
gate_type = 2

abbrev pub portal_type : ℕ
portal_type = 3

abbrev pub memory_type : ℕ
memory_type = 6

-- `cap_rights::none`, `cap_rights::delegate` and `cap_rights::all`.
abbrev pub no_rights : ℕ
no_rights = 0

abbrev pub delegate_right : ℕ
delegate_right = 2 ^ 4

abbrev pub all_rights : ℕ
all_rights = 0xffff

-- Shifts of a u64.
abbrev pub shl : ℕ → ℕ → ℕ
shl x k = x * 2 ^ k % 2 ^ 64

abbrev pub shr : ℕ → ℕ → ℕ
shr x k = x / 2 ^ k

pub record CapToken : Type 0 where
  pub raw : ℕ

-- `cap_token::make`
unfoldable pub make : ℕ → ℕ → ℕ → ℕ → CapToken
make type obj_id gen rights = record {
  raw = bit_or (bit_or (bit_or (shl rights 48) (shl gen 32)) (shl obj_id 16)) type;
}

unfoldable pub token_type : CapToken → ℕ
token_type t = bit_and t.raw 0xffff

unfoldable pub object_id : CapToken → ℕ
object_id t = bit_and (shr t.raw 16) 0xffff

unfoldable pub generation : CapToken → ℕ
generation t = bit_and (shr t.raw 32) 0xffff

unfoldable pub token_rights : CapToken → ℕ
token_rights t = bit_and (shr t.raw 48) 0xffff

unfoldable pub has_right : CapToken → ℕ → Bool
unfolding token_rights
has_right t r = not (bit_and (token_rights t) r == 0)

unfoldable pub derive : CapToken → ℕ → CapToken
unfolding make token_type object_id generation token_rights
derive t subset = make (token_type t) (object_id t) (generation t) (bit_and (token_rights t) subset)

-- `explicit operator bool`
unfoldable pub is_valid : CapToken → Bool
unfolding token_type
is_valid t = not (t.raw == 0) && not (token_type t == none_type)

-- `operator==`
unfoldable pub token_eq : CapToken → CapToken → Bool
token_eq s t = s.raw == t.raw
