-- ===== src/Dgp/Cap/Token/Laws.antt =====
-- The packing of a token, and rights masks as sets.
use zxfoundation.Base.{ℕ, ◌+◌, ◌*◌, ◌/◌, ◌%◌, ◌^◌, ◌<◌, ◌≡◌, refl, ◌∙◌, arith, bit_and, bit_or}
use zxfoundation.Base.Bits.{
  bit_or-add, bit_and_u16, bit_and_comm, bit_and_assoc, bit_and_self, bit_and-le,
}
use zxfoundation.Dgp.Cap.Token.{
  CapToken, make, token_type, object_id, generation, token_rights, derive, shl,
}

abbrev pub IsU16 : ℕ → Type 0
IsU16 x = x < 2 ^ 16

raw-make :
    (type obj_id gen rights : ℕ)
    → IsU16 type
    → IsU16 obj_id
    → IsU16 gen
    → IsU16 rights
    → (make type obj_id gen rights).raw ≡ rights * 2 ^ 48 + gen * 2 ^ 32 + obj_id * 2 ^ 16 + type
unfolding make
raw-make type obj_id gen rights t o g r =
    rw (high, wide, narrow) (rw upper (rw middle (rw lower (omega arith))))
  where
    high : shl rights 48 ≡ rights * 2 ^ 48
    high = omega arith

    wide : shl gen 32 ≡ gen * 2 ^ 32
    wide = omega arith

    narrow : shl obj_id 16 ≡ obj_id * 2 ^ 16
    narrow = omega arith

    upper : bit_or (rights * 2 ^ 48) (gen * 2 ^ 32) ≡ rights * 2 ^ 48 + gen * 2 ^ 32
    upper = bit_or-add 48 rights _ _ refl (omega arith)

    middle :
        bit_or (rights * 2 ^ 48 + gen * 2 ^ 32) (obj_id * 2 ^ 16)
        ≡ rights * 2 ^ 48 + gen * 2 ^ 32 + obj_id * 2 ^ 16
    middle = bit_or-add 32 (rights * 2 ^ 16 + gen) _ _ (omega arith) (omega arith)

    lower :
        bit_or (rights * 2 ^ 48 + gen * 2 ^ 32 + obj_id * 2 ^ 16) type
        ≡ rights * 2 ^ 48 + gen * 2 ^ 32 + obj_id * 2 ^ 16 + type
    lower = bit_or-add 16 (rights * 2 ^ 32 + gen * 2 ^ 16 + obj_id) _ _ (omega arith) (omega arith)

-- The four fields of a token, each a u16, come back from the word that `make` packs them into.
pub make_fields :
    (type obj_id gen rights : ℕ)
    → IsU16 type
    → IsU16 obj_id
    → IsU16 gen
    → IsU16 rights
    → let t = make type obj_id gen rights in
      (token_type t ≡ type)
      × (object_id t ≡ obj_id)
      × (generation t ≡ gen)
      × (token_rights t ≡ rights)
unfolding token_type object_id generation token_rights
make_fields type obj_id gen rights t o g r = rw (raw-make type obj_id gen rights t o g r) (
  bit_and_u16 _ ∙ omega arith,
  bit_and_u16 _ ∙ omega arith,
  bit_and_u16 _ ∙ omega arith,
  bit_and_u16 _ ∙ omega arith,
)

-- The fields as digits of the word in base 2 ^ 16.
pub field_digits :
    (t : CapToken)
    → (token_type t ≡ t.raw % 2 ^ 16)
      × (object_id t ≡ t.raw / 2 ^ 16 % 2 ^ 16)
      × (generation t ≡ t.raw / 2 ^ 32 % 2 ^ 16)
      × (token_rights t ≡ t.raw / 2 ^ 48 % 2 ^ 16)
unfolding token_type object_id generation token_rights
field_digits t = (bit_and_u16 _, bit_and_u16 _, bit_and_u16 _, bit_and_u16 _)

raw-make_of_fields :
    (t : CapToken)
    → t.raw < 2 ^ 64
    → (make (token_type t) (object_id t) (generation t) (token_rights t)).raw ≡ t.raw
raw-make_of_fields t h = omega (
  arith,
  field_digits t,
  raw-make (token_type t) (object_id t) (generation t) (token_rights t)
      (omega (arith, field_digits t)) (omega (arith, field_digits t))
      (omega (arith, field_digits t)) (omega (arith, field_digits t)),
)

-- A token of 64 bits is the packing of its own fields: no bit of the word is unused.
make_of_fields :
    (t : CapToken)
    → t.raw < 2 ^ 64
    → make (token_type t) (object_id t) (generation t) (token_rights t) ≡ t
make_of_fields t h = λ i. record { raw = raw-make_of_fields t h i }

abbrev pub Subset : ℕ → ℕ → Type 0
Subset a b = bit_and a b ≡ a

bit_and-Subset : (a b : ℕ) → Subset (bit_and a b) a × Subset (bit_and a b) b
bit_and-Subset a b = (
  rw (bit_and_comm a b, bit_and_assoc b a a, bit_and_self a),
  rw (bit_and_assoc a b b, bit_and_self b),
)

-- `derive` keeps the type, the slot and the generation, and never adds a right: what is left is
-- within the token's rights and within the mask asked for.
derive_lem :
    (t : CapToken) (subset : ℕ)
    → let d = derive t subset in
      (token_type d ≡ token_type t)
      × (object_id d ≡ object_id t)
      × (generation d ≡ generation t)
      × Subset (token_rights d) (token_rights t)
      × Subset (token_rights d) subset
unfolding derive
derive_lem t subset =
    let bounds : IsU16 (token_type t)
        × IsU16 (object_id t)
        × IsU16 (generation t)
        × IsU16 (bit_and (token_rights t) subset) =
      omega (arith, field_digits t, bit_and-le (token_rights t) subset) in
    let fields =
      make_fields (token_type t) (object_id t) (generation t) (bit_and (token_rights t) subset)
        bounds.0 bounds.1 bounds.2 bounds.3 in
    (
      fields.0,
      fields.1,
      fields.2,
      rw fields.3 (bit_and-Subset (token_rights t) subset).0,
      rw fields.3 (bit_and-Subset (token_rights t) subset).1,
    )
