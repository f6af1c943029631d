-- ===== src/Scoms/MetadataTests.antt =====
-- Runs of the object metadata at concrete inputs.
use zxfoundation.Base.{ℕ, if◌then◌else◌, ◌==◌, ◌||◌, ◌≡◌, ◌≢◌, refl, Bool, true, some, ok}
use zxfoundation.Scoms.Kobject.{Heap, domain, active}
use zxfoundation.Scoms.Metadata.{
  ObjectMetadata, ObjectTable, blank, invalid_id, metadata_at, create_block, modify_at, find_locked,
  describes,
}
use zxfoundation.Scoms.Metadata.Ops.{registered, metadata, find_free, register_object}
use zxfoundation.Scoms.Metadata.History.{perform, registers, attaches, sets_reclaimer, no_metadata}
use zxfoundation.Scoms.Metadata.Lifetime.{register_object-metadata}

abbrev headers : Heap
headers = λ p. record {
  id = if p == 3 || p == 4 then 7 else invalid_id;
  type = domain;
  state = active;
  count = 1;
  generation = 2;
  object_flags = 0;
}

abbrev always : ℕ → Bool
always i = true

abbrev empty : ObjectTable
empty = no_metadata headers

abbrev parent_in : ObjectTable
parent_in = perform empty (registers always 3 1)

abbrev both_in : ObjectTable
both_in = perform parent_in (registers always 4 1)

abbrev family : ObjectTable
family = perform both_in (attaches 4 3)

abbrev owned_child : ObjectTable
owned_child = perform family (sets_reclaimer 4 (some 90))

-- The entry of the child, with its parent and its reclaimer.
abbrev child_entry : ObjectMetadata
child_entry = record (registered 4 1 0 blank) {
  parent_slot = 1;
  parent_type = domain;
  parent_id = 7;
  parent_generation = 2;
  reclaimer = some 90;
}

abbrev parent_entry : ObjectMetadata
parent_entry = record (registered 3 1 0 blank) { dependent_count = 1 }

register_object-parent : register_object always empty 3 1 ≡ (ok tt, parent_in)
unfolding perform register_object find_locked find_free create_block metadata_at modify_at describes
register_object-parent = refl

register_object-metadata_example :
    (metadata parent_in 3 ≡ ok (registered 3 1 0 blank))
    × ((q : ℕ) → 3 ≢ q → metadata parent_in q ≡ metadata empty q)
register_object-metadata_example =
    register_object-metadata always empty parent_in 3 1 register_object-parent
