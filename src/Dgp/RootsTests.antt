-- ===== src/Dgp/RootsTests.antt =====
-- Runs of the root binding and of the gate check at concrete inputs.
use zxfoundation.Base.{◌≡◌, refl, true, ok, err, from_generic, invalid_arg}
use zxfoundation.Scoms.Kobject.{sealed}
use zxfoundation.Dgp.Isolation.{IsolationDomain, active_skey}
use zxfoundation.Dgp.Roots.{bind_asce_root, validate_portal}

abbrev rootless : IsolationDomain
rootless = record {
  domain_id = 3;
  asce = 0;
  root_phys = 0;
  storage_key = 8;
  numa_node = 0;
  revocation_epoch = 0;
  storage_key_generation = 1;
  storage_key_state = active_skey;
  granted_rights = 0;
}

abbrev rooted : IsolationDomain
rooted = record rootless { asce = 15; root_phys = 4096 }

rootless-bound : bind_asce_root rootless sealed 15 4096 ≡ (ok tt, rooted)
unfolding bind_asce_root
rootless-bound = refl

portal_backwards : validate_portal true 8192 4096 4 ≡ err (from_generic invalid_arg)
unfolding validate_portal
portal_backwards = refl
