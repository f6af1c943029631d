-- ===== src/Dgp/Cap/Tests/Scenario.antt =====
-- A small run of the capability table of zxfoundation/dgp/cap.zcomponent.
use zxfoundation.Base.{
  ℕ, ◌≡◌, refl, true, false, none, some, done, ok, err, from_memory, capability_invalid, arith,
  if◌then◌else◌, ◌==◌,
}
use zxfoundation.Base.Arrays.{update}
use zxfoundation.Scoms.Kobject.{active, domain, Bobject, Finalizer, try_get, put}
use zxfoundation.Scoms.Kobject.Counting.{Confined}
use zxfoundation.Dgp.Cap.Token.{
  CapToken, make, token_type, object_id, generation, token_rights, is_valid, has_right, domain_type,
}
use zxfoundation.Dgp.Cap.Slots.{
  Slot, Lookup, CapState, empty_slot, retired, slot_for, validate_slot, validate_target,
  issue_locked, ensure_capabilities, lookup_kobject, issue_at, free_slot, put_target,
}
use zxfoundation.Dgp.Cap.Sound.{IsValid}
use zxfoundation.Dgp.Cap.Preserve.{issue_locked-IsValid}
use zxfoundation.Dgp.Cap.Ops.{
  cap_issue, cap_duplicate, cap_duplicate_for, cap_release, cap_revoke_target, retire_at, each_slot,
  revoke_target_slot,
}
use zxfoundation.Dgp.Cap.Reach.{issues, step}
use zxfoundation.Dgp.Cap.Authority.{Authorized, Names}

-- Every address holds an active domain whose ID is the address.
abbrev pub domain_at : ℕ → Bobject
domain_at p = record {
  id = p;
  type = domain;
  state = active;
  count = 1;
  generation = 3;
  object_flags = 0;
}

abbrev pub reclaim : Finalizer
reclaim h p = done (update h p (record (h p) { count = 0 }))

pub reclaim-Confined : Confined (some reclaim)
reclaim-Confined h p h' e = (λ q ne. ground arith, ground arith)

abbrev pub find_domain : Lookup
find_domain h obj_id = some obj_id

abbrev pub boot : CapState
boot = record {
  heap = domain_at;
  finalizer = some reclaim;
  capabilities = none;
  lookup_table = λ type. if type == domain_type then some find_domain else none;
}

pub boot-IsValid : IsValid boot
boot-IsValid = record {
  confined = reclaim-Confined;
  heap_words = λ p. omega arith;
  sound = λ slots e. cc;
}

-- Read, write and delegate.
abbrev pub rights : ℕ
rights = 0x13

abbrev pub token : CapToken
token = make domain_type 1 1 rights

abbrev pub first_slot : Slot
first_slot = record {
  target = some 7;
  type = domain_type;
  rights = rights;
  owner_domain = 5;
  target_generation = 3;
  generation = 1;
  active = true;
}

abbrev pub slots1 : ℕ → Slot
slots1 = update (λ i. empty_slot) 1 first_slot

abbrev pub issued : CapState
issued = record boot {
  heap = update domain_at 7 (record (domain_at 7) { count = 2 });
  capabilities = some slots1;
}

pub issue_token : cap_issue true boot domain_type 7 rights 5 ≡ done (ok token, issued)
unfolding cap_issue issue_locked ensure_capabilities lookup_kobject free_slot issue_at try_get make
issue_token = refl

pub issued-IsValid : IsValid issued
unfolding cap_issue
issued-IsValid =
    issue_locked-IsValid true boot domain_type 7 rights 5 (ok token) issue_token boot-IsValid

pub raw_token : token.raw ≡ 0x0013_0001_0001_0001
unfolding make
raw_token = refl

pub has_rights : (has_right token 2 ≡ true) × (has_right token 4 ≡ false)
unfolding has_right make
has_rights = (refl, refl)

pub validated : validate_slot issued token 2 5 true ≡ ok 7
unfolding validate_slot slot_for validate_target make object_id generation token_type token_rights
    is_valid
validated = refl

pub not_the_owner : validate_slot issued token 2 6 true ≡ err (from_memory capability_invalid)
unfolding validate_slot slot_for validate_target make object_id generation token_type token_rights
    is_valid
not_the_owner = refl

abbrev pub released : CapState
released = record issued {
  heap = update issued.heap 7 (record (domain_at 7) { count = 1 });
  capabilities = some (update slots1 1 (retired first_slot));
}

pub release_token : cap_release issued token ≡ done (ok tt, released)
unfolding cap_release retire_at slot_for put_target put make object_id generation token_type
    token_rights is_valid
release_token = refl

-- The slot is used again, with the next generation.
abbrev pub second_token : CapToken
second_token = make domain_type 1 2 rights

abbrev pub reissued : CapState
reissued = record released {
  heap = update released.heap 8 (record (domain_at 8) { count = 2 });
  capabilities = some (
      update (update slots1 1 (retired first_slot)) 1
        (record first_slot { target = some 8; generation = 2 }));
}

pub reissue_token :
    cap_issue true released domain_type 8 rights 5 ≡ done (ok second_token, reissued)
unfolding cap_issue issue_locked ensure_capabilities lookup_kobject free_slot issue_at try_get make
reissue_token = refl

pub token_Names : Names slots1 token
unfolding make object_id generation token_type token_rights
token_Names = record {
  index_pos = omega arith;
  index_lt = omega arith;
  on = refl;
  generation_eq = refl;
  type_eq = refl;
  rights_eq = refl;
}

pub token_Authorized : Authorized issued slots1 token 2 7
unfolding make token_rights is_valid object_id token_type
token_Authorized = record {
  valid = refl;
  present = refl;
  names = token_Names;
  target = refl;
  same_object = refl;
  not_dying = λ e. cc;
  not_destroyed = λ e. cc;
  enough = refl;
}

pub issue_step : step boot (issues true domain_type 7 rights 5) ≡ done issued
unfolding step cap_issue issue_locked ensure_capabilities lookup_kobject free_slot issue_at try_get
    make
issue_step = refl

-- A second capability to the same domain, for itself: the third count.
abbrev pub copied : CapState
copied = record issued {
  heap = update issued.heap 7 (record (domain_at 7) { count = 3 });
  capabilities = some (update slots1 2 (record first_slot { rights = 2 }));
}

abbrev pub copy_token : CapToken
copy_token = make domain_type 2 1 2

pub duplicate_token : cap_duplicate true issued token 2 5 ≡ done (ok copy_token, copied)
unfolding cap_duplicate validate_slot slot_for validate_target make object_id generation token_type
    token_rights is_valid issue_locked ensure_capabilities lookup_kobject free_slot issue_at try_get
duplicate_token = refl

abbrev pub lent : CapState
lent = record issued {
  heap = update issued.heap 7 (record (domain_at 7) { count = 3 });
  capabilities = some (update slots1 2 (record first_slot { rights = 2; owner_domain = 6 }));
}

pub lend_token : cap_duplicate_for true issued token 2 5 6 ≡ done (ok copy_token, lent)
unfolding cap_duplicate_for validate_slot slot_for validate_target make object_id generation
    token_type token_rights is_valid issue_locked ensure_capabilities lookup_kobject free_slot
    issue_at try_get
lend_token = refl

pub revoke_seven : cap_revoke_target issued 7 ≡ done (ok 1, released)
unfolding cap_revoke_target each_slot revoke_target_slot put_target put
revoke_seven = refl
