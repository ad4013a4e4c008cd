-- ===== src/Tests/Redfish.antt =====
-- The AccountService and the middlewares on the default user table.
use qemu_bmc.Base.{ℕ, Bytes, ◌≡◌, refl, true, false, List, [], ◌∷◌, none, some, arith, bytes_eq}
use qemu_bmc.Base.Decimal.{ascii, itoa, itoa_rounds}
use qemu_bmc.Bmc.Accounts.{create_account, delete_account, new_slot, account, account_locked}
use qemu_bmc.Bmc.Invariant.{new_state-IsWellFormed}
use qemu_bmc.Bmc.Slots.{first_slot}
use qemu_bmc.Bmc.State.{State, new_state, validate_user_id}
use qemu_bmc.Bmc.Users.{lookup_user_by_name_locked}
use qemu_bmc.Redfish.Accounts.{
  CreateAccountRequest, PatchAccountRequest, handle_create_account, handle_get_account,
  validate_user_name, validate_password, privilege_for_role, role_for_privilege, to_manager_account,
  ManagerAccount,
}
use qemu_bmc.Redfish.Accounts.Bounds.{
  IsStored, AccountCall, post_account, patch_account_at, delete_account_at, run_account_calls,
  run_account_calls-IsStored, serve_account,
}
use qemu_bmc.Redfish.Accounts.Errors.{IsSettled, serve_account-IsSettled}
use qemu_bmc.Redfish.Accounts.RoundTrip.{get-created_account}
use qemu_bmc.Redfish.Http.{document, account_link}
use qemu_bmc.Redfish.Middleware.{
  HttpRequest, Handler, unauthorized, answered, is_public_path, trim_path, with_middleware,
}
use qemu_bmc.Redfish.Middleware.Access.{
  Trimmed, trim_path_unique, MayPass, with_middleware_guards, deleted_account_kept_out,
}
use qemu_bmc.Tests.Fixtures.{admin, secret, bmc}

abbrev operator : CreateAccountRequest
operator = record {
  user_name = ascii "op";
  password = ascii "pass";
  role_id = "Operator";
  enabled = none;
}

abbrev disable : PatchAccountRequest
disable = record { user_name = none; password = none; role_id = none; enabled = some false }

abbrev calls : List AccountCall
calls =
    post_account (some operator)
    ∷ patch_account_at (ascii "3") (some disable)
    ∷ delete_account_at (ascii "2")
    ∷ []

bmc-IsStored : IsStored bmc
unfolding new_state
bmc-IsStored = record {
  shape = (new_state-IsWellFormed admin secret).0;
  unique = (new_state-IsWellFormed admin secret).1;
  fits = λ i r. ground arith;
}

run_account_calls-IsStored_example : IsStored (run_account_calls calls bmc)
run_account_calls-IsStored_example = run_account_calls-IsStored calls bmc bmc-IsStored

serve_account-IsSettled_example : IsSettled bmc (serve_account (post_account (some operator)) bmc)
serve_account-IsSettled_example = serve_account-IsSettled (post_account (some operator)) bmc

abbrev with_operator : State
with_operator = (handle_create_account (some operator) bmc).0

abbrev operator_account : ManagerAccount
operator_account = record {
  odata_id = account_link (ascii "3");
  id = ascii "3";
  user_name = ascii "op";
  role_id = "Operator";
  enabled = true;
  account_types = "Redfish" ∷ "IPMI" ∷ [];
}

get-created_account_example :
    (handle_get_account (ascii "3") with_operator ≡ document 200 operator_account)
    × (operator_account.user_name ≡ operator.user_name)
    × (operator_account.role_id ≡ operator.role_id)
    × (operator_account.enabled ≡ true)
unfolding handle_create_account create_account bytes_eq lookup_user_by_name_locked first_slot
    new_state validate_user_name validate_password privilege_for_role role_for_privilege
    to_manager_account account account_locked new_slot validate_user_id itoa itoa_rounds
get-created_account_example =
    get-created_account operator bmc with_operator (account_link (ascii "3")) operator_account
      bmc-IsStored.shape refl

-- Answers 204 to everything.
abbrev next : Handler ℕ
next r s = (s, answered 204)

abbrev by_admin : HttpRequest
by_admin = record { path = ascii "/redfish/v1/Systems/"; credentials = some (admin, secret) }

with_middleware_guards_example :
    (path : Bytes) × Trimmed by_admin.path path
    × (MayPass by_admin path bmc
        → with_middleware admin secret next by_admin bmc
          ≡ next (record by_admin { path = path }) bmc)
    × (¬ (MayPass by_admin path bmc)
        → with_middleware admin secret next by_admin bmc ≡ (bmc, unauthorized))
with_middleware_guards_example =
    with_middleware_guards admin secret next by_admin bmc (λ e. cc) (λ e. cc)

systems_closed : (path : Bytes) → Trimmed by_admin.path path → is_public_path path ≡ false
unfolding is_public_path trim_path bytes_eq
systems_closed path trimmed = rw (← trim_path_unique trimmed) refl

deleted_account_kept_out_example :
    with_middleware admin secret next by_admin (delete_account 2 bmc).0
    ≡ ((delete_account 2 bmc).0, unauthorized)
unfolding bytes_eq delete_account validate_user_id new_state
deleted_account_kept_out_example =
    deleted_account_kept_out admin secret next 2 secret by_admin bmc (λ e. cc) (λ e. cc)
      bmc-IsStored.shape bmc-IsStored.unique refl refl systems_closed
