-- ===== src/Redfish/Accounts.antt =====
-- internal/redfish/handler_accounts.go: the AccountService over the BMC user table. Decoding of the
-- body is json's: a request is `none` when the body is malformed.
pub mod Outcomes
pub mod Bounds
pub mod RoundTrip
pub mod Errors
use Prim.Native.String.{String}
use text.Mathlib.Text.{◌==◌ as str_eq}
use qemu_bmc.Base.{
  Result, ok, err, ℕ, Bytes, Bool, true, false, List, [], ◌∷◌, Option, none, some, bytes_eq, not,
  ltb, leb, length, ◌==◌, if◌then◌else◌, ◌&&◌, ◌||◌,
}
use qemu_bmc.Base.Decimal.{itoa, parse_uint8}
use qemu_bmc.Bmc.Accounts.{account, accounts, create_account, update_account, delete_account}
use qemu_bmc.Bmc.State.{
  State, Account, AccountUpdate, BmcError, user_exists, no_free_slot, not_found, empty_name,
  range_error,
}
use qemu_bmc.Redfish.Http.{
  Code, malformed_json, property_value_error, property_value_not_in_list, property_missing,
  resource_not_found, resource_already_exists, create_limit_reached, internal_error, Link,
  account_link, Reply, document, created_at, failure, no_content,
}

abbrev pub max_user_name_length : ℕ
max_user_name_length = 16

abbrev pub min_password_length : ℕ
min_password_length = 1

abbrev pub max_password_length : ℕ
max_password_length = 20

pub record AccountService : Type 0 where
  pub service_enabled : Bool
  pub min_password_length : ℕ
  pub max_password_length : ℕ

pub record ManagerAccount : Type 0 where
  pub odata_id : Link
  pub id : Bytes
  pub user_name : Bytes
  pub role_id : String
  pub enabled : Bool
  pub account_types : List String

pub record AccountCollection : Type 0 where
  pub members_count : ℕ
  pub members : List Link

pub record CreateAccountRequest : Type 0 where
  pub user_name : Bytes
  pub password : Bytes
  pub role_id : String
  pub enabled : Option Bool

pub record PatchAccountRequest : Type 0 where
  pub user_name : Option Bytes
  pub password : Option Bytes
  pub role_id : Option String
  pub enabled : Option Bool

-- The lookup in the map rolePrivileges.
unfoldable pub privilege_for_role : String → Option ℕ
privilege_for_role role =
    if str_eq role "Administrator"
    then some 4
    else if str_eq role "Operator"
    then some 3
    else if str_eq role "ReadOnly"
    then some 2
    else none

unfoldable pub role_for_privilege : ℕ → String
role_for_privilege privilege =
    if leb 4 privilege then "Administrator" else if privilege == 3 then "Operator" else "ReadOnly"

abbrev pub account_path : ℕ → Link
account_path id = account_link (itoa id)

unfoldable pub to_manager_account : Account → ManagerAccount
to_manager_account a = record {
  odata_id = account_path a.id;
  id = itoa a.id;
  user_name = a.name;
  role_id = role_for_privilege a.privilege;
  enabled = a.enabled;
  account_types = "Redfish" ∷ "IPMI" ∷ [];
}

-- validateUserName and validatePassword, `true` for nil.
unfoldable pub validate_user_name : Bytes → Bool
validate_user_name name = not (bytes_eq name [] || ltb max_user_name_length (length name))

unfoldable pub validate_password : Bytes → Bool
validate_password password =
    not (ltb (length password) min_password_length || ltb max_password_length (length password))

-- The {id} of the path, as a slot number.
abbrev pub account_id_from_request : Bytes → Option ℕ
account_id_from_request id = parse_uint8 id

abbrev pub handle_get_account_service : Reply AccountService
handle_get_account_service = document 200 (record {
  service_enabled = true;
  min_password_length = min_password_length;
  max_password_length = max_password_length;
})

abbrev pub account_members : List Account → List Link
account_members [] = []
account_members (a ∷ rest) = account_path a.id ∷ account_members rest

unfoldable pub handle_account_collection : State → Reply AccountCollection
handle_account_collection s = document 200 (record {
  members_count = length (account_members (accounts s));
  members = account_members (accounts s);
})

-- `a, _ := s.users.Account(id)`: the zero value when there is none.
abbrev pub account_or_zero : Option Account → Account
account_or_zero none = record { id = 0; name = []; privilege = 0; enabled = false }
account_or_zero (some a) = a

-- The switch over CreateAccount's error, and the answer to a creation.
abbrev pub created_reply : State × Result BmcError ℕ → State × Reply ManagerAccount
created_reply (s, err user_exists) = (s, failure 409 resource_already_exists)
created_reply (s, err no_free_slot) = (s, failure 400 create_limit_reached)
created_reply (s, err not_found) = (s, failure 500 internal_error)
created_reply (s, err empty_name) = (s, failure 500 internal_error)
created_reply (s, err range_error) = (s, failure 500 internal_error)
created_reply (s, ok id) =
    (s, created_at (account_path id) (to_manager_account (account_or_zero (account s id))))

abbrev pub enabled_or_true : Option Bool → Bool
enabled_or_true none = true
enabled_or_true (some b) = b

unfoldable pub handle_create_account :
    Option CreateAccountRequest → State → State × Reply ManagerAccount
handle_create_account none s = (s, failure 400 malformed_json)
handle_create_account (some req) s =
    if not (validate_user_name req.user_name)
    then (s, failure 400 property_value_error)
    else if not (validate_password req.password)
    then (s, failure 400 property_value_error)
    else elim (privilege_for_role req.role_id) [
      | none ↦ (s, failure 400 property_value_not_in_list)
      | some privilege ↦
          created_reply
            (create_account req.user_name req.password privilege (enabled_or_true req.enabled) s)
    ]

unfoldable pub handle_get_account : Bytes → State → Reply ManagerAccount
handle_get_account path_id s = elim (account_id_from_request path_id) [
  | none ↦ failure 404 resource_not_found
  | some id ↦ elim (account s id) [
    | none ↦ failure 404 resource_not_found
    | some a ↦ document 200 (to_manager_account a)
  ]
]

abbrev pub is_given {ℓ} : {A : Type ℓ} → Option A → Bool
is_given none = false
is_given (some a) = true

-- A field that is absent is not validated.
abbrev pub valid_if_given : (Bytes → Bool) → Option Bytes → Bool
valid_if_given p none = true
valid_if_given p (some bs) = p bs

-- The role that is given, turned into a privilege; an absent role stays absent.
abbrev pub patched_privilege : Option String → Option (Option ℕ)
patched_privilege none = some none
patched_privilege (some role) = elim (privilege_for_role role) [
  | none ↦ none
  | some privilege ↦ some (some privilege)
]

abbrev pub updated_reply : ℕ → State × Option BmcError → State × Reply ManagerAccount
updated_reply id (s, some not_found) = (s, failure 404 resource_not_found)
updated_reply id (s, some user_exists) = (s, failure 409 resource_already_exists)
updated_reply id (s, some no_free_slot) = (s, failure 500 internal_error)
updated_reply id (s, some empty_name) = (s, failure 500 internal_error)
updated_reply id (s, some range_error) = (s, failure 500 internal_error)
updated_reply id (s, none) = (s, document 200 (to_manager_account (account_or_zero (account s id))))

abbrev pub is_empty_patch_account : PatchAccountRequest → Bool
is_empty_patch_account req = not (
    is_given req.user_name || is_given req.password || is_given req.role_id || is_given req.enabled)

-- What follows the decoding of a PATCH body.
unfoldable pub patch_account : ℕ → PatchAccountRequest → State → State × Reply ManagerAccount
patch_account id req s =
    if is_empty_patch_account req
    then (s, failure 400 property_missing)
    else if not (valid_if_given validate_user_name req.user_name)
    then (s, failure 400 property_value_error)
    else if not (valid_if_given validate_password req.password)
    then (s, failure 400 property_value_error)
    else elim (patched_privilege req.role_id) [
      | none ↦ (s, failure 400 property_value_not_in_list)
      | some privilege ↦ updated_reply id (
          update_account id
            (record {
              name = req.user_name;
              password = req.password;
              privilege = privilege;
              enabled = req.enabled;
            })
            s)
    ]

unfoldable pub handle_patch_account :
    Bytes → Option PatchAccountRequest → State → State × Reply ManagerAccount
handle_patch_account path_id body s = elim (account_id_from_request path_id) [
  | none ↦ (s, failure 404 resource_not_found)
  | some id ↦ elim body [
    | none ↦ (s, failure 400 malformed_json)
    | some req ↦ patch_account id req s
  ]
]

unfoldable pub handle_delete_account : Bytes → State → State × Reply ManagerAccount
handle_delete_account path_id s = elim (account_id_from_request path_id) [
  | none ↦ (s, failure 404 resource_not_found)
  | some id ↦
      let (s', e) = delete_account id s in
      elim e [ some x ↦ (s', failure 404 resource_not_found) | none ↦ (s', no_content) ]
]
