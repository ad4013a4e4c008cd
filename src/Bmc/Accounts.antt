-- ===== src/Bmc/Accounts.antt =====
-- internal/bmc/state.go: the account operations of the Redfish AccountService and Authenticate.
pub mod Create
pub mod Update
use qemu_bmc.Base.{
  Result, ok, err, ℕ, zero, suc, ◌+◌, Bytes, Bool, true, false, List, [], ◌∷◌, Option, none, some,
  bytes_eq, not, if◌then◌else◌, ◌&&◌, ◌||◌,
}
use qemu_bmc.Bmc.State.{
  State, UserSlot, UserAccess, Account, AccountUpdate, BmcError, user_exists, no_free_slot,
  not_found, empty_name, free_slot, slot, set_slot, validate_user_id, max_users,
}
use qemu_bmc.Bmc.Slots.{first_slot}
use qemu_bmc.Bmc.Users.{lookup_user_by_name_locked}

unfoldable pub account_locked : State → ℕ → Account
account_locked s id = record {
  id = id;
  name = (slot s id).name;
  privilege = (slot s id).access.privilege_limit;
  enabled = (slot s id).access.enabled;
}

-- The named slots from slot `i` on, within `n` slots.
pub accounts_from : ℕ → ℕ → State → List Account
unfolding account_locked
accounts_from zero i s = []
accounts_from (suc n) i s =
    let rest = accounts_from n (i + 1) s in
    if bytes_eq (slot s i).name [] then rest else account_locked s i ∷ rest

unfoldable pub accounts : State → List Account
accounts s = accounts_from max_users 1 s

unfoldable pub account : State → ℕ → Option Account
unfolding account_locked
account s id = elim (validate_user_id id) [
  | some e ↦ none
  | none ↦ if bytes_eq (slot s id).name [] then none else some (account_locked s id)
]

unfoldable pub new_slot : Bytes → Bytes → ℕ → Bool → UserSlot
new_slot name password privilege enabled = record {
  name = name;
  password = password;
  access = record {
    privilege_limit = privilege;
    enabled = enabled;
    ipmi_messaging = true;
    link_auth = true;
    callin_callback = false;
  };
}

-- The search for a free slot begins at slot 2.
unfoldable pub create_account : Bytes → Bytes → ℕ → Bool → State → State × Result BmcError ℕ
create_account name password privilege enabled s =
    if bytes_eq name [] then (s, err empty_name) else elim (lookup_user_by_name_locked s name) [
      | some _ ↦ (s, err user_exists)
      | none ↦ elim (first_slot (λ u. bytes_eq u.name []) 14 2 s.users) [
        | none ↦ (s, err no_free_slot)
        | some i ↦ (set_slot s i (new_slot name password privilege enabled), ok i)
      ]
    ]

abbrev pub or_keep {ℓ} : {A : Type ℓ} → Option A → A → A
or_keep none a = a
or_keep (some b) a = b

-- The writes that follow the name: each field that is given replaces the old one.
unfoldable pub write_fields : AccountUpdate → UserSlot → UserSlot
write_fields u old = record {
  name = or_keep u.name old.name;
  password = or_keep u.password old.password;
  access = record (old.access) {
    privilege_limit = or_keep u.privilege old.access.privilege_limit;
    enabled = or_keep u.enabled old.access.enabled;
  };
}

-- `u.Name != nil && *u.Name == ""`
abbrev pub is_empty_name : Option Bytes → Bool
is_empty_name none = false
is_empty_name (some n) = bytes_eq n []

-- `u.Name != nil && *u.Name != slot.name`, and the new name is taken.
unfoldable pub name_clash : State → UserSlot → Option Bytes → Bool
name_clash s old none = false
name_clash s old (some n) =
    not (bytes_eq n old.name)
    && elim (lookup_user_by_name_locked s n) [ some _ ↦ true | none ↦ false ]

unfoldable pub update_account : ℕ → AccountUpdate → State → State × Option BmcError
update_account id u s = elim (validate_user_id id) [
  | some e ↦ (s, some not_found)
  | none ↦
      if is_empty_name u.name
      then (s, some empty_name)
      else if bytes_eq (slot s id).name []
      then (s, some not_found)
      else if name_clash s (slot s id) u.name
      then (s, some user_exists)
      else (set_slot s id (write_fields u (slot s id)), none)
]

unfoldable pub delete_account : ℕ → State → State × Option BmcError
delete_account id s = elim (validate_user_id id) [
  | some e ↦ (s, some not_found)
  | none ↦
      if bytes_eq (slot s id).name [] then (s, some not_found) else (set_slot s id free_slot, none)
]

unfoldable pub authenticate : State → Bytes → Bytes → Bool
authenticate s name password =
    if bytes_eq name [] then false else elim (lookup_user_by_name_locked s name) [
      | none ↦ false
      | some id ↦
          if not (slot s id).access.enabled || bytes_eq (slot s id).password []
          then false
          else bytes_eq (slot s id).password password
    ]
