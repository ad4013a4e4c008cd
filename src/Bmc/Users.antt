-- ===== src/Bmc/Users.antt =====
-- internal/bmc/state.go: the operations on user slots by number, which the IPMI commands call.
pub mod Passwords
use qemu_bmc.Base.{
  Result, ok, err, ℕ, Bytes, Bool, true, false, [], ◌∷◌, Option, none, some, bytes_eq,
  if◌then◌else◌,
}
use qemu_bmc.Bmc.State.{
  State, UserSlot, UserAccess, BmcError, no_access, slot, set_slot, validate_user_id, max_users,
}
use qemu_bmc.Bmc.Slots.{first_slot, count_slots}

unfoldable pub get_user_name : State → ℕ → Result BmcError Bytes
get_user_name s id = elim (validate_user_id id) [ some e ↦ err e | none ↦ ok (slot s id).name ]

unfoldable pub get_user_password : State → ℕ → Result BmcError Bytes
get_user_password s id = elim (validate_user_id id) [
  | some e ↦ err e
  | none ↦ ok (slot s id).password
]

-- The channel is accepted and not used, as in the source.
unfoldable pub get_user_access : State → ℕ → ℕ → Result BmcError UserAccess
get_user_access s channel id = elim (validate_user_id id) [
  | some e ↦ err e
  | none ↦ ok (slot s id).access
]

-- A write returns the state and the error, `none` for Go's nil.
unfoldable pub set_user_name : ℕ → Bytes → State → State × Option BmcError
set_user_name id name s = elim (validate_user_id id) [
  | some e ↦ (s, some e)
  | none ↦ (set_slot s id (record (slot s id) { name = name }), none)
]

unfoldable pub set_user_password : ℕ → Bytes → State → State × Option BmcError
set_user_password id password s = elim (validate_user_id id) [
  | some e ↦ (s, some e)
  | none ↦ (set_slot s id (record (slot s id) { password = password }), none)
]

unfoldable pub set_user_access : ℕ → ℕ → UserAccess → State → State × Option BmcError
set_user_access channel id access s = elim (validate_user_id id) [
  | some e ↦ (s, some e)
  | none ↦ (set_slot s id (record (slot s id) { access = access }), none)
]

unfoldable pub check_password : State → ℕ → Bytes → Bool
check_password s id password = elim (validate_user_id id) [
  | some e ↦ false
  | none ↦
      let stored = (slot s id).password in
      if bytes_eq stored [] then false else bytes_eq stored password
]

unfoldable pub enabled_user_count : State → ℕ
enabled_user_count s = count_slots (λ u. u.access.enabled) max_users 1 0 s.users

-- lookupUserByNameLocked: the lowest slot of that name.
unfoldable pub lookup_user_by_name_locked : State → Bytes → Option ℕ
lookup_user_by_name_locked s name = first_slot (λ u. bytes_eq u.name name) max_users 1 s.users

unfoldable pub lookup_user_by_name : State → Bytes → Option ℕ
lookup_user_by_name s name = if bytes_eq name [] then none else lookup_user_by_name_locked s name
