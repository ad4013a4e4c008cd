-- ===== src/Ipmi/User.antt =====
-- internal/ipmi/handler_user.go: user names, passwords and access rights by slot number.
pub mod Names
pub mod Passwords
use qemu_bmc.Base.{
  ℕ, ◌+◌, ◌%◌, Bytes, Bool, true, false, List, [], ◌∷◌, Option, none, some, ltb, ◌==◌, length,
  byte_at, take, drop, bit_set, if◌then◌else◌, Result, ok, err,
}
use qemu_bmc.Bmc.State.{State, UserAccess, BmcError, no_access, max_users}
use qemu_bmc.Bmc.Users.{
  get_user_name, get_user_access, set_user_name, set_user_password, set_user_access, check_password,
  enabled_user_count,
}
use qemu_bmc.Ipmi.Env.{Reply, reply}
use qemu_bmc.Ipmi.Channel.{or_flag}
use qemu_bmc.Ipmi.Types.Code
use qemu_bmc.Ipmi.Wire.{pad16}

-- strings.TrimRight(s, "\x00")
abbrev pub trim_right_nul : Bytes → Bytes
trim_right_nul [] = []
trim_right_nul (b ∷ bs) = elim (trim_right_nul bs) [
  | [] ↦ if b == 0 then [] else b ∷ []
  | x ∷ xs ↦ b ∷ x ∷ xs
]

abbrev pub flags_byte : UserAccess → ℕ
flags_byte a =
    or_flag a.callin_callback 0x40
      (or_flag a.link_auth 0x20 (or_flag a.ipmi_messaging 0x10 (a.privilege_limit % 16)))

unfoldable pub handle_get_user_access : Bytes → State → Reply
handle_get_user_access req s =
    if ltb (length req) 2
    then reply Code.invalid_field []
    else elim (get_user_access s (byte_at req 0 % 16) (byte_at req 1 % 64)) [
      | err e ↦ reply Code.parameter_out_of_range []
      | ok access ↦
          reply Code.ok (max_users % 64 ∷ enabled_user_count s % 64 ∷ 0x01 ∷ flags_byte access ∷ [])
    ]

unfoldable pub handle_get_user_name : Bytes → State → Reply
handle_get_user_name req s =
    if ltb (length req) 1
    then reply Code.invalid_field []
    else elim (get_user_name s (byte_at req 0 % 64)) [
      | err e ↦ reply Code.parameter_out_of_range []
      | ok name ↦ reply Code.ok (pad16 name)
    ]

-- The completion code of a write that may have failed.
abbrev pub written : State × Option BmcError → State × Reply
written (s, none) = (s, reply Code.ok [])
written (s, some e) = (s, reply Code.parameter_out_of_range [])

unfoldable pub handle_set_user_name : Bytes → State → State × Reply
handle_set_user_name req s =
    if ltb (length req) 17
    then (s, reply Code.invalid_field [])
    else written (set_user_name (byte_at req 0 % 64) (trim_right_nul (take 16 (drop 1 req))) s)

-- Operations 0 and 1 of Set User Password: only the enabled flag changes.
unfoldable pub set_enabled : Bool → ℕ → State → State × Reply
set_enabled flag id s = elim (get_user_access s 0 id) [
  | err e ↦ (s, reply Code.parameter_out_of_range [])
  | ok access ↦ written (set_user_access 0 id (record access { enabled = flag }) s)
]

-- The password field: 16 bytes, or 20 when bit 7 of the first byte is set.
abbrev pub pass_len : Bytes → ℕ
pass_len req = if bit_set (byte_at req 0) 7 then 20 else 16

abbrev pub password_field : Bytes → Bytes
password_field req = trim_right_nul (take (pass_len req) (drop 2 req))

unfoldable pub handle_set_user_password : Bytes → State → State × Reply
unfolding set_enabled
handle_set_user_password req s =
    let id = byte_at req 0 % 64 in
    let operation = byte_at req 1 % 4 in
    if ltb (length req) 2
    then (s, reply Code.invalid_field [])
    else if operation == 0x00
    then set_enabled false id s
    else if operation == 0x01
    then set_enabled true id s
    else if operation == 0x02
    then (if ltb (length req) (2 + pass_len req)
        then (s, reply Code.invalid_field [])
        else written (set_user_password id (password_field req) s))
    else if ltb (length req) (2 + pass_len req)
    then (s, reply Code.invalid_field [])
    else if check_password s id (password_field req)
    then (s, reply Code.ok [])
    else (s, reply Code.invalid_field [])

abbrev pub or_no_access : Result BmcError UserAccess → UserAccess
or_no_access (ok a) = a
or_no_access (err e) = no_access

unfoldable pub handle_set_user_access : Bytes → State → State × Reply
handle_set_user_access req s =
    let channel = byte_at req 0 % 16 in
    let id = byte_at req 1 % 64 in
    let existing = or_no_access (get_user_access s channel id) in
    let access : UserAccess = record {
      privilege_limit = byte_at req 2 % 16;
      enabled = existing.enabled;
      ipmi_messaging = bit_set (byte_at req 0) 4;
      link_auth = bit_set (byte_at req 0) 5;
      callin_callback = bit_set (byte_at req 0) 6;
    } in
    if ltb (length req) 4
    then (s, reply Code.invalid_field [])
    else written (set_user_access channel id access s)
