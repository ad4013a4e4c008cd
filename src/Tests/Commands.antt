-- ===== src/Tests/Commands.antt =====
-- The command handlers on whole requests.
use qemu_bmc.Base.{◌≡◌, refl, Bytes, false, [], ◌∷◌, ◌++◌, arith, replicate, bytes_eq}
use qemu_bmc.Bmc.Accounts.{authenticate}
use qemu_bmc.Bmc.Invariant.{new_state-IsWellFormed}
use qemu_bmc.Bmc.Slots.{first_slot}
use qemu_bmc.Bmc.State.{new_state}
use qemu_bmc.Bmc.Users.{lookup_user_by_name_locked}
use qemu_bmc.Ipmi.Chassis.{handle_set_boot_options, handle_get_boot_options}
use qemu_bmc.Ipmi.Chassis.BootOptions.{flags_of, bios_setup, get-set_boot_options}
use qemu_bmc.Ipmi.Env.{reply}
use qemu_bmc.Ipmi.RmcpPlus.Rakp.{rakp1_password, rakp3_password}
use qemu_bmc.Ipmi.RmcpPlus.Rakp.Refusals.{disabled_user_still_exchanges}
use qemu_bmc.Ipmi.Types.Code
use qemu_bmc.Ipmi.User.{set_enabled}
use qemu_bmc.Tests.Fixtures.{admin, secret, bmc, machine, mi, silent_host}

-- Slot 3 and a password field of 16 bytes.
abbrev set_request : Bytes
set_request = 3 ∷ 2 ∷ (secret ++ replicate 14 0)

abbrev test_request : Bytes
test_request = 3 ∷ 3 ∷ (admin ++ replicate 13 0)

abbrev name_request : Bytes
name_request = 3 ∷ (admin ++ replicate 13 0)

get-set_boot_options_example :
    let req : Bytes = 0x05 ∷ 0xA0 ∷ 0x18 ∷ 0 ∷ 0 ∷ 0 ∷ [] in
    let (m', r) = handle_set_boot_options mi req machine in
    (r ≡ reply Code.ok [])
    × (handle_get_boot_options mi (5 ∷ 0 ∷ 0 ∷ []) m' ≡ reply Code.ok (flags_of req))
get-set_boot_options_example =
    get-set_boot_options silent_host (0x05 ∷ 0xA0 ∷ 0x18 ∷ 0 ∷ 0 ∷ 0 ∷ []) (0 ∷ 0 ∷ []) machine
      (omega arith) refl bios_setup

disabled_user_still_exchanges_example :
    let s' = (set_enabled false 2 bmc).0 in
    (authenticate s' admin secret ≡ false)
    × (rakp1_password s' admin secret admin ≡ rakp1_password bmc admin secret admin)
    × (rakp3_password s' secret admin ≡ rakp3_password bmc secret admin)
unfolding lookup_user_by_name_locked first_slot new_state bytes_eq
disabled_user_still_exchanges_example =
    disabled_user_still_exchanges 2 bmc admin secret admin secret
      (new_state-IsWellFormed admin secret).0 (omega arith, omega arith) refl
