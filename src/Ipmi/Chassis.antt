-- ===== src/Ipmi/Chassis.antt =====
-- internal/ipmi/handler_chassis.go: power state, power control and boot options.
pub mod BootOptions
use Prim.Native.String.{String}
use text.Mathlib.Text.{◌==◌ as str_eq}
use qemu_bmc.Base.{
  ℕ, ◌*◌, ◌/◌, ◌%◌, Bytes, Bool, true, false, [], ◌∷◌, Option, none, some, ltb, ◌==◌, ◌||◌, not,
  length, byte_at, bit_set, bit_or, shl8, if◌then◌else◌, Result, ok, err,
}
use qemu_bmc.Machine.Types.{PowerState, power_on, power_off, BootOverride, MachineError}
use qemu_bmc.Ipmi.Env.{MachineInterface, Reply, reply}
use qemu_bmc.Ipmi.Channel.{or_flag}
use qemu_bmc.Ipmi.Types.Code
use qemu_bmc.Ipmi.Wire.{IpmiMessage}

-- The boot device of bits 5:2, as the name that the machine takes.
unfoldable pub device_target : ℕ → String
device_target bits =
    if bits == 0x00
    then "None"
    else if bits == 0x01
    then "Pxe"
    else if bits == 0x02
    then "Hdd"
    else if bits == 0x05
    then "Cd"
    else if bits == 0x06
    then "BiosSetup"
    else "None"

unfoldable pub target_device : String → ℕ
target_device target =
    if str_eq target "Pxe"
    then 0x01
    else if str_eq target "Hdd"
    then 0x02
    else if str_eq target "Cd"
    then 0x05
    else if str_eq target "BiosSetup"
    then 0x06
    else 0x00

unfoldable pub requested_override : Bytes → BootOverride
unfolding device_target
requested_override req = record {
  enabled = if bit_set (byte_at req 1) 7 then "Once" else "Disabled";
  target = device_target (byte_at req 2 / 4 % 16);
  mode = if bit_set (byte_at req 1) 5 then "UEFI" else "Legacy";
}

-- The seven bytes of the boot flags parameter.
unfoldable pub boot_flags_reply : BootOverride → Bytes
unfolding target_device
boot_flags_reply boot =
    let valid : ℕ = if not (str_eq boot.enabled "Disabled") then 0x80 else 0 in
    let flags = or_flag (str_eq boot.mode "UEFI") 0x20 valid in
    0x01 ∷ bit_or 0x80 0x05 ∷ flags ∷ shl8 (target_device boot.target) 2 ∷ 0 ∷ 0 ∷ 0 ∷ []

abbrev pub done : {M : Type 0} → M × Option MachineError → ℕ → M × Reply
done (m, none) code = (m, reply Code.ok [])
done (m, some e) code = (m, reply code [])

module _ {M : Type 0} (mi : MachineInterface M) where
  unfoldable pub handle_get_chassis_status : M → M × Reply
  handle_get_chassis_status m =
      let (m', state) = mi.get_power_state m in
      elim state [
        | err e ↦ (m', reply Code.unspecified [])
        | ok power_on ↦ (m', reply Code.ok (0x01 ∷ 0x00 ∷ 0x00 ∷ 0x00 ∷ []))
        | ok power_off ↦ (m', reply Code.ok (0x00 ∷ 0x00 ∷ 0x00 ∷ 0x00 ∷ []))
      ]

  -- Power cycle: off, and on again when that succeeded.
  unfoldable pub power_cycle : M → M × Option MachineError
  power_cycle m =
      let (m', e) = mi.reset "ForceOff" m in
      elim e [ some x ↦ (m', some x) | none ↦ mi.reset "On" m' ]

  unfoldable pub handle_chassis_control : Bytes → M → M × Reply
  unfolding power_cycle
  handle_chassis_control req m =
      let control = byte_at req 0 in
      if ltb (length req) 1
      then (m, reply Code.invalid_field [])
      else if control == 0x00
      then done (mi.reset "ForceOff" m) Code.unspecified
      else if control == 0x01
      then done (mi.reset "On" m) Code.unspecified
      else if control == 0x02
      then done (power_cycle m) Code.unspecified
      else if control == 0x03
      then done (mi.reset "ForceRestart" m) Code.unspecified
      else if control == 0x04 || control == 0x05
      then (m, reply Code.ok [])
      else (m, reply Code.invalid_field [])

  unfoldable pub handle_chassis_identify : M → M × Reply
  handle_chassis_identify m = (m, reply Code.ok [])

  unfoldable pub handle_set_boot_options : Bytes → M → M × Reply
  unfolding requested_override
  handle_set_boot_options req m =
      if ltb (length req) 1
      then (m, reply Code.invalid_field [])
      else if byte_at req 0 % 128 == 5
      then (if ltb (length req) 6
          then (m, reply Code.invalid_field [])
          else done (mi.set_boot_override (requested_override req) m) Code.invalid_field)
      else (m, reply Code.ok [])

  unfoldable pub handle_get_boot_options : Bytes → M → Reply
  unfolding boot_flags_reply
  handle_get_boot_options req m =
      let selector = byte_at req 0 % 128 in
      if ltb (length req) 1
      then reply Code.invalid_field []
      else if selector == 0
      then reply Code.ok (0x01 ∷ bit_or 0x80 0x00 ∷ 0x00 ∷ [])
      else if selector == 5
      then reply Code.ok (boot_flags_reply (mi.get_boot_override m))
      else reply Code.ok (0x01 ∷ selector ∷ 0x00 ∷ [])

  unfoldable pub handle_chassis_command : IpmiMessage → M → M × Reply
  handle_chassis_command msg m =
      if msg.command == 0x01
      then handle_get_chassis_status m
      else if msg.command == 0x02
      then handle_chassis_control msg.payload m
      else if msg.command == 0x04
      then handle_chassis_identify m
      else if msg.command == 0x08
      then handle_set_boot_options msg.payload m
      else if msg.command == 0x09
      then (m, handle_get_boot_options msg.payload m)
      else (m, reply Code.invalid_command [])
