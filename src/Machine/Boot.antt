-- ===== src/Machine/Boot.antt =====
-- The boot override of internal/machine/machine.go: New, SetBootOverride and ConsumeBootOnce.
use Prim.Native.String.{String}
use text.Mathlib.Text.{◌==◌ as str_eq}
use qemu_bmc.Base.{Bool, ◌||◌, not, Option, none, some, if◌then◌else◌}
use qemu_bmc.Machine.Types.{BootOverride, MachineError, invalid_target, invalid_enabled}
use qemu_bmc.Machine.Host.{Machine}

abbrev pub no_override : BootOverride
no_override = record { enabled = "Disabled"; target = "None"; mode = "UEFI" }

-- New and NewWithProcess.
unfoldable pub new_machine : {W : Type 0} → W → Machine W
new_machine w = record { world = w; boot_override = no_override }

abbrev pub is_valid_target : String → Bool
is_valid_target t =
    str_eq t "None" || str_eq t "Pxe" || str_eq t "Hdd" || str_eq t "Cd" || str_eq t "BiosSetup"

abbrev pub is_valid_enabled : String → Bool
is_valid_enabled e = str_eq e "Disabled" || str_eq e "Once" || str_eq e "Continuous"

module _ {W : Type 0} where
  unfoldable pub get_boot_override : Machine W → BootOverride
  get_boot_override m = m.boot_override

  unfoldable pub set_boot_override : BootOverride → Machine W → Machine W × Option MachineError
  set_boot_override o m =
      if not (is_valid_target o.target)
      then (m, some invalid_target)
      else if not (is_valid_enabled o.enabled)
      then (m, some invalid_enabled)
      else (record m { boot_override = o }, none)

  unfoldable pub consume_boot_once : Machine W → Machine W
  consume_boot_once m =
      if str_eq m.boot_override.enabled "Once"
      then record m {
        boot_override = record (m.boot_override) { enabled = "Disabled"; target = "None" };
      }
      else m
