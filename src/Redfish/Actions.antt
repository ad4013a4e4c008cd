-- ===== src/Redfish/Actions.antt =====
-- internal/redfish/handler_actions.go: the system reset, and what a start applies.
pub mod Start
use Prim.Native.String.{String}
use text.Mathlib.Text.{◌==◌ as str_eq}
use qemu_bmc.Base.{ℕ, Bool, true, false, Option, none, some, not, if◌then◌else◌, ◌||◌}
use qemu_bmc.Firmware.{bios}
use qemu_bmc.Machine.Types.{MachineError}
use qemu_bmc.Redfish.Http.{
  Code, Reply, failure, no_content, malformed_json, action_parameter_not_supported, internal_error,
}
use qemu_bmc.Redfish.Server.{
  Server, MachineInterface, apply_pending_bios_settings, activate_staged_firmware,
}

unfoldable pub is_power_on_reset : String → Bool
is_power_on_reset kind =
    str_eq kind "On"
    || str_eq kind "ForceOn"
    || str_eq kind "ForceRestart"
    || str_eq kind "GracefulRestart"
    || str_eq kind "PowerCycle"

unfoldable pub is_valid_reset : String → Bool
is_valid_reset kind =
    str_eq kind "On"
    || str_eq kind "ForceOn"
    || str_eq kind "ForceOff"
    || str_eq kind "GracefulShutdown"
    || str_eq kind "ForceRestart"
    || str_eq kind "GracefulRestart"
    || str_eq kind "PowerCycle"

module _ {M V : Type 0} where
  unfoldable pub on_system_power_on_reset : Server M V → Server M V
  on_system_power_on_reset s = activate_staged_firmware bios (apply_pending_bios_settings s)

  -- The request's ResetType, `none` for a malformed body.
  unfoldable pub handle_reset_action :
      MachineInterface M → Option String → Server M V → Server M V × Reply (Unit {0})
  handle_reset_action mi none s = (s, failure 400 malformed_json)
  handle_reset_action mi (some kind) s =
      let (m, e) = mi.reset kind s.machine in
      let s' : Server M V = record s { machine = m } in
      if not (is_valid_reset kind)
      then (s, failure 400 action_parameter_not_supported)
      else elim e [
        | some x ↦ (s', failure 500 internal_error)
        | none ↦
            if is_power_on_reset kind
            then (on_system_power_on_reset s', no_content)
            else (s', no_content)
      ]
