-- ===== src/Machine/Power.antt =====
-- GetPowerState and GetQMPStatus of internal/machine/machine.go.
use qemu_bmc.Base.{none, some, Result, ok, err, if◌then◌else◌}
use qemu_bmc.Machine.Host.{Host, ProcessManager, Machine}
use qemu_bmc.Machine.Types.{
  PowerState, power_on, power_off, Status, running, shutdown, paused, other, MachineError,
}

module _ {W : Type 0} (h : Host W) where
  unfoldable pub get_power_state_legacy : W → W × Result MachineError PowerState
  get_power_state_legacy w =
      let (w', status) = h.qmp.query_status w in
      elim status [
        | err e ↦ (w', err e)
        | ok running ↦ (w', ok power_on)
        | ok shutdown ↦ (w', ok power_off)
        | ok paused ↦ (w', ok power_off)
        | ok (other s) ↦ (w', ok power_off)
      ]

  -- A guest that has shut down has its process stopped; the error of that is ignored.
  unfoldable pub get_power_state_process : ProcessManager W → W → W × Result MachineError PowerState
  get_power_state_process pm w =
      let (w', status) = h.qmp.query_status w in
      if pm.is_running w
      then elim status [
        | err e ↦ (w', ok power_on)
        | ok running ↦ (w', ok power_on)
        | ok paused ↦ (w', ok power_on)
        | ok shutdown ↦ ((pm.stop 30000 w').0, ok power_off)
        | ok (other s) ↦ (w', ok power_on)
      ]
      else (w, ok power_off)

  unfoldable pub get_power_state : Machine W → Machine W × Result MachineError PowerState
  unfolding get_power_state_legacy get_power_state_process
  get_power_state m = elim h.process [
    | none ↦ let (w, r) = get_power_state_legacy m.world in (record m { world = w }, r)
    | some pm ↦ let (w, r) = get_power_state_process pm m.world in (record m { world = w }, r)
  ]

  unfoldable pub get_qmp_status : Machine W → Machine W × Result MachineError Status
  get_qmp_status m =
      let (w, status) = h.qmp.query_status m.world in
      elim h.process [
        | none ↦ (record m { world = w }, status)
        | some pm ↦
            if pm.is_running m.world
            then elim status [
              | err e ↦ (record m { world = w }, ok running)
              | ok s ↦ (record m { world = w }, ok s)
            ]
            else (m, ok shutdown)
      ]
