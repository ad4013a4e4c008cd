-- ===== src/Machine/Reset.antt =====
-- Reset of internal/machine/machine.go in its two modes, and what it is made of.
pub mod Polling
pub mod Override
use Prim.Native.String.{String}
use text.Mathlib.Text.{◌==◌ as str_eq}
use qemu_bmc.Base.{
  ℕ, zero, suc, ◌+◌, Bool, true, false, ◌||◌, Option, none, some, ltb, Result, ok, err,
  if◌then◌else◌,
}
use qemu_bmc.Machine.Boot.{consume_boot_once}
use qemu_bmc.Machine.Host.{Host, ProcessManager, Machine, returns, blocks}
use qemu_bmc.Machine.Power.{get_power_state_legacy}
use qemu_bmc.Machine.Types.{
  PowerState, power_on, power_off, MachineError, start_error, qmp_timeout, unsupported_reset,
  never_returns,
}

-- How polling for QMP ended. `blocked` and `out_of_fuel` are no ends of the Go loop: a Connect that
-- never returns, and rounds beyond the fuel.
pub data Poll : Type 0 where
  connected timed_out blocked out_of_fuel : Poll

-- The rounds that waitForQMP can make at 100 ms each before 30 s are over.
abbrev pub poll_rounds : ℕ
poll_rounds = 302

module _ {W : Type 0} (h : Host W) where
  -- One world-changing call, as a step of the machine.
  abbrev pub in_world : (W → W × Option MachineError) → Machine W → Machine W × Option MachineError
  in_world f m = let (w, e) = f m.world in (record m { world = w }, e)

  -- waitForQMP's loop, with the deadline computed before it.
  unfoldable pub poll_qmp : ℕ → ℕ → W → W × Poll
  poll_qmp zero deadline w = (w, out_of_fuel)
  poll_qmp (suc fuel) deadline w =
      let (w1, e) = h.qmp.connect w in
      let again = poll_qmp fuel deadline (h.sleep 100 w1) in
      elim e [
        | blocks ↦ (w1, blocked)
        | returns none ↦ (w1, connected)
        | returns (some x) ↦ if ltb deadline (h.now w1) then (w1, timed_out) else again
      ]

  unfoldable pub wait_for_qmp : ℕ → W → W × Poll
  wait_for_qmp timeout w = poll_qmp poll_rounds (h.now w + timeout) w

  unfoldable pub reset_legacy : String → Machine W → Machine W × Option MachineError
  reset_legacy kind m =
      let (w, state) = get_power_state_legacy h m.world in
      let (w1, e1) = h.qmp.stop m.world in
      if str_eq kind "On" || str_eq kind "ForceOn"
      then elim state [
        | err e ↦ (record m { world = w }, some e)
        | ok power_on ↦ (record m { world = w }, none)
        | ok power_off ↦ in_world h.qmp.cont (record m { world = w })
      ]
      else if str_eq kind "ForceOff"
      then in_world h.qmp.stop m
      else if str_eq kind "GracefulShutdown"
      then in_world h.qmp.stop (in_world h.qmp.system_powerdown m).0
      else if str_eq kind "ForceRestart"
      then in_world h.qmp.system_reset m
      else if str_eq kind "GracefulRestart"
      then in_world h.qmp.system_reset m
      else if str_eq kind "PowerCycle"
      then elim e1 [
        | some e ↦ (record m { world = w1 }, some e)
        | none ↦ in_world h.qmp.cont (record m { world = w1 })
      ]
      else (m, some unsupported_reset)

  module _ (pm : ProcessManager W) where
    -- forceOff: quit over QMP, or stop the process.
    unfoldable pub force_off : W → W × Option MachineError
    force_off w =
        let (w', e) = h.qmp.quit w in
        elim e [ some x ↦ pm.stop 30000 w' | none ↦ pm.wait_for_exit 30000 w' ]

    -- Kill and wait, both with their errors ignored.
    abbrev pub kill_and_wait : W → W
    kill_and_wait w = (pm.wait_for_exit 5000 (pm.kill w).0).0

    -- The "On" case, which the restarts call again.
    unfoldable pub switch_on : Machine W → Machine W × Option MachineError
    switch_on m =
        let (w1, started) = pm.start m.boot_override.target m.world in
        let (w2, poll) = wait_for_qmp 30000 w1 in
        if pm.is_running m.world then (m, none) else elim started [
          | some e ↦ (record m { world = w1 }, some start_error)
          | none ↦ elim poll [
            | connected ↦ (consume_boot_once (record m { world = w2 }), none)
            | timed_out ↦ (record m { world = w2 }, some qmp_timeout)
            | blocked ↦ (record m { world = w2 }, some never_returns)
            | out_of_fuel ↦ (record m { world = w2 }, some never_returns)
          ]
        ]

    unfoldable pub graceful_restart : Machine W → Machine W × Option MachineError
    unfolding switch_on
    graceful_restart m =
        let (w1, down) = h.qmp.system_powerdown m.world in
        let (w2, exited) = pm.wait_for_exit h.graceful_shutdown_timeout w1 in
        elim down [
          | some e ↦ (record m { world = w1 }, some e)
          | none ↦ elim exited [
            | none ↦ switch_on (record m { world = w2 })
            | some e ↦ switch_on (record m { world = kill_and_wait w2 })
          ]
        ]

    unfoldable pub process_power_cycle : Machine W → Machine W × Option MachineError
    unfolding switch_on force_off
    process_power_cycle m =
        let (w1, off) = force_off m.world in
        elim off [
          | none ↦ switch_on (record m { world = w1 })
          | some e ↦ switch_on (record m { world = kill_and_wait w1 })
        ]

    -- A graceful shutdown that times out is only logged.
    unfoldable pub graceful_shutdown : Machine W → Machine W × Option MachineError
    graceful_shutdown m =
        let (w1, down) = h.qmp.system_powerdown m.world in
        elim down [
          | some e ↦ (record m { world = w1 }, some e)
          | none ↦ (record m { world = (pm.wait_for_exit h.graceful_shutdown_timeout w1).0 }, none)
        ]

    unfoldable pub reset_process : String → Machine W → Machine W × Option MachineError
    reset_process kind m =
        if str_eq kind "On" || str_eq kind "ForceOn"
        then switch_on m
        else if str_eq kind "ForceOff"
        then in_world force_off m
        else if str_eq kind "ForceRestart"
        then in_world h.qmp.system_reset m
        else if str_eq kind "GracefulShutdown"
        then graceful_shutdown m
        else if str_eq kind "GracefulRestart"
        then graceful_restart m
        else if str_eq kind "PowerCycle"
        then process_power_cycle m
        else (m, some unsupported_reset)

  unfoldable pub reset : String → Machine W → Machine W × Option MachineError
  reset kind m = elim h.process [ none ↦ reset_legacy kind m | some pm ↦ reset_process pm kind m ]
