-- ===== src/Machine/Reset/Override.antt =====
-- What Reset does to the boot override.
use Prim.Native.String.{String}
use text.Mathlib.Text.{◌==◌ as str_eq}
use qemu_bmc.Base.{
  ◌||◌, some, Bool, false, if◌then◌else◌, ◌≡◌, refl, inl, inr, true, Bool-cases, Option, none, some,
  arith,
}
use qemu_bmc.Machine.Boot.{consume_boot_once}
use qemu_bmc.Machine.Host.{Host, ProcessManager, Machine}
use qemu_bmc.Machine.Types.{unsupported_reset, MachineError, BootOverride}
use qemu_bmc.Machine.Reset.{
  in_world, kill_and_wait, force_off, reset_legacy, switch_on, graceful_restart,
  process_power_cycle, graceful_shutdown, reset_process, reset, wait_for_qmp,
}

-- A Once override that has been used: only the mode is left of it.
unfoldable pub used : BootOverride → BootOverride
used o = record { enabled = "Disabled"; target = "None"; mode = o.mode }

-- The override after a reset: kept, or used by a reset that succeeded, if it was for one boot.
pub data Keeps {W : Type 0} (o : BootOverride) (r : Machine W × Option MachineError) : Type 0 where
  kept : r.0.boot_override ≡ o → Keeps o r
  used_up : r.1 ≡ none → str_eq o.enabled "Once" ≡ true → r.0.boot_override ≡ used o → Keeps o r

pub consume-Keeps : {W : Type 0} (m : Machine W) → Keeps m.boot_override (consume_boot_once m, none)
unfolding consume_boot_once used
consume-Keeps m = elim (Bool-cases (str_eq m.boot_override.enabled "Once")) [
  | inl once ↦ used_up refl once (rw once refl)
  | inr not_once ↦ kept (rw not_once refl)
]

if-Keeps :
    {W : Type 0} {o : BootOverride} (b : Bool) (x y : Machine W × Option MachineError)
    → Keeps o x
    → Keeps o y
    → Keeps o (if b then x else y)
if-Keeps true x y hx hy = hx
if-Keeps false x y hx hy = hy

module _ {W : Type 0} (h : Host W) where
  reset_legacy-Keeps :
      (kind : String) (m : Machine W) → Keeps m.boot_override (reset_legacy h kind m)
  unfolding reset_legacy
  reset_legacy-Keeps kind m = kept (ground arith)

  module _ (pm : ProcessManager W) where
    switch_on-Keeps : (m : Machine W) → Keeps m.boot_override (switch_on h pm m)
    unfolding switch_on
    switch_on-Keeps m =
        let w1 = (pm.start m.boot_override.target m.world).0 in
        let w2 = (wait_for_qmp h 30000 w1).0 in
        ground (arith, consume-Keeps (record m { world = w2 }))

    graceful_restart-Keeps : (m : Machine W) → Keeps m.boot_override (graceful_restart h pm m)
    unfolding graceful_restart
    graceful_restart-Keeps m =
        let w2 =
          (pm.wait_for_exit h.graceful_shutdown_timeout (h.qmp.system_powerdown m.world).0).0 in
        ground (
          arith,
          switch_on-Keeps (record m { world = w2 }),
          switch_on-Keeps (record m { world = kill_and_wait h pm w2 }),
        )

    power_cycle-Keeps : (m : Machine W) → Keeps m.boot_override (process_power_cycle h pm m)
    unfolding process_power_cycle
    power_cycle-Keeps m =
        let w1 = (force_off h pm m.world).0 in
        ground (
          arith,
          switch_on-Keeps (record m { world = w1 }),
          switch_on-Keeps (record m { world = kill_and_wait h pm w1 }),
        )

    graceful_shutdown-Keeps : (m : Machine W) → Keeps m.boot_override (graceful_shutdown h pm m)
    unfolding graceful_shutdown
    graceful_shutdown-Keeps m = kept (ground arith)

    reset_process-Keeps :
        (kind : String) (m : Machine W) → Keeps m.boot_override (reset_process h pm kind m)
    unfolding reset_process
    reset_process-Keeps kind m =
        if-Keeps (str_eq kind "On" || str_eq kind "ForceOn") _ _ (switch_on-Keeps m) (
          if-Keeps (str_eq kind "ForceOff") (in_world h (force_off h pm) m) _ (kept refl) (
            if-Keeps (str_eq kind "ForceRestart") (in_world h h.qmp.system_reset m) _ (kept refl) (
              if-Keeps (str_eq kind "GracefulShutdown") _ _ (graceful_shutdown-Keeps m) (
                if-Keeps (str_eq kind "GracefulRestart") _ _ (graceful_restart-Keeps m) (
                  if-Keeps (str_eq kind "PowerCycle") _ (m, some unsupported_reset)
                    (power_cycle-Keeps m) (kept refl))))))

  -- Reset of every type, in both modes and with every outcome, keeps the boot override; only a reset
  -- that succeeds may instead use up a Once override, which is then Disabled with the target None and
  -- the mode it had.
  pub reset-Keeps : (kind : String) (m : Machine W) → Keeps m.boot_override (reset h kind m)
  unfolding reset
  reset-Keeps kind m =
      elim h.process
        as (λ pr.
          Keeps {W = W} m.boot_override
            (elim pr [ none ↦ reset_legacy h kind m | some pm ↦ reset_process h pm kind m ])) [
              | none ↦ reset_legacy-Keeps kind m
              | some pm ↦ reset_process-Keeps pm kind m
            ]
