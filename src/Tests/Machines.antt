-- ===== src/Tests/Machines.antt =====
-- Polling and resets in a small world.
use qemu_bmc.Base.{ℕ, ◌+◌, refl, false, none, some, ◌≡◌, ◌⊎◌, arith}
use qemu_bmc.Machine.Boot.{consume_boot_once, new_machine, set_boot_override}
use qemu_bmc.Machine.Host.{Host, Machine, returns}
use qemu_bmc.Machine.Reset.{
  connected, timed_out, wait_for_qmp, reset, reset_process, switch_on, poll_qmp,
}
use qemu_bmc.Machine.Reset.Override.{Keeps, used, reset-Keeps}
use qemu_bmc.Machine.Reset.Polling.{wait_for_qmp-ends}
use qemu_bmc.Machine.Types.{BootOverride}
use qemu_bmc.Machine.Validity.{IsValid, created, by_set, by_reset, Reached-IsValid}
use qemu_bmc.Tests.Fixtures.{silent_host, silent_host-Laws, machine}

wait_for_qmp-ends_example :
    ((wait_for_qmp silent_host 30000 1000).1 ≡ connected)
    ⊎ ((wait_for_qmp silent_host 30000 1000).1 ≡ timed_out)
wait_for_qmp-ends_example =
    wait_for_qmp-ends silent_host silent_host-Laws 30000 1000 (omega arith) (λ v e. cc)

-- QEMU is stopped, starts at once and answers QMP.
abbrev stopped_host : Host ℕ
stopped_host = record silent_host {
  qmp = record (silent_host.qmp) { connect = λ w. (w + 5, returns none) };
  process = some (record {
    start = λ target w. (w + 1, none);
    stop = λ timeout w. (w, none);
    kill = λ w. (w, none);
    is_running = λ w. false;
    wait_for_exit = λ timeout w. (w, none);
    set_media = λ image w. w;
  });
}

abbrev pxe_once : BootOverride
pxe_once = record { enabled = "Once"; target = "Pxe"; mode = "UEFI" }

abbrev network_once : Machine ℕ
network_once = record machine { boot_override = pxe_once }

reset-Keeps_example : Keeps network_once.boot_override (reset stopped_host "On" network_once)
reset-Keeps_example = reset-Keeps stopped_host "On" network_once

-- The start consumes the override.
reset_consumes_once :
    (reset stopped_host "On" network_once).0.boot_override ≡ used network_once.boot_override
unfolding reset reset_process switch_on wait_for_qmp poll_qmp consume_boot_once used
reset_consumes_once = refl

-- A machine whose override was set and then used up.
Reached-IsValid_example :
    IsValid (reset stopped_host "On" (set_boot_override pxe_once (new_machine 0)).0).0.boot_override
Reached-IsValid_example = Reached-IsValid (by_reset "On" (by_set pxe_once (created stopped_host 0)))
