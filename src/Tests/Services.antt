-- ===== src/Tests/Services.antt =====
-- The services of the Redfish server, the dispatcher and a firmware update on small inputs.
use Prim.Native.String.{String}
use qemu_bmc.Base.{
  ℕ, zero, suc, ◌+◌, ◌≡◌, refl, Bytes, Bool, true, false, List, [], ◌∷◌, Option, none, some, ok,
  ◌⊎◌,
}
use qemu_bmc.Base.Decimal.{ascii, itoa, itoa_rounds}
use qemu_bmc.Base.Maps.{Map, get, or_else}
use qemu_bmc.Events.Dispatcher.{Network, new_dispatcher, deliver}
use qemu_bmc.Events.Dispatcher.Retries.{DeliveryOutcome, allowed, deliver_outcome}
use qemu_bmc.Firmware.{
  Client, Package, UpdateRequest, bios, run, install, flash, fetch, parse, read_response,
  read_limited,
}
use qemu_bmc.Firmware.Download.{IsDownloaded, run-IsDownloaded}
use qemu_bmc.Firmware.Progress.{Reported, run-Reported}
use qemu_bmc.Machine.Boot.{new_machine, get_boot_override}
use qemu_bmc.Machine.Host.{Machine}
use qemu_bmc.Machine.Power.{get_qmp_status}
use qemu_bmc.Machine.Types.{running, power_on, Status}
use qemu_bmc.Redfish.Actions.{handle_reset_action, is_power_on_reset}
use qemu_bmc.Redfish.Actions.Start.{patch-start}
use qemu_bmc.Redfish.Bios.{handle_patch_bios_settings}
use qemu_bmc.Redfish.Bios.Applied.{ArePending}
use qemu_bmc.Redfish.Http.{task_link}
use qemu_bmc.Redfish.Machine.{redfish_machine, redfish_machine-Laws}
use qemu_bmc.Redfish.Server.{Server, Task, MachineInterface, new_server, stage_firmware}
use qemu_bmc.Redfish.Systems.{
  PatchSystemRequest, ComputerSystem, handle_patch_system, patch_system, patch_boot, patch_led,
  handle_get_system, etag_text, etag_of, map_qmp_status_to_redfish,
}
use qemu_bmc.Redfish.Systems.IfMatch.{Unpatched, if_match_guards}
use qemu_bmc.Redfish.Systems.Patch.{OverrideBecomes, wanted_order, wanted_led, patch_system_shows}
use qemu_bmc.Redfish.Update.{
  TextOps, SimpleUpdateRequest, check_simple_update, resolve_image_uri, resolve_targets,
}
use qemu_bmc.Redfish.Update.Tasks.{
  create_task, job_id, new_task, handle_simple_update, run_firmware_update,
}
use qemu_bmc.Redfish.Update.Tasks.Accepted.{AreNumbered, IsAccepted, simple_update_settles}
use qemu_bmc.Redfish.Update.Tasks.Settled.{Settled}
use qemu_bmc.Tests.Fixtures.{admin, secret, silent_host, machine}

-- The first POST gets no answer, the second a 200.
abbrev flaky : Network ℕ Bytes
flaky = record {
  is_valid_request = λ d. true;
  do_request = λ d body w. (w + 1, elim w [ zero ↦ none | suc n ↦ some 200 ]);
  wait = λ w. (w, false);
}

deliver_outcome_example :
    DeliveryOutcome flaky "http://listener/" []
      (allowed 3)
      0
      (deliver flaky (new_dispatcher 3) "http://listener/" (some []) 0)
unfolding new_dispatcher
deliver_outcome_example = deliver_outcome flaky "http://listener/" [] 3 0

abbrev server : Server (Machine ℕ) Bytes
server = new_server (λ bs. bs) machine admin secret

abbrev mi : MachineInterface (Machine ℕ)
mi = redfish_machine silent_host

-- Every setting waits for a reset.
abbrev all_wait : Bytes → Option Bool
all_wait name = some true

-- A machine that is switched on without an error.
abbrev obedient : MachineInterface ℕ
obedient = record {
  get_power_state = λ m. (m, ok power_on);
  get_qmp_status = λ m. (m, ok running);
  reset = λ kind m. (m + 1, none);
  get_boot_override = λ m. record { enabled = "Disabled"; target = "None"; mode = "UEFI" };
  set_boot_override = λ o m. (m, none);
  insert_media = λ image m. (m, none);
  eject_media = λ m. (m, none);
}

abbrev simple : Server ℕ Bytes
simple = stage_firmware bios "2.0" (new_server (λ bs. bs) 0 admin secret)

simple-ArePending : ArePending all_wait simple
unfolding new_server stage_firmware get
simple-ArePending k v e = cc

patch-start_example :
    let all : Map Bytes = (ascii "BootMode", ascii "Bios") ∷ [] in
    let s1 = (handle_patch_bios_settings all_wait (some all) simple).0 in
    let s2 = (handle_reset_action obedient (some "ForceRestart") s1).0 in
    (get (ascii "BootMode") s2.bios_attrs
      ≡ or_else (get (ascii "BootMode") all) (
          or_else
            (get (ascii "BootMode") simple.bios_pending_attrs)
            (get (ascii "BootMode") simple.bios_attrs)))
    × (s2.bios_pending_attrs ≡ [])
unfolding is_power_on_reset
patch-start_example =
    patch-start obedient all_wait "ForceRestart" (ascii "BootMode") (ascii "Bios") [] simple
      (ascii "BootMode") simple-ArePending refl refl

-- A package for the BIOS that downloads and flashes without an error.
abbrev file_server : Client ℕ
file_server = record {
  is_valid_uri = λ uri. true;
  do_get = λ uri auth w. (w + 1, some (record { status = 200; body = some [] }));
  unmarshal = λ bs. some (record { component = "BIOS"; version = "1.1.0" });
  wait_step = λ w. (w + 1, false);
}

abbrev update_request : UpdateRequest
update_request = record {
  image_uri = "http://files/bios";
  username = "";
  password = "";
  targets = [];
}

abbrev note : ℕ → List ℕ → List ℕ
note percent ps = percent ∷ ps

run-Reported_example : Reported file_server note [] (run file_server note update_request 0 [])
run-Reported_example = run-Reported file_server note update_request 0 []

abbrev bios_package : Package
bios_package = record { component = bios; version = "1.1.0" }

run-IsDownloaded_example : IsDownloaded file_server update_request 0 bios_package
unfolding run install flash fetch parse read_response read_limited
run-IsDownloaded_example = run-IsDownloaded file_server note update_request 0 [] bios_package refl

abbrev text_ops : TextOps
text_ops = record {
  to_upper = λ x. x;
  to_lower = λ x. x;
  parse_url = λ uri. some (record { scheme = "HTTP"; host = "files" });
}

abbrev simple_update : SimpleUpdateRequest
simple_update = record {
  image_uri = "http://files/bios";
  transfer_protocol = "";
  targets = [];
  username = "";
  password = "";
  operation_apply_time = "";
}

abbrev with_task : Server ℕ Bytes
with_task = (handle_simple_update "12:00" text_ops (some simple_update) simple).0

abbrev the_task : Task
the_task = new_task "12:00" (job_id 1) "Firmware Update: http://files/bios"

simple-AreNumbered : AreNumbered simple
unfolding new_server stage_firmware get
simple-AreNumbered k t e = cc

simple_update_settles_example :
    IsAccepted simple with_task (job_id 1) the_task
    × AreNumbered with_task
    × Settled file_server
        (job_id 1)
        "12:01"
        update_request
        0
        the_task
        with_task
        (run_firmware_update file_server "12:01" (job_id 1) update_request 0 with_task).1
unfolding handle_simple_update check_simple_update resolve_image_uri resolve_targets create_task
    new_task new_server stage_firmware job_id itoa itoa_rounds
simple_update_settles_example =
    simple_update_settles file_server "12:00" "12:01" text_ops (some simple_update) 0 simple
      with_task (task_link (job_id 1)) the_task (job_id 1) update_request simple-AreNumbered refl

abbrev light : PatchSystemRequest
light = record { boot = none; indicator_led = some "Lit" }

abbrev hash : String → String
hash t = t

abbrev lit : ComputerSystem
lit = record {
  odata_etag = "On-Disabled-None-UEFI-Pxe,Hdd,Cd";
  bios_version = "";
  indicator_led = "Lit";
  power_state = "On";
  boot = record { enabled = "Disabled"; target = "None"; mode = "UEFI" };
  boot_order = "Pxe" ∷ "Hdd" ∷ "Cd" ∷ [];
}

patch_system_shows_example :
    OverrideBecomes light.boot (get_boot_override machine) lit.boot
    × (lit.boot_order ≡ wanted_order light.boot server.boot_order)
    × (lit.indicator_led ≡ wanted_led light.indicator_led server.indicator_led)
unfolding handle_patch_system patch_system patch_boot patch_led handle_get_system new_server
    get_boot_override new_machine get_qmp_status etag_text map_qmp_status_to_redfish
patch_system_shows_example =
    patch_system_shows hash mi (redfish_machine-Laws silent_host) "" light server
      (record server { indicator_led = "Lit" }) lit refl

if_match_guards_example :
    Unpatched hash mi
      (redfish_machine-Laws silent_host)
      server
      (handle_patch_system hash mi "old" (some light) server).0
    ⊎ ((status : Status) × ((mi.get_qmp_status server.machine).1 ≡ ok status)
        × ("old" ≡ etag_of hash mi status server))
if_match_guards_example =
    if_match_guards hash mi (redfish_machine-Laws silent_host) "old" (some light) server (λ e. cc)
