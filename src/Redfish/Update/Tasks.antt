-- ===== src/Redfish/Update/Tasks.antt =====
-- internal/redfish/handler_update.go: tasks, and the goroutine that runs an update as one. `now` is the
-- formatted time.
pub mod Life
pub mod Settled
pub mod Accepted
use Prim.Native.String.{String, ◌++◌ as append}
use qemu_bmc.Base.{
  Result, ok, err, ℕ, ◌+◌, ◌-◌, Bytes, Bool, true, false, List, [], ◌∷◌, ◌++◌, Option, none, some,
  length, replicate, if◌then◌else◌,
}
use qemu_bmc.Base.Decimal.{ascii, itoa}
use qemu_bmc.Base.Maps.{Map, get, put}
use qemu_bmc.Firmware.{Client, Package, FirmwareError, UpdateRequest, run}
use qemu_bmc.Redfish.Http.{
  Code, Link, task_link, Reply, document, accepted_at, failure, resource_not_found,
}
use qemu_bmc.Redfish.Server.{
  Server, Task, Message, TaskState, new, running, completed, exception, TaskStatus, good, critical,
  stage_firmware,
}
use qemu_bmc.Redfish.Update.{TextOps, SimpleUpdateRequest, check_simple_update}

-- fmt.Sprintf("JID_%012d", n)
unfoldable pub job_id : ℕ → Bytes
job_id n = ascii "JID_" ++ (replicate (12 - length (itoa n)) 48 ++ itoa n)

unfoldable pub new_task : String → Bytes → String → Task
new_task now id name = record {
  odata_id = task_link id;
  id = id;
  name = name;
  state = new;
  task_status = good;
  percent_complete = 0;
  start_time = now;
  end_time = "";
  messages = [];
}

module _ {M V : Type 0} where
  unfoldable pub create_task : String → String → Server M V → Server M V × Task
  create_task now name s =
      let id = job_id (s.next_task_id + 1) in
      (
        record s {
          next_task_id = s.next_task_id + 1;
          tasks = put id (new_task now id name) s.tasks;
        },
        new_task now id name,
      )

  -- A task that does not exist is not updated.
  unfoldable pub update_task : Bytes → (Task → Task) → Server M V → Server M V
  update_task id f s = elim (get id s.tasks) [
    | none ↦ s
    | some t ↦ record s { tasks = put id (f t) s.tasks }
  ]

  unfoldable pub handle_get_task : Bytes → Server M V → Reply Task
  handle_get_task id s = elim (get id s.tasks) [
    | none ↦ failure 404 resource_not_found
    | some t ↦ document 200 t
  ]

  -- The answer, and the update that the goroutine runs.
  unfoldable pub handle_simple_update :
      String
      → TextOps
      → Option SimpleUpdateRequest
      → Server M V
      → Server M V × Reply Task × Option (Bytes × UpdateRequest)
  handle_simple_update now ops body s = elim (check_simple_update ops body) [
    | err code ↦ (s, failure 400 code, none)
    | ok req ↦
        let (s', t) = create_task now (append "Firmware Update: " req.image_uri) s in
        (s', accepted_at t.odata_id t, some (t.id, req))
  ]

-- The functions that runFirmwareUpdate hands to updateTask.
abbrev pub start_task : Task → Task
start_task t = record t { state = running }

abbrev pub report_task : ℕ → Task → Task
report_task percent t = record t { percent_complete = percent }

abbrev pub fail_task : String → Task → Task
fail_task now t = record t {
  state = exception;
  task_status = critical;
  end_time = now;
  messages =
      t.messages
      ++ (record { message_id = "TaskEvent.1.0.TaskAborted"; severity = "Critical" } ∷ []);
}

abbrev pub complete_task : String → Task → Task
complete_task now t = record t {
  state = completed;
  task_status = good;
  percent_complete = 100;
  end_time = now;
  messages =
      t.messages ++ (record { message_id = "Update.1.0.AwaitToActivate"; severity = "OK" } ∷ []);
}

module _ {W M V : Type 0} (client : Client W) where
  -- What follows Run, with the version staged before the task is completed.
  unfoldable pub finish_update :
      String → Bytes → Result FirmwareError Package → Server M V → Server M V
  finish_update now id (err e) s = update_task id (fail_task now) s
  finish_update now id (ok pkg) s =
      update_task id (complete_task now) (stage_firmware pkg.component pkg.version s)

  unfoldable pub run_firmware_update :
      String → Bytes → UpdateRequest → W → Server M V → W × Server M V
  run_firmware_update now id req w s =
      let (w', s', r) =
        run client (λ percent t. update_task id (report_task percent) t) req w
          (update_task id start_task s) in
      (w', finish_update now id r s')
