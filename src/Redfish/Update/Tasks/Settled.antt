-- ===== src/Redfish/Update/Tasks/Settled.antt =====
-- How the goroutine of an update leaves its task and the staged versions.
use Prim.Native.String.{String}
use qemu_bmc.Base.{Result, ok, ℕ, ◌≡◌, refl, ap, ◌∙◌, Bytes, List, [], ◌∷◌, some, arith, take}
use qemu_bmc.Base.Maps.{get}
use qemu_bmc.Firmware.{Client, Component, bios, bmc, Package, FirmwareError, UpdateRequest}
use qemu_bmc.Firmware.Download.{IsDownloaded, run-IsDownloaded}
use qemu_bmc.Firmware.Progress.{
  Reported, failed_after, installed, run-Reported, apply_reports, reports,
}
use qemu_bmc.Redfish.Server.{
  Server, Versions, Task, new, completed, exception, critical, set_version, stage_firmware,
}
use qemu_bmc.Redfish.Update.Tasks.{
  update_task, start_task, report_task, fail_task, complete_task, finish_update,
  run_firmware_update,
}
use qemu_bmc.Redfish.Update.Tasks.Life.{
  TaskReach, steps, starts, fails, completes, reach_then, report_all, Ascends, report_all-running,
  report_all-reach, reports_ascend, update_task_at, update_task_staged, progress,
}

-- The version of a package is the one staged for its component, and the other component keeps its own.
abbrev pub Stages : Package → Versions → Versions → Type 0
Stages pkg old after = elim pkg.component [
  | bios ↦ (after.of_bios ≡ some pkg.version) × (after.of_bmc ≡ old.of_bmc)
  | bmc ↦ (after.of_bmc ≡ some pkg.version) × (after.of_bios ≡ old.of_bios)
]

set_version-Stages :
    (c : Component) (v : String) (old : Versions)
    → Stages (record { component = c; version = v }) old (set_version c (some v) old)
set_version-Stages bios v old = (refl, refl)
set_version-Stages bmc v old = (refl, refl)

module _ {W M V : Type 0} (client : Client W) (id : Bytes) where
  reported_at :
      (ps : List ℕ) (s : Server M V) (t : Task)
      → get id s.tasks ≡ some t
      → get id (apply_reports client (progress id) ps s).tasks ≡ some (report_all ps t)
  reported_at [] s t e = e
  reported_at (p ∷ ps) s t e =
      reported_at ps (progress id p s) (report_task p t) (update_task_at id (report_task p) s e)

  reported_staged :
      (ps : List ℕ) (s : Server M V)
      → (apply_reports client (progress id) ps s).staged_firmware ≡ s.staged_firmware
  reported_staged [] s = refl
  reported_staged (p ∷ ps) s =
      reported_staged ps (progress id p s) ∙ update_task_staged id (report_task p) s

  -- How an update for a request, begun in the world `w`, leaves its task and the staged versions.
  pub data Settled (now : String) (req : UpdateRequest) (w : W) (t : Task) (s : Server M V)
      : Server M V → Type 0 where
    aborted :
        (s' : Server M V) (t' : Task)
        → get id s'.tasks ≡ some t'
        → TaskReach now t t'
        → t'.state ≡ exception
        → t'.task_status ≡ critical
        → s'.staged_firmware ≡ s.staged_firmware
        → Settled now req w t s s'
    done :
        (s' : Server M V) (t' : Task) (pkg : Package)
        → IsDownloaded client req w pkg
        → get id s'.tasks ≡ some t'
        → TaskReach now t t'
        → t'.state ≡ completed
        → t'.percent_complete ≡ 100
        → Stages pkg s.staged_firmware s'.staged_firmware
        → Settled now req w t s s'

  settle :
      (now : String) (req : UpdateRequest) (w0 : W) (t : Task) (s : Server M V)
      (r : W × Server M V × Result FirmwareError Package)
      → ((pkg : Package) → r.2 ≡ ok pkg → IsDownloaded client req w0 pkg)
      → get id s.tasks ≡ some t
      → t.state ≡ new
      → t.percent_complete ≡ 0
      → Reported client (progress id) (update_task id start_task s) r
      → Settled now req w0 t s (finish_update client now id r.2 r.1)
  unfolding finish_update stage_firmware
  settle now req w0 t s _ from at fresh low (failed_after n w e small) =
      let s1 = update_task id start_task s in
      let here = update_task_at id start_task s at in
      let ps = take n reports in
      let up : Ascends (start_task t).percent_complete ps = rw (low) (reports_ascend n) in
      let s2 = apply_reports client (progress id) ps s1 in
      let there = reported_at ps s1 (start_task t) here in
      aborted _ (fail_task now (report_all ps (start_task t)))
        (update_task_at id (fail_task now) s2 there)
        (steps (starts fresh) (
          reach_then (report_all-reach now ps (start_task t) refl up)
            (fails (report_all-running ps (start_task t) refl))))
        refl refl
        (update_task_staged id (fail_task now) s2
          ∙ reported_staged ps s1
          ∙ update_task_staged id start_task s)
  settle now req w0 t s _ from at fresh low (installed w pkg) =
      let s1 = update_task id start_task s in
      let here = update_task_at id start_task s at in
      let up : Ascends (start_task t).percent_complete reports = rw (low) (reports_ascend 4) in
      let s2 = apply_reports client (progress id) reports s1 in
      let s3 = stage_firmware pkg.component pkg.version s2 in
      let there = reported_at reports s1 (start_task t) here in
      done _ (complete_task now (report_all reports (start_task t))) pkg (from pkg refl)
        (update_task_at id (complete_task now) s3 there)
        (steps (starts fresh) (
          reach_then (report_all-reach now reports (start_task t) refl up)
            (completes (report_all-running reports (start_task t) refl) (omega arith))))
        refl refl
        (rw
          (update_task_staged id (complete_task now) s3
            ∙ ap (set_version pkg.component (some pkg.version))
                (reported_staged reports s1 ∙ update_task_staged id start_task s))
          (set_version-Stages pkg.component pkg.version s.staged_firmware))

  -- An update that runs on a new task takes it through running, with reports that go up and stay
  -- below 100, to completed with 100 percent and the version of the package that was downloaded
  -- staged, or to exception with nothing staged.
  pub run_firmware_update_settles :
      (now : String) (req : UpdateRequest) (w : W) (s : Server M V) (t : Task)
      → get id s.tasks ≡ some t
      → t.state ≡ new
      → t.percent_complete ≡ 0
      → Settled now req w t s (run_firmware_update client now id req w s).1
  unfolding run_firmware_update
  run_firmware_update_settles now req w s t at fresh low =
      settle now req w t s _
        (run-IsDownloaded client (progress id) req w (update_task id start_task s)) at fresh low
        (run-Reported client (progress id) req w (update_task id start_task s))
