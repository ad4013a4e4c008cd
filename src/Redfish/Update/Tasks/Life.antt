-- ===== src/Redfish/Update/Tasks/Life.antt =====
-- The life of an update task: its states as a step relation, and how the goroutine leaves it.
use Prim.Native.String.{String}
use qemu_bmc.Base.{
  ℕ, zero, suc, ◌≡◌, ◌≢◌, ◌<◌, refl, Bytes, List, [], ◌∷◌, some, arith, Option-cases, inl, inr,
  take, bytes_eq_refl,
}
use qemu_bmc.Base.Maps.{get, get-put}
use qemu_bmc.Bmc.Accounts.Create.{bytes_eq-false}
use qemu_bmc.Firmware.Progress.{reports}
use qemu_bmc.Redfish.Server.{Server, Task, new, running}
use qemu_bmc.Redfish.Update.Tasks.{update_task, start_task, report_task, fail_task, complete_task}

-- The changes that a task may go through.
pub data TaskStep (now : String) : Task → Task → Type 0 where
  starts : {t : Task} → t.state ≡ new → TaskStep now t (start_task t)
  reported :
      {t : Task} (percent : ℕ)
      → t.state ≡ running
      → t.percent_complete < percent
      → percent < 100
      → TaskStep now t (report_task percent t)
  fails : {t : Task} → t.state ≡ running → TaskStep now t (fail_task now t)
  completes :
      {t : Task}
      → t.state ≡ running
      → t.percent_complete < 100
      → TaskStep now t (complete_task now t)

pub data TaskReach (now : String) : Task → Task → Type 0 where
  stays : {t : Task} → TaskReach now t t
  steps : {t u v : Task} → TaskStep now t u → TaskReach now u v → TaskReach now t v

pub reach_then :
    {now : String} {t u v : Task} → TaskReach now t u → TaskStep now u v → TaskReach now t v
reach_then stays last = steps last stays
reach_then (steps first more) last = steps first (reach_then more last)

abbrev pub report_all : List ℕ → Task → Task
report_all [] t = t
report_all (p ∷ ps) t = report_all ps (report_task p t)

-- The reports of a running task go up and stay below 100.
abbrev pub Ascends : ℕ → List ℕ → Type 0
Ascends low [] = Unit {0}
Ascends low (p ∷ ps) = (low < p) × (p < 100) × Ascends p ps

pub report_all-running :
    (ps : List ℕ) (t : Task) → t.state ≡ running → (report_all ps t).state ≡ running
report_all-running [] t e = e
report_all-running (p ∷ ps) t e = report_all-running ps (report_task p t) e

report_all-below :
    (ps : List ℕ) (t : Task)
    → t.percent_complete < 100
    → Ascends t.percent_complete ps
    → (report_all ps t).percent_complete < 100
report_all-below [] t low up = low
report_all-below (p ∷ ps) t low up = report_all-below ps (report_task p t) up.1 up.2

pub report_all-reach :
    (now : String) (ps : List ℕ) (t : Task)
    → t.state ≡ running
    → Ascends t.percent_complete ps
    → TaskReach now t (report_all ps t)
report_all-reach now [] t e up = stays
report_all-reach now (p ∷ ps) t e up =
    steps (reported p e up.0 up.1) (report_all-reach now ps (report_task p t) e up.2)

pub reports_ascend : (n : ℕ) → Ascends 0 (take n reports)
reports_ascend zero = omega arith
reports_ascend (suc zero) = omega arith
reports_ascend (suc (suc zero)) = omega arith
reports_ascend (suc (suc (suc zero))) = omega arith
reports_ascend (suc (suc (suc (suc zero)))) = omega arith
reports_ascend (suc (suc (suc (suc (suc n))))) = omega arith

module _ {M V : Type 0} (id : Bytes) where
  pub update_task_at :
      (f : Task → Task) (s : Server M V) {t : Task}
      → get id s.tasks ≡ some t
      → get id (update_task id f s).tasks ≡ some (f t)
  unfolding update_task
  update_task_at f s {t} e = rw (update_task, e, get-put id id (f t) s.tasks, bytes_eq_refl id)

  update_task_other :
      (f : Task → Task) (s : Server M V) (other : Bytes)
      → other ≢ id
      → get other (update_task id f s).tasks ≡ get other s.tasks
  unfolding update_task
  update_task_other f s other ne = elim (Option-cases (get id s.tasks)) [
    | inl missing ↦ rw (update_task, missing) refl
    | inr (t, e) ↦
        rw (update_task, e, get-put id other (f t) s.tasks, bytes_eq-false other id ne) refl
  ]

  pub update_task_staged :
      (f : Task → Task) (s : Server M V) → (update_task id f s).staged_firmware ≡ s.staged_firmware
  unfolding update_task
  update_task_staged f s = ground arith

  -- The callback of Run.
  abbrev pub progress : ℕ → Server M V → Server M V
  progress percent s = update_task id (report_task percent) s
