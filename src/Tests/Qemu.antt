-- ===== src/Tests/Qemu.antt =====
-- A QMP client with replies waiting, and the life of a process.
use qemu_bmc.Base.{ok, ◌≡◌, ◌<◌, ◌⊎◌, refl, true, false, [], ◌∷◌, none, some, All, arith}
use qemu_bmc.Machine.Boot.{new_machine}
use qemu_bmc.Machine.Host.{Host, Machine}
use qemu_bmc.Machine.Power.{get_power_state}
use qemu_bmc.Machine.Types.{power_off}
use qemu_bmc.Qemu.Process.{
  ProcessState, ProcessReach, fresh, then_step, started, exited, start, note_exit, closing, closed,
  is_open, new_process_manager,
}
use qemu_bmc.Qemu.Process.Channels.{channels_close_once}
use qemu_bmc.Qmp.{QmpResponse, Line, execute, stop, qmp_error}
use qemu_bmc.Qmp.Interface.{QmpWorld, qmp_client, error_reads_as_off}
use qemu_bmc.Qmp.Replies.{IsEvent, an_event, waiting, after, execute_skips_events}

abbrev event : QmpResponse
event = record { event = "RESET"; failure = none }

abbrev failed : QmpResponse
failed = record { event = ""; failure = some "GenericError" }

abbrev event_line : Line
event_line = record { is_greeting = true; response = some event; status_text = some "" }

abbrev failed_line : Line
failed_line = record { is_greeting = true; response = some failed; status_text = some "" }

event_line-IsEvent : All IsEvent (event_line ∷ [])
event_line-IsEvent = (an_event event refl refl, tt)

execute_skips_events_example :
    execute stop (waiting [] (event_line ∷ []) [] failed_line)
    ≡ (after [] stop [], some (qmp_error "GenericError"))
execute_skips_events_example =
    execute_skips_events stop [] (event_line ∷ []) [] failed_line failed event_line-IsEvent refl
      refl

-- A machine without a process manager whose QEMU answers with an error.
abbrev host : Host QmpWorld
host = record {
  qmp = qmp_client;
  process = none;
  graceful_shutdown_timeout = 120000;
  now = λ w. 0;
  sleep = λ d w. w;
  download = λ url w. (w, none);
  remove_file = λ path w. w;
}

abbrev asked : Machine QmpWorld
asked = new_machine ([], waiting [] (event_line ∷ []) [] failed_line)

error_reads_as_off_example : (get_power_state host asked).1 ≡ ok power_off
unfolding new_machine
error_reads_as_off_example =
    error_reads_as_off host [] [] (event_line ∷ []) [] failed_line failed "GenericError" asked refl
      refl refl event_line-IsEvent refl refl refl refl

abbrev started_once : ProcessState
started_once = (start "Pxe" true (new_process_manager [])).0

ended_reach : ProcessReach [] (note_exit started_once)
unfolding start new_process_manager
ended_reach = then_step (then_step fresh (started "Pxe" true)) (exited (omega arith))

channels_close_once_example :
    let p = note_exit started_once in
    (0 < p.waiting → p.channels p.channel ≡ is_open)
    × (p.running ≡ false
        → 0 < p.channel
        → (p.channels p.channel ≡ closing) ⊎ (p.channels p.channel ≡ closed))
channels_close_once_example = channels_close_once [] (note_exit started_once) ended_reach
