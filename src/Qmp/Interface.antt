-- ===== src/Qmp/Interface.antt =====
-- The QMP client as the qmp.Client of the machine layer, and what a machine makes of its answers.
use Prim.Native.String.{String}
use text.Mathlib.Text.{◌==◌ as str_eq}
use qemu_bmc.Base.{Result, ok, err, ◌≡◌, true, List, [], ◌∷◌, Option, none, some, All}
use qemu_bmc.Machine.Host.{QmpClient, ConnectResult, returns, Host, Machine}
use qemu_bmc.Machine.Power.{get_power_state, get_power_state_legacy}
use qemu_bmc.Machine.Types.{MachineError, qmp_error, power_off, Status}
use qemu_bmc.Qmp.{
  QmpFailure, QmpResponse, Line, Command, Conn, ClientState, connect, execute, qmp_query_status,
  system_powerdown, system_reset, stop, cont, quit, blockdev_change_medium, blockdev_remove_medium,
}
use qemu_bmc.Qmp.Replies.{IsEvent, waiting, query_status_hides_error}

-- The client, and what net.Dial will give when it is called next.
abbrev pub QmpWorld : Type 0
QmpWorld = List (Option Conn) × ClientState

-- The machine layer looks at whether there is an error, and logs its text.
abbrev pub as_error : Option QmpFailure → Option MachineError
as_error none = none
as_error (some e) = some qmp_error

abbrev pub as_status : Result QmpFailure Status → Result MachineError Status
as_status (ok s) = ok s
as_status (err e) = err qmp_error

-- The lines of a connection end, so that reading the greeting does too.
abbrev pub connect_next : QmpWorld → QmpWorld × ConnectResult
connect_next ([], c) = let (c', e) = connect none c in (([], c'), returns (as_error e))
connect_next (d ∷ dials, c) = let (c', e) = connect d c in ((dials, c'), returns (as_error e))

abbrev pub run_one : Command → QmpWorld → QmpWorld × Option MachineError
run_one command (dials, c) = let (c', e) = execute command c in ((dials, c'), as_error e)

unfoldable pub qmp_client : QmpClient QmpWorld
qmp_client = record {
  connect = connect_next;
  query_status = λ w. let (c', r) = qmp_query_status w.1 in ((w.0, c'), as_status r);
  system_powerdown = run_one system_powerdown;
  system_reset = run_one system_reset;
  stop = run_one stop;
  cont = run_one cont;
  quit = run_one quit;
  blockdev_change_medium = λ device file. run_one (blockdev_change_medium device file);
  blockdev_remove_medium = λ device. run_one (blockdev_remove_medium device);
}

-- When QEMU answers query-status with an error, a machine without a process manager reports no error
-- and that the machine is off, whatever events come before the answer.
pub error_reads_as_off :
    (h : Host QmpWorld) (dials : List (Option Conn)) (sent : List Command) (events rest : List Line)
    (l : Line) (r : QmpResponse) (text : String) (m : Machine QmpWorld)
    → h.process ≡ none
    → h.qmp ≡ qmp_client
    → m.world ≡ (dials, waiting sent events rest l)
    → All IsEvent events
    → l.response ≡ some r
    → str_eq r.event "" ≡ true
    → r.failure ≡ some text
    → l.status_text ≡ some ""
    → (get_power_state h m).1 ≡ ok power_off
unfolding get_power_state get_power_state_legacy qmp_client
error_reads_as_off h dials sent events rest l r text m legacy client world evs e plain failed
      empty =
    rw (
      get_power_state,
      legacy,
      get_power_state_legacy,
      client,
      world,
      query_status_hides_error sent events rest l r text evs e plain failed empty,
    )
