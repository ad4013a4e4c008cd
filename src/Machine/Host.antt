-- ===== src/Machine/Host.antt =====
-- What internal/machine/machine.go calls: the Go interfaces qmp.Client and ProcessManager, the clock,
-- the download of an image and the removal of a file, over a state `W` of the outside world.
use Prim.Native.String.{String}
use qemu_bmc.Base.{ℕ, ◌+◌, ◌≤◌, Bool, Option, Result}
use qemu_bmc.Machine.Types.{Status, MachineError, BootOverride}

-- How a call of Connect ends. It dials and reads the greeting without a deadline, so that it blocks
-- for ever when the peer neither sends nor closes.
pub data ConnectResult : Type 0 where
  returns : Option MachineError → ConnectResult
  blocks : ConnectResult

-- A method returns the new world and its error, `none` for nil.
pub record QmpClient (W : Type 0) : Type 0 where
  pub connect : W → W × ConnectResult
  pub query_status : W → W × Result MachineError Status
  pub system_powerdown : W → W × Option MachineError
  pub system_reset : W → W × Option MachineError
  pub stop : W → W × Option MachineError
  pub cont : W → W × Option MachineError
  pub quit : W → W × Option MachineError
  pub blockdev_change_medium : String → String → W → W × Option MachineError
  pub blockdev_remove_medium : String → W → W × Option MachineError

-- Times are in milliseconds.
pub record ProcessManager (W : Type 0) : Type 0 where
  pub start : String → W → W × Option MachineError
  pub stop : ℕ → W → W × Option MachineError
  pub kill : W → W × Option MachineError
  pub is_running : W → Bool
  pub wait_for_exit : ℕ → W → W × Option MachineError
  pub set_media : String → W → W

-- `process` is `none` in legacy mode. `download` is the GET and the write to the local file.
pub record Host (W : Type 0) : Type 0 where
  pub qmp : QmpClient W
  pub process : Option (ProcessManager W)
  pub graceful_shutdown_timeout : ℕ
  pub now : W → ℕ
  pub sleep : ℕ → W → W
  pub download : String → W → W × Option MachineError
  pub remove_file : String → W → W

-- time.Sleep pauses for the given time at least, and the clock does not run backwards.
pub record ClockLaws {W : Type 0} (h : Host W) : Type 0 where
  pub sleep_advances : (d : ℕ) (w : W) → h.now w + d ≤ h.now (h.sleep d w)
  pub connect_monotone : (w : W) → h.now w ≤ h.now (h.qmp.connect w).0

-- SetGracefulShutdownTimeout: the field of the Machine struct that no method reads but Reset.
unfoldable pub set_graceful_shutdown_timeout : {W : Type 0} → ℕ → Host W → Host W
set_graceful_shutdown_timeout d h = record h { graceful_shutdown_timeout = d }

-- The Machine struct: the world it acts on, and the boot override.
pub record Machine (W : Type 0) : Type 0 where
  pub world : W
  pub boot_override : BootOverride
