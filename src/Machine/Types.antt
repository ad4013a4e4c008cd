-- ===== src/Machine/Types.antt =====
-- internal/machine/machine.go and internal/qmp/types.go: the values that the machine layer passes.
use Prim.Native.String.{String}

-- The Go string type PowerState with its two values.
pub data PowerState : Type 0 where
  power_on power_off : PowerState

-- The fields are Go strings, and a client may send any.
pub record BootOverride : Type 0 where
  pub enabled : String
  pub target : String
  pub mode : String

-- qmp.Status: the three statuses that the code names, and any other.
pub data Status : Type 0 where
  running shutdown paused : Status
  other : String → Status

-- One constructor for each error value of machine.go; the messages are only logged.
pub data MachineError : Type 0 where
  qmp_error start_error process_error qmp_timeout : MachineError
  unsupported_reset invalid_target invalid_enabled fetch_error : MachineError
  -- No error of the source: the call never comes back.
  never_returns : MachineError
