-- ===== src/Redfish/Server.antt =====
-- internal/redfish/server.go: the Server struct, its constructor and its accessors. `M` is the
-- machine behind MachineInterface, `V` the Go type any of an attribute's value.
use Prim.Native.String.{String}
use qemu_bmc.Base.{Result, ℕ, Bytes, Bool, false, List, [], ◌∷◌, Option, none, some}
use qemu_bmc.Base.Decimal.{ascii}
use qemu_bmc.Base.Maps.{Map, put, copy}
use qemu_bmc.Bmc.State.{State, new_state}
use qemu_bmc.Firmware.{Component, bios, bmc}
use qemu_bmc.Machine.Types.{PowerState, Status, BootOverride, MachineError}
use qemu_bmc.Redfish.Events.{EventTable}
use qemu_bmc.Redfish.Http.{Link}

-- The interface of the handlers to the machine.
pub record MachineInterface (M : Type 0) : Type 0 where
  pub get_power_state : M → M × Result MachineError PowerState
  pub get_qmp_status : M → M × Result MachineError Status
  pub reset : String → M → M × Option MachineError
  pub get_boot_override : M → BootOverride
  pub set_boot_override : BootOverride → M → M × Option MachineError
  pub insert_media : String → M → M × Option MachineError
  pub eject_media : M → M × Option MachineError

-- A Message of a task, without the copies of its severity.
pub record Message : Type 0 where
  pub message_id : String
  pub severity : String

-- TaskState and TaskStatus are Go strings of these values.
pub data TaskState : Type 0 where
  new running completed exception : TaskState

pub data TaskStatus : Type 0 where
  good critical : TaskStatus

pub record Task : Type 0 where
  pub odata_id : Link
  pub id : Bytes
  pub name : String
  pub state : TaskState
  pub task_status : TaskStatus
  pub percent_complete : ℕ
  pub start_time : String
  pub end_time : String
  pub messages : List Message

-- A map from the two components to versions, `none` for a missing key.
pub record Versions : Type 0 where
  pub of_bios : Option String
  pub of_bmc : Option String

abbrev pub version_of : Component → Versions → Option String
version_of bios v = v.of_bios
version_of bmc v = v.of_bmc

abbrev pub set_version : Component → Option String → Versions → Versions
set_version bios x v = record v { of_bios = x }
set_version bmc x v = record v { of_bmc = x }

-- Times are texts; the zero time is `none`.
pub record Server (M V : Type 0) : Type 0 where
  pub machine : M
  pub users : State
  pub dell_bmc_attributes : Bool
  pub current_media : String
  pub indicator_led : String
  pub last_reset_time : Option String
  pub bios_attrs : Map V
  pub bios_pending_attrs : Map V
  pub manager_attrs : Map V
  pub boot_order : List String
  pub events : EventTable
  pub firmware_versions : Versions
  pub staged_firmware : Versions
  pub tasks : Map Task
  pub next_task_id : ℕ

-- NewServer; `text_value` is a string as a value of type any.
unfoldable pub new_server : {M V : Type 0} → (Bytes → V) → M → Bytes → Bytes → Server M V
new_server text_value m user pass = record {
  machine = m;
  users = new_state user pass;
  dell_bmc_attributes = false;
  current_media = "";
  indicator_led = "Off";
  last_reset_time = none;
  bios_attrs =
      (ascii "AdminPhone", text_value (ascii ""))
      ∷ (ascii "BootMode", text_value (ascii "Uefi"))
      ∷ [];
  bios_pending_attrs = [];
  manager_attrs =
      (ascii "EmailAlert.1.Address", text_value (ascii ""))
      ∷ (ascii "SysLog.1.SysLogServer1", text_value (ascii ""))
      ∷ (ascii "NTPConfigGroup.1.NTP1", text_value (ascii ""))
      ∷ [];
  boot_order = "Pxe" ∷ "Hdd" ∷ "Cd" ∷ [];
  events = record { subscriptions = []; next_subscription_id = 0; next_event_id = 0 };
  firmware_versions = record { of_bios = none; of_bmc = none };
  staged_firmware = record { of_bios = none; of_bmc = none };
  tasks = [];
  next_task_id = 0;
}

module _ {M V : Type 0} where
  -- SetInventory, as far as it changes what the server changes later.
  unfoldable pub set_inventory : String → String → Server M V → Server M V
  set_inventory bios_version bmc_version s = record s {
    firmware_versions = record { of_bios = some bios_version; of_bmc = some bmc_version };
  }

  abbrev pub set_current_media : String → Server M V → Server M V
  set_current_media image s = record s { current_media = image }

  abbrev pub set_indicator_led : String → Server M V → Server M V
  set_indicator_led state s = record s { indicator_led = state }

  abbrev pub set_last_reset_time : String → Server M V → Server M V
  set_last_reset_time t s = record s { last_reset_time = some t }

  abbrev pub set_bios_attribute : Bytes → V → Server M V → Server M V
  set_bios_attribute name value s = record s { bios_attrs = put name value s.bios_attrs }

  abbrev pub merge_bios_pending_attributes : Map V → Server M V → Server M V
  merge_bios_pending_attributes attrs s = record s {
    bios_pending_attrs = copy attrs s.bios_pending_attrs;
  }

  abbrev pub set_manager_attribute : Bytes → V → Server M V → Server M V
  set_manager_attribute name value s = record s { manager_attrs = put name value s.manager_attrs }

  abbrev pub set_boot_order : List String → Server M V → Server M V
  set_boot_order order s = record s { boot_order = order }

  unfoldable pub apply_pending_bios_settings : Server M V → Server M V
  apply_pending_bios_settings s = record s {
    bios_attrs = copy s.bios_pending_attrs s.bios_attrs;
    bios_pending_attrs = [];
  }

  -- The zero value "" of a missing key.
  abbrev pub get_firmware_version : Component → Server M V → String
  get_firmware_version c s = elim (version_of c s.firmware_versions) [ none ↦ "" | some v ↦ v ]

  abbrev pub get_staged_firmware : Component → Server M V → Option String
  get_staged_firmware c s = version_of c s.staged_firmware

  unfoldable pub stage_firmware : Component → String → Server M V → Server M V
  stage_firmware c version s = record s {
    staged_firmware = set_version c (some version) s.staged_firmware;
  }

  unfoldable pub activate_staged_firmware : Component → Server M V → Server M V
  activate_staged_firmware c s = elim (version_of c s.staged_firmware) [
    | none ↦ s
    | some v ↦ record s {
      firmware_versions = set_version c (some v) s.firmware_versions;
      staged_firmware = set_version c none s.staged_firmware;
    }
  ]
