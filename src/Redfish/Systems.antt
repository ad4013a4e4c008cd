-- ===== src/Redfish/Systems.antt =====
-- internal/redfish/handler_systems.go: the computer system and its conditional PATCH. `hash` is what
-- generateETag makes of its text: the first bytes of SHA-256, in hex and quotes.
pub mod Patch
pub mod IfMatch
use Prim.Native.String.{String, ◌++◌ as append}
use text.Mathlib.Text.{◌==◌ as str_eq}
use qemu_bmc.Base.{
  Result, ok, err, ℕ, Bytes, Bool, true, false, List, [], ◌∷◌, Option, none, some, not,
  if◌then◌else◌,
}
use qemu_bmc.Firmware.{bios}
use qemu_bmc.Machine.Types.{Status, running, shutdown, paused, other, BootOverride, MachineError}
use qemu_bmc.Redfish.Http.{
  Code, Reply, document, failure, malformed_json, property_missing, property_value_error,
  internal_error, precondition_failed,
}
use qemu_bmc.Redfish.Server.{
  Server, MachineInterface, set_boot_order, set_indicator_led, get_firmware_version,
}

-- The fields of the ComputerSystem document that vary.
pub record ComputerSystem : Type 0 where
  pub odata_etag : String
  pub bios_version : String
  pub indicator_led : String
  pub power_state : String
  pub boot : BootOverride
  pub boot_order : List String

-- An absent field of the boot part is the empty text.
pub record PatchBoot : Type 0 where
  pub boot_order : List String
  pub override_enabled : String
  pub override_target : String
  pub override_mode : String

pub record PatchSystemRequest : Type 0 where
  pub boot : Option PatchBoot
  pub indicator_led : Option String

unfoldable pub map_qmp_status_to_redfish : Status → String
map_qmp_status_to_redfish running = "On"
map_qmp_status_to_redfish shutdown = "Off"
map_qmp_status_to_redfish paused = "Off"
map_qmp_status_to_redfish (other s) = "Off"

-- strings.Join(order, ",")
abbrev pub join : List String → String
join [] = ""
join (x ∷ []) = x
join (x ∷ y ∷ ys) = append x (append "," (join (y ∷ ys)))

-- The text that generateETag hashes.
unfoldable pub etag_text : String → BootOverride → List String → String
etag_text power boot order = append power (
    append "-" (
      append boot.enabled (
        append "-" (append boot.target (append "-" (append boot.mode (append "-" (join order))))))))

-- The merge of the request with the current override.
abbrev pub given_or : String → String → String
given_or new old = if str_eq new "" then old else new

unfoldable pub merge_override : PatchBoot → BootOverride → BootOverride
merge_override b current = record {
  enabled = given_or b.override_enabled current.enabled;
  target = given_or b.override_target current.target;
  mode = given_or b.override_mode current.mode;
}

-- `req.Boot == nil && req.IndicatorLED == nil`
abbrev pub is_empty_patch_system : PatchSystemRequest → Bool
is_empty_patch_system req = elim (req.boot) [
  | some b ↦ false
  | none ↦ elim (req.indicator_led) [ some led ↦ false | none ↦ true ]
]

module _ {M V : Type 0} (mi : MachineInterface M) where
  -- The boot part: a boot order is stored, anything else goes to SetBootOverride.
  unfoldable pub patch_boot : Option PatchBoot → Server M V → Server M V × Option MachineError
  patch_boot none s = (s, none)
  patch_boot (some b) s =
      let (m, e) =
        mi.set_boot_override (merge_override b (mi.get_boot_override s.machine)) s.machine in
      elim (b.boot_order) [
        | x ∷ xs ↦ (set_boot_order (x ∷ xs) s, none)
        | [] ↦ (record s { machine = m }, e)
      ]

module _ {M V : Type 0} where
  unfoldable pub patch_led : Option String → Server M V → Server M V
  patch_led none s = s
  patch_led (some led) s = set_indicator_led led s

module _ {M V : Type 0} (hash : String → String) (mi : MachineInterface M) where
  abbrev pub etag_of : Status → Server M V → String
  etag_of status s =
      hash
        (etag_text (map_qmp_status_to_redfish status) (mi.get_boot_override s.machine) s.boot_order)

  abbrev pub system_document : Status → Server M V → ComputerSystem
  system_document status s = record {
    odata_etag = etag_of status s;
    bios_version = get_firmware_version bios s;
    indicator_led = s.indicator_led;
    power_state = map_qmp_status_to_redfish status;
    boot = mi.get_boot_override s.machine;
    boot_order = s.boot_order;
  }

  unfoldable pub handle_get_system : Server M V → Server M V × Reply ComputerSystem
  handle_get_system s =
      let (m, answer) = mi.get_qmp_status s.machine in
      let s' : Server M V = record s { machine = m } in
      elim answer [
        | err e ↦ (s', failure 500 internal_error)
        | ok status ↦ (s', document 200 (system_document status s'))
      ]

  -- What follows the precondition.
  unfoldable pub patch_system :
      Option PatchSystemRequest → Server M V → Server M V × Reply ComputerSystem
  patch_system none s = (s, failure 400 malformed_json)
  patch_system (some req) s =
      let (s1, e) = patch_boot mi req.boot s in
      if is_empty_patch_system req then (s, failure 400 property_missing) else elim e [
        | some x ↦ (s1, failure 400 property_value_error)
        | none ↦ handle_get_system (patch_led req.indicator_led s1)
      ]

  -- An absent If-Match header is the empty text.
  unfoldable pub handle_patch_system :
      String → Option PatchSystemRequest → Server M V → Server M V × Reply ComputerSystem
  handle_patch_system if_match body s =
      let (m, answer) = mi.get_qmp_status s.machine in
      let s' : Server M V = record s { machine = m } in
      if str_eq if_match "" then patch_system body s else elim answer [
        | err e ↦ (s', failure 500 internal_error)
        | ok status ↦
            if not (str_eq if_match (etag_of status s'))
            then (s', failure 412 precondition_failed)
            else patch_system body s'
      ]
