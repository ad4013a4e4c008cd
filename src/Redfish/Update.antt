-- ===== src/Redfish/Update.antt =====
-- internal/redfish/handler_update.go: the firmware inventory and SimpleUpdate requests.
pub mod Tasks
use Prim.Native.String.{String, ◌++◌ as append}
use text.Mathlib.Text.{◌==◌ as str_eq, find?}
use qemu_bmc.Base.{
  Result, ok, err, ℕ, ◌+◌, Bytes, Bool, true, false, List, [], ◌∷◌, ◌++◌, Option, none, some, not,
  bytes_eq, length, if◌then◌else◌, ◌||◌, ◌&&◌,
}
use qemu_bmc.Base.Decimal.{ascii}
use qemu_bmc.Firmware.{Component, bios, bmc, UpdateRequest}
use qemu_bmc.Redfish.Events.{Url}
use qemu_bmc.Redfish.Http.{
  Code, Reply, document, failure, malformed_json, property_missing, action_parameter_not_supported,
  action_parameter_value_not_in_list, resource_not_found,
}
use qemu_bmc.Redfish.Middleware.{ends_in_slash, without_last}
use qemu_bmc.Redfish.Server.{Server, get_firmware_version, get_staged_firmware}

pub record FirmwareComponent : Type 0 where
  pub fqdd : Bytes
  pub name : String
  pub related_item : Bytes
  pub activation : String

-- The map firmwareComponents.
unfoldable pub component_info : Component → FirmwareComponent
component_info bios = record {
  fqdd = ascii "BIOS.Setup.1-1";
  name = "BIOS";
  related_item = ascii "/redfish/v1/Systems/1";
  activation = "system reset";
}
component_info bmc = record {
  fqdd = ascii "iDRAC.Embedded.1-1";
  name = "BMC Firmware";
  related_item = ascii "/redfish/v1/Managers/1";
  activation = "BMC reset";
}

abbrev pub firmware_component_order : List Component
firmware_component_order = bios ∷ bmc ∷ []

abbrev pub installed_id : Component → Bytes
installed_id c = ascii "Installed-" ++ (component_info c).fqdd

abbrev pub staged_id : Component → Bytes
staged_id c = ascii "Staged-" ++ (component_info c).fqdd

abbrev pub inventory_path : Bytes → Bytes
inventory_path id = ascii "/redfish/v1/UpdateService/FirmwareInventory/" ++ id

pub record SoftwareInventory : Type 0 where
  pub id : Bytes
  pub name : String
  pub version : String
  pub staged : Bool
  pub related_item : Bytes

pub record SoftwareCollection : Type 0 where
  pub members_count : ℕ
  pub members : List Bytes

pub record SimpleUpdateRequest : Type 0 where
  pub image_uri : String
  pub transfer_protocol : String
  pub targets : List Bytes
  pub username : String
  pub password : String
  pub operation_apply_time : String

-- strings.ToUpper, strings.ToLower and url.Parse.
pub record TextOps : Type 0 where
  pub to_upper : String → String
  pub to_lower : String → String
  pub parse_url : String → Option Url

abbrev pub inventory_item : Bytes → Component → String → Bool → Reply SoftwareInventory
inventory_item id c version staged = document 200 (record {
  id = id;
  name = (component_info c).name;
  version = version;
  staged = staged;
  related_item = (component_info c).related_item;
})

module _ {M V : Type 0} where
  -- The inventory entries of one component: the installed version, and the staged one if any.
  abbrev pub component_members : Component → Server M V → List Bytes → List Bytes
  component_members c s rest = inventory_path (installed_id c) ∷ elim (get_staged_firmware c s) [
    | none ↦ rest
    | some v ↦ inventory_path (staged_id c) ∷ rest
  ]

  unfoldable pub handle_firmware_inventory_collection : Server M V → Reply SoftwareCollection
  handle_firmware_inventory_collection s =
      let members = component_members bios s (component_members bmc s []) in
      document 200 (record { members_count = length members; members = members })

  -- The loop over the components; `continue` is the rest of the loop.
  unfoldable pub find_inventory : Bytes → List Component → Server M V → Reply SoftwareInventory
  find_inventory id [] s = failure 404 resource_not_found
  find_inventory id (c ∷ cs) s =
      let rest = find_inventory id cs s in
      if bytes_eq id (installed_id c)
      then inventory_item id c (get_firmware_version c s) false
      else if bytes_eq id (staged_id c)
      then elim (get_staged_firmware c s) [ none ↦ rest | some v ↦ inventory_item id c v true ]
      else rest

  unfoldable pub handle_get_firmware_inventory : Bytes → Server M V → Reply SoftwareInventory
  handle_get_firmware_inventory id s = find_inventory id firmware_component_order s

abbrev pub is_transfer_protocol : String → Bool
is_transfer_protocol p = str_eq p "HTTP" || str_eq p "HTTPS"

abbrev pub has_scheme : String → Bool
has_scheme uri = elim (find? uri "://") [ none ↦ false | some i ↦ true ]

-- What resolveImageURI checks of the completed URI.
abbrev pub check_url : TextOps → String → String → Option String
check_url ops protocol uri = elim (ops.parse_url uri) [
  | none ↦ none
  | some u ↦
      if str_eq u.host ""
      then none
      else if not (is_transfer_protocol (ops.to_upper u.scheme))
      then none
      else if not (str_eq protocol "") && not (str_eq protocol (ops.to_upper u.scheme))
      then none
      else some uri
]

unfoldable pub resolve_image_uri : TextOps → String → String → Option String
resolve_image_uri ops image_uri transfer_protocol =
    let protocol = ops.to_upper transfer_protocol in
    if not (str_eq protocol "") && not (is_transfer_protocol protocol)
    then none
    else if has_scheme image_uri
    then check_url ops protocol image_uri
    else if str_eq protocol ""
    then none
    else check_url ops protocol (append (ops.to_lower protocol) (append "://" image_uri))

abbrev pub trim_slash : Bytes → Bytes
trim_slash t = if ends_in_slash t then without_last t else t

abbrev pub is_target_of : Bytes → Component → Bool
is_target_of t c =
    bytes_eq t (inventory_path (installed_id c)) || bytes_eq t (component_info c).related_item

abbrev pub target_component : Bytes → Option Component
target_component t =
    if is_target_of t bios then some bios else if is_target_of t bmc then some bmc else none

unfoldable pub resolve_targets : List Bytes → Option (List Component)
resolve_targets [] = some []
resolve_targets (t ∷ ts) =
    let rest = resolve_targets ts in
    elim (target_component (trim_slash t)) [
      | none ↦ none
      | some c ↦ elim rest [ none ↦ none | some cs ↦ some (c ∷ cs) ]
    ]

abbrev pub is_apply_time : String → Bool
is_apply_time t = str_eq t "" || str_eq t "Immediate" || str_eq t "OnReset"

-- The checks of handleSimpleUpdate: the update to run, or the message id.
unfoldable pub check_simple_update :
    TextOps → Option SimpleUpdateRequest → Result Code UpdateRequest
check_simple_update ops none = err malformed_json
check_simple_update ops (some req) =
    if str_eq req.image_uri ""
    then err property_missing
    else elim (resolve_image_uri ops req.image_uri req.transfer_protocol) [
      | none ↦ err action_parameter_not_supported
      | some uri ↦
          if not (is_apply_time req.operation_apply_time)
          then err action_parameter_not_supported
          else elim (resolve_targets req.targets) [
            | none ↦ err action_parameter_value_not_in_list
            | some targets ↦ ok (record {
              image_uri = uri;
              username = req.username;
              password = req.password;
              targets = targets;
            })
          ]
    ]
