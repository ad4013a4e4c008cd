-- ===== src/Redfish/Managers.antt =====
-- internal/redfish/handler_managers.go: the manager, its attributes, its reset and virtual media.
-- `now` is the formatted time. Times, ids and paths that never vary are left out of the documents.
pub mod Media
use Prim.Native.String.{String}
use text.Mathlib.Text.{◌==◌ as str_eq}
use qemu_bmc.Base.{
  ℕ, Bytes, Bool, true, false, List, [], ◌∷◌, Option, none, some, not, if◌then◌else◌,
}
use qemu_bmc.Base.Maps.{Map, get, put}
use qemu_bmc.Firmware.{bmc}
use qemu_bmc.Machine.Types.{MachineError}
use qemu_bmc.Redfish.Http.{
  Code, Reply, document, failure, no_content, malformed_json, property_missing,
  action_parameter_not_supported, resource_not_found,
}
use qemu_bmc.Redfish.Server.{
  Server, MachineInterface, set_current_media, set_last_reset_time, set_manager_attribute,
  get_firmware_version, activate_staged_firmware,
}

-- The fields of the Manager document that the server's state determines.
pub record Manager : Type 0 where
  pub firmware_version : String
  pub last_reset_time : String
  pub power_state : String
  pub has_dell_links : Bool

pub record ManagerAttributes (V : Type 0) : Type 0 where
  pub id : String
  pub attributes : Map V

pub record VirtualMedia : Type 0 where
  pub image : String
  pub inserted : Bool
  pub connected_via : String

-- {"status": "ok"}
pub data Done : Type 0 where
  done : Done

module _ {M V : Type 0} where
  unfoldable pub handle_get_manager : Server M V → Reply Manager
  handle_get_manager s = document 200 (record {
    firmware_version = get_firmware_version bmc s;
    last_reset_time = elim (s.last_reset_time) [ none ↦ "" | some t ↦ t ];
    power_state = "On";
    has_dell_links = s.dell_bmc_attributes;
  })

  unfoldable pub handle_get_manager_attributes : Server M V → Reply (ManagerAttributes V)
  handle_get_manager_attributes s =
      if not s.dell_bmc_attributes
      then failure 404 resource_not_found
      else document 200 (record { id = "Attributes"; attributes = s.manager_attrs })

  unfoldable pub handle_get_manager_attributes_settings : Server M V → Reply (ManagerAttributes V)
  handle_get_manager_attributes_settings s =
      if not s.dell_bmc_attributes
      then failure 404 resource_not_found
      else document 200 (record { id = "Settings"; attributes = [] })

  -- The loop over the attributes of the request.
  unfoldable pub set_manager_attributes : Map V → Server M V → Server M V
  set_manager_attributes [] s = s
  set_manager_attributes ((name, value) ∷ attrs) s =
      set_manager_attribute name value (set_manager_attributes attrs s)

  unfoldable pub handle_patch_manager_attributes_settings :
      Option (Map V) → Server M V → Server M V × Reply (ManagerAttributes V)
  handle_patch_manager_attributes_settings none s =
      if not s.dell_bmc_attributes
      then (s, failure 404 resource_not_found)
      else (s, failure 400 malformed_json)
  handle_patch_manager_attributes_settings (some []) s =
      if not s.dell_bmc_attributes
      then (s, failure 404 resource_not_found)
      else (s, failure 400 property_missing)
  handle_patch_manager_attributes_settings (some (e ∷ attrs)) s =
      if not s.dell_bmc_attributes
      then (s, failure 404 resource_not_found)
      else (set_manager_attributes (e ∷ attrs) s, no_content)

  unfoldable pub handle_manager_reset :
      String → Option String → Server M V → Server M V × Reply Done
  handle_manager_reset now none s = (s, failure 400 malformed_json)
  handle_manager_reset now (some kind) s =
      if not (str_eq kind "GracefulRestart")
      then (s, failure 400 action_parameter_not_supported)
      else (activate_staged_firmware bmc (set_last_reset_time now s), document 200 done)

  unfoldable pub handle_get_virtual_media : Server M V → Reply VirtualMedia
  handle_get_virtual_media s = document 200 (record {
    image = s.current_media;
    inserted = not (str_eq s.current_media "");
    connected_via = if not (str_eq s.current_media "") then "URI" else "NotConnected";
  })

  -- The error of the machine is only logged.
  unfoldable pub handle_insert_media :
      MachineInterface M → Option String → Server M V → Server M V × Reply Done
  handle_insert_media mi none s = (s, failure 400 malformed_json)
  handle_insert_media mi (some image) s =
      if str_eq image "" then (s, failure 400 property_missing) else (
        set_current_media image (record s { machine = (mi.insert_media image s.machine).0 }),
        document 200 done,
      )

  unfoldable pub handle_eject_media : MachineInterface M → Server M V → Server M V × Reply Done
  handle_eject_media mi s = (
    set_current_media "" (record s { machine = (mi.eject_media s.machine).0 }),
    document 200 done,
  )
