-- ===== src/Redfish/Bios.antt =====
-- internal/redfish/handler_bios.go: BIOS settings, which wait for a reset when their registry entry
-- says so. `reset_required` is the
-- table that init reads from the embedded registry, `none` for an unknown attribute.
pub mod Applied
use Prim.Native.String.{String}
use text.Mathlib.Text.{◌==◌ as str_eq}
use qemu_bmc.Base.{
  Result, ℕ, Bytes, Bool, true, false, List, [], ◌∷◌, Option, none, some, not, if◌then◌else◌, ◌||◌,
}
use qemu_bmc.Base.Maps.{Map, get, put, copy}
use qemu_bmc.Firmware.{bios}
use qemu_bmc.Machine.Types.{MachineError}
use qemu_bmc.Redfish.Http.{
  Code, Reply, document, failure, no_content, malformed_json, property_missing,
  action_parameter_not_supported, internal_error,
}
use qemu_bmc.Redfish.Server.{
  Server, MachineInterface, set_bios_attribute, merge_bios_pending_attributes,
  apply_pending_bios_settings, activate_staged_firmware,
}

-- The Bios document: the settings under their path, or the pending ones under Settings.
pub record Bios (V : Type 0) : Type 0 where
  pub id : String
  pub attribute_registry : String
  pub attributes : Map V
  pub has_settings_object : Bool

module _ (reset_required : Bytes → Option Bool) where
  -- `known && !resetRequired`
  unfoldable pub is_immediate : Bytes → Bool
  is_immediate name = elim (reset_required name) [ none ↦ false | some b ↦ not b ]

module _ {V : Type 0} (reset_required : Bytes → Option Bool) where
  -- The entries that the loop collects in `pending`.
  unfoldable pub pending_of : Map V → Map V
  pending_of [] = []
  pending_of ((name, value) ∷ attrs) =
      let rest = pending_of attrs in
      if is_immediate reset_required name then rest else (name, value) ∷ rest

  -- The entries that the loop sets at once.
  unfoldable pub immediate_of : Map V → Map V
  immediate_of [] = []
  immediate_of ((name, value) ∷ attrs) =
      let rest = immediate_of attrs in
      if is_immediate reset_required name then (name, value) ∷ rest else rest

module _ {M V : Type 0} where
  unfoldable pub handle_get_bios : Server M V → Reply (Bios V)
  handle_get_bios s = document 200 (record {
    id = "Bios";
    attribute_registry = "BiosAttributeRegistry.v1_0_0";
    attributes = s.bios_attrs;
    has_settings_object = true;
  })

  unfoldable pub handle_get_bios_settings : Server M V → Reply (Bios V)
  handle_get_bios_settings s = document 200 (record {
    id = "Settings";
    attribute_registry = "BiosAttributeRegistry.v1_0_0";
    attributes = s.bios_pending_attrs;
    has_settings_object = false;
  })

  -- The setBiosAttribute calls.
  unfoldable pub set_all : Map V → Server M V → Server M V
  set_all [] s = s
  set_all ((name, value) ∷ attrs) s = set_bios_attribute name value (set_all attrs s)

  module _ (reset_required : Bytes → Option Bool) where
    unfoldable pub patch_bios : Map V → Server M V → Server M V
    patch_bios attrs s =
        merge_bios_pending_attributes (pending_of reset_required attrs)
          (set_all (immediate_of reset_required attrs) s)

    unfoldable pub handle_patch_bios_settings :
        Option (Map V) → Server M V → Server M V × Reply (Bios V)
    handle_patch_bios_settings none s = (s, failure 400 malformed_json)
    handle_patch_bios_settings (some []) s = (s, failure 400 property_missing)
    handle_patch_bios_settings (some (e ∷ attrs)) s = (patch_bios (e ∷ attrs) s, no_content)
