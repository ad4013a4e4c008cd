-- ===== src/Ipmi/Lan.antt =====
-- internal/ipmi/handler_lan.go: LAN configuration parameters, NetFn Transport.
pub mod Parameters
use qemu_bmc.Base.{
  ℕ, Bytes, Bool, true, false, List, [], ◌∷◌, Option, none, some, ltb, ◌==◌, ◌||◌, not, length,
  byte_at, drop, if◌then◌else◌,
}
use qemu_bmc.Bmc.State.{State}
use qemu_bmc.Bmc.Config.{get_lan_config, set_lan_config}
use qemu_bmc.Ipmi.Env.{Reply, reply}
use qemu_bmc.Ipmi.Types.Code
use qemu_bmc.Ipmi.Wire.{IpmiMessage}

abbrev pub lan_config_revision : ℕ
lan_config_revision = 0x11

pub contains : List ℕ → ℕ → Bool
contains [] k = false
contains (x ∷ xs) k = x == k || contains xs k

-- The keys of the two Go maps.
abbrev pub supported_lan_params : List ℕ
supported_lan_params = 0 ∷ 1 ∷ 2 ∷ 3 ∷ 4 ∷ 5 ∷ 6 ∷ 7 ∷ 12 ∷ 13 ∷ []

abbrev pub read_only_lan_params : List ℕ
read_only_lan_params = 1 ∷ []

unfoldable pub handle_get_lan_config_params : Bytes → State → Reply
handle_get_lan_config_params req s =
    let param = byte_at req 1 in
    if ltb (length req) 4
    then reply Code.invalid_field []
    else if not (contains supported_lan_params param)
    then reply Code.parameter_out_of_range []
    else if param == 0
    then reply Code.ok (lan_config_revision ∷ 0x00 ∷ [])
    else elim (get_lan_config s param) [
      | none ↦ reply Code.parameter_out_of_range []
      | some value ↦ reply Code.ok (lan_config_revision ∷ value)
    ]

unfoldable pub handle_set_lan_config_params : Bytes → State → State × Reply
handle_set_lan_config_params req s =
    let param = byte_at req 1 in
    if ltb (length req) 2
    then (s, reply Code.invalid_field [])
    else if not (contains supported_lan_params param)
    then (s, reply Code.parameter_out_of_range [])
    else if param == 0
    then (s, reply Code.ok [])
    else if contains read_only_lan_params param
    then (s, reply Code.invalid_field [])
    else (set_lan_config param (drop 2 req) s, reply Code.ok [])

unfoldable pub handle_transport_command : IpmiMessage → State → State × Reply
handle_transport_command msg s =
    if msg.command == 0x02
    then (s, handle_get_lan_config_params msg.payload s)
    else if msg.command == 0x01
    then handle_set_lan_config_params msg.payload s
    else (s, reply Code.invalid_command [])
