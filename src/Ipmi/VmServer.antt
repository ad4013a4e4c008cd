-- ===== src/Ipmi/VmServer.antt =====
-- internal/ipmi/vm_server.go: one connection of QEMU's in-band IPMI device.
pub mod Connection
use qemu_bmc.Base.{
  ℕ, zero, suc, ◌*◌, ◌%◌, Bytes, Bool, List, [], ◌∷◌, ◌++◌, length, ◌==◌, bit_or, shl8,
  if◌then◌else◌,
}
use qemu_bmc.Ipmi.Dispatch.{handle_ipmi_command}
use qemu_bmc.Ipmi.Env.{Platform, MachineInterface, Ctx}
use qemu_bmc.Ipmi.Types.{Outcome, ok, err, panic, IpmiError}
use qemu_bmc.Ipmi.VmProtocol.{
  msg_char, cmd_char, cmd_no_attn, cmd_capabilities, cmd_version, VmRequest, vm_escape_bytes,
  vm_parse_ipmi_request, vm_build_ipmi_response, vm_parse_control_command, vm_build_control_command,
  Read, message, closed, failed, read_message,
}
use qemu_bmc.Ipmi.Wire.{IpmiMessage}

-- The server behind the connections: what commands change, and the peer's capabilities.
pub record VmState (M : Type 0) : Type 0 where
  pub ctx : Ctx M
  pub vm_caps : ℕ

-- The first data byte of a control command, 0 when there is none.
abbrev pub first_or_zero : Bytes → ℕ
first_or_zero [] = 0
first_or_zero (b ∷ bs) = b

unfoldable pub send_control_command : ℕ → Bytes → Bytes
send_control_command cmd payload =
    vm_escape_bytes (vm_build_control_command cmd payload) ++ (cmd_char ∷ [])

-- A handler returns the bytes that it writes to the connection; a failed write is only logged.
unfoldable pub handle_control_command : {M : Type 0} → Bytes → VmState M → VmState M × Bytes
unfolding vm_parse_control_command
handle_control_command bs vs = elim (vm_parse_control_command bs) [
  | err e ↦ (vs, [])
  | panic ↦ (vs, [])
  | ok (cmd, rest) ↦
      if cmd == cmd_version
      then (vs, [])
      else if cmd == cmd_capabilities
      then (record vs { vm_caps = first_or_zero rest }, send_control_command cmd_no_attn [])
      else (vs, [])
]

-- The fields of IPMIMessage that the source leaves at their zero values are 0 here too.
abbrev pub message_of : VmRequest → IpmiMessage
message_of req = record {
  target_address = 0;
  target_lun = bit_or (shl8 req.net_fn 2) (req.lun % 4);
  checksum = 0;
  source_address = 0;
  source_lun = 0;
  command = req.cmd;
  payload = req.payload;
}

-- Why the loop of HandleConnection ended. `out_of_fuel` is no end of the Go loop.
pub data Ended : Type 0 where
  closed_by_peer : Ended
  bad_frame : IpmiError → Ended
  out_of_fuel : Ended

module _ {M : Type 0} (mi : MachineInterface M) (p : Platform) where
  unfoldable pub handle_ipmi_msg : Bytes → VmState M → VmState M × Bytes
  handle_ipmi_msg bs vs = elim (vm_parse_ipmi_request bs) [
    | err e ↦ (vs, [])
    | panic ↦ (vs, [])
    | ok req ↦
        let (c, r) = handle_ipmi_command mi p (message_of req) vs.ctx in
        let resp =
          vm_build_ipmi_response req.seq (bit_or req.net_fn 0x01) req.lun req.cmd r.code
            r.payload in
        (record vs { ctx = c }, vm_escape_bytes resp ++ (msg_char ∷ []))
  ]

  unfoldable pub handle_frame : ℕ → Bytes → VmState M → VmState M × Bytes
  handle_frame terminator bs vs =
      if terminator == cmd_char
      then handle_control_command bs vs
      else if terminator == msg_char
      then handle_ipmi_msg bs vs
      else (vs, [])

  -- HandleConnection on all that the peer sends: the state, the bytes written and the end.
  unfoldable pub handle_connection : ℕ → Bytes → VmState M → VmState M × Bytes × Ended
  handle_connection zero input vs = (vs, [], out_of_fuel)
  handle_connection (suc fuel) input vs = elim (read_message [] input) [
    | closed ↦ (vs, [], closed_by_peer)
    | failed e ↦ (vs, [], bad_frame e)
    | message terminator bs rest ↦
        let (vs', out) = handle_frame terminator bs vs in
        let (vs'', more, ended) = handle_connection fuel rest vs' in (vs'', out ++ more, ended)
  ]
