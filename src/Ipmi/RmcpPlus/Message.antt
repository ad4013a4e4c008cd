-- ===== src/Ipmi/RmcpPlus/Message.antt =====
-- HandleRMCPPlusMessage of internal/ipmi/rmcp_plus.go: the header, and the dispatch on its type.
use qemu_bmc.Base.{◌%◌, Bytes, ltb, ◌==◌, length, drop, if◌then◌else◌}
use qemu_bmc.Ipmi.Env.{Platform, MachineInterface}
use qemu_bmc.Ipmi.RmcpPlus.Wrap.{ServerState, read_plus_header}
use qemu_bmc.Ipmi.RmcpPlus.OpenSession.{handle_open_session}
use qemu_bmc.Ipmi.RmcpPlus.Rakp.{handle_rakp_message_1, handle_rakp_message_3}
use qemu_bmc.Ipmi.RmcpPlus.Secured.{handle_pre_session_ipmi, handle_encrypted_ipmi}
use qemu_bmc.Ipmi.Types.{Outcome, err, too_short, bad_payload_type}
use qemu_bmc.Ipmi.Types.Payload

module _ {M : Type 0} (mi : MachineInterface M) (p : Platform) where
  unfoldable pub handle_rmcp_plus_message :
      Bytes → Bytes → Bytes → ServerState M → ServerState M × Outcome Bytes
  handle_rmcp_plus_message bs user pass st =
      let header = read_plus_header bs in
      let kind = header.payload_type % 64 in
      let body = drop 12 bs in
      if ltb (length bs) 12
      then (st, err too_short)
      else if kind == Payload.open_session_request
      then handle_open_session p body st
      else if kind == Payload.rakp_message_1
      then handle_rakp_message_1 p body user pass st
      else if kind == Payload.rakp_message_3
      then handle_rakp_message_3 p body pass st
      else if kind == Payload.ipmi
      then (if header.session_id == 0
          then handle_pre_session_ipmi mi p bs header st
          else handle_encrypted_ipmi mi p bs header st)
      else (st, err bad_payload_type)
