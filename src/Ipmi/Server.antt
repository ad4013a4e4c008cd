-- ===== src/Ipmi/Server.antt =====
-- internal/ipmi/server.go: the LAN server, from a datagram to the answer, and its loop.
pub mod Datagrams
use qemu_bmc.Base.{
  ℕ, Bytes, Bool, List, [], ◌∷◌, ◌++◌, Option, none, some, ltb, ◌==◌, not, length, take, byte_at,
  bit_or, replicate, if◌then◌else◌,
}
use qemu_bmc.Ipmi.Dispatch.{handle_ipmi_command}
use qemu_bmc.Ipmi.Env.{Platform, MachineInterface}
use qemu_bmc.Ipmi.RmcpPlus.Message.{handle_rmcp_plus_message}
use qemu_bmc.Ipmi.RmcpPlus.Wrap.{ServerState}
use qemu_bmc.Ipmi.Types.{
  Outcome, ok, err, panic, too_short, bad_class, bad_asf_type, not_parsed, rmcp_class_asf,
  rmcp_class_ipmi, rmcp_version_1,
}
use qemu_bmc.Ipmi.Types.AuthType
use qemu_bmc.Ipmi.Wire.{
  SessionHeader, IpmiMessage, get_net_fn, parse_rmcp_message, serialize_rmcp_message,
  parse_ipmi15_message, serialize_ipmi_response,
}

-- The Presence Pong: RMCP header, ASF header with the echoed tag, and 16 bytes of data.
unfoldable pub asf_pong : ℕ → Bytes
asf_pong tag =
    rmcp_version_1
    ∷ 0x00
    ∷ 0xFF
    ∷ rmcp_class_asf
    ∷ 0x00
    ∷ 0x00
    ∷ 0x11
    ∷ 0xBE
    ∷ 0x40
    ∷ tag
    ∷ 0x00
    ∷ 0x10
    ∷ 0x00
    ∷ 0x00
    ∷ 0x11
    ∷ 0xBE
    ∷ 0
    ∷ 0
    ∷ 0
    ∷ 0
    ∷ 0x81
    ∷ 0x00
    ∷ replicate 6 0

unfoldable pub handle_asf_ping : Bytes → Outcome Bytes
unfolding asf_pong
handle_asf_ping payload =
    if ltb (length payload) 8
    then err too_short
    else if not (byte_at payload 4 == 0x80)
    then err bad_asf_type
    else ok (asf_pong (byte_at payload 5))

-- The answer of the RMCP+ layer in an RMCP frame.
abbrev pub framed : Outcome Bytes → Outcome Bytes
framed (ok resp) = ok (serialize_rmcp_message rmcp_class_ipmi resp)
framed (err e) = err e
framed panic = panic

-- `len(payload) > 0 && payload[0] == AuthTypeRMCPPlus`
abbrev pub is_rmcp_plus : Bytes → Bool
is_rmcp_plus [] = Bool.false
is_rmcp_plus (b ∷ bs) = b == AuthType.rmcp_plus

module _ {M : Type 0} (mi : MachineInterface M) (p : Platform) where
  -- An IPMI 1.5 message; its authentication code is not compared.
  unfoldable pub handle_ipmi15 : Bytes → Bytes → ServerState M → ServerState M × Outcome Bytes
  handle_ipmi15 payload pass st = elim (parse_ipmi15_message payload) [
    | err e ↦ (st, err e)
    | panic ↦ (st, panic)
    | ok (session, none) ↦ (st, err not_parsed)
    | ok (session, some msg) ↦
        let (c, r) = handle_ipmi_command mi p msg st.ctx in
        let resp =
          serialize_ipmi_response p.md5 session (bit_or (get_net_fn msg) 0x01) msg.command r.code
            r.payload msg.source_lun pass in
        (record st { ctx = c }, ok (serialize_rmcp_message rmcp_class_ipmi resp))
  ]

  -- What follows the RMCP header, by class.
  unfoldable pub handle_class :
      Bytes → Bytes → ℕ → Bytes → ServerState M → ServerState M × Outcome Bytes
  unfolding handle_ipmi15
  handle_class user pass class payload st =
      if class == rmcp_class_asf
      then (st, handle_asf_ping payload)
      else if not (class == rmcp_class_ipmi)
      then (st, err bad_class)
      else if is_rmcp_plus payload
      then (let (st', r) = handle_rmcp_plus_message mi p payload user pass st in (st', framed r))
      else handle_ipmi15 payload pass st

  unfoldable pub handle_message :
      Bytes → Bytes → Bytes → ServerState M → ServerState M × Outcome Bytes
  unfolding handle_class
  handle_message user pass bs st = elim (parse_rmcp_message bs) [
    | err e ↦ (st, err e)
    | panic ↦ (st, panic)
    | ok (header, payload) ↦ handle_class user pass header.class payload st
  ]

  -- Server.serve over the datagrams that arrive, each with its sender, until ReadFrom fails: the
  -- final state and the answers sent. An error is logged and the loop goes on; a panic ends the
  -- process, and with it the loop. A datagram is read into a buffer of 1024 bytes.
  unfoldable pub serve :
      Bytes → Bytes → List (ℕ × Bytes) → ServerState M → ServerState M × Bool × List (ℕ × Bytes)
  serve user pass [] st = (st, Bool.false, [])
  serve user pass ((addr, bs) ∷ rest) st =
      let (st', r) = handle_message user pass (take 1024 bs) st in
      let (st'', crashed, sent) = serve user pass rest st' in
      elim r [
        | err e ↦ (st'', crashed, sent)
        | panic ↦ (st', Bool.true, [])
        | ok resp ↦ (st'', crashed, (addr, resp) ∷ sent)
      ]
