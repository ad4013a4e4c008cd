-- ===== src/Ipmi/VmProtocol.antt =====
-- internal/ipmi/vm_protocol.go: the wire protocol of QEMU's ipmi-bmc-extern, and the framing reader
-- of internal/ipmi/vm_server.go.
pub mod Escape
pub mod Requests
pub mod Progress
use qemu_bmc.Base.{
  ℕ, ◌+◌, ◌-◌, ◌/◌, ◌%◌, Bytes, Bool, true, false, List, [], ◌∷◌, ◌++◌, ltb, ◌==◌, ◌||◌, not,
  length, take, drop, byte_at, shl8, negate8, sum_bytes, if◌then◌else◌, bit_or, bit_and,
}
use qemu_bmc.Ipmi.Types.{
  Outcome, ok, err, panic, IpmiError, ◌>>=◌, too_short, checksum_mismatch, trailing_escape,
  empty_command, read_failed,
}

abbrev pub msg_char : ℕ
msg_char = 0xA0

abbrev pub cmd_char : ℕ
cmd_char = 0xA1

abbrev pub escape_char : ℕ
escape_char = 0xAA

abbrev pub cmd_no_attn : ℕ
cmd_no_attn = 0x00

abbrev pub cmd_capabilities : ℕ
cmd_capabilities = 0x08

abbrev pub cmd_version : ℕ
cmd_version = 0xFF

pub record VmRequest : Type 0 where
  pub seq : ℕ
  pub net_fn : ℕ
  pub lun : ℕ
  pub cmd : ℕ
  pub payload : Bytes

unfoldable pub is_special : ℕ → Bool
is_special b = b == msg_char || b == cmd_char || b == escape_char

unfoldable pub vm_escape_bytes : Bytes → Bytes
unfolding is_special
vm_escape_bytes [] = []
vm_escape_bytes (b ∷ bs) =
    let rest = vm_escape_bytes bs in
    if is_special b then escape_char ∷ bit_or b 0x10 ∷ rest else b ∷ rest

-- `data[i] & ^uint8(0x10)` clears bit 4.
unfoldable pub vm_unescape_bytes : Bytes → Outcome Bytes
vm_unescape_bytes [] = ok []
vm_unescape_bytes (b ∷ []) = if b == escape_char then err trailing_escape else ok (b ∷ [])
vm_unescape_bytes (b ∷ c ∷ cs) = elim (b == escape_char) [
  | true ↦ vm_unescape_bytes cs >>= λ r. ok (bit_and c 0xEF ∷ r)
  | false ↦ vm_unescape_bytes (c ∷ cs) >>= λ r. ok (b ∷ r)
]

unfoldable pub vm_checksum : Bytes → ℕ
vm_checksum bs = negate8 (sum_bytes 0 bs)

unfoldable pub vm_parse_ipmi_request : Bytes → Outcome VmRequest
vm_parse_ipmi_request bs =
    if ltb (length bs) 4
    then err too_short
    else if not (sum_bytes 0 bs % 256 == 0)
    then err checksum_mismatch
    else ok (record {
      seq = byte_at bs 0;
      net_fn = byte_at bs 1 / 4 % 64;
      lun = byte_at bs 1 % 4;
      cmd = byte_at bs 2;
      payload = if ltb 4 (length bs) then take (length bs - 4) (drop 3 bs) else [];
    })

unfoldable pub vm_build_ipmi_response : ℕ → ℕ → ℕ → ℕ → ℕ → Bytes → Bytes
unfolding vm_checksum
vm_build_ipmi_response seq net_fn lun cmd cc payload =
    let result : Bytes = seq ∷ bit_or (shl8 net_fn 2) (lun % 4) ∷ cmd ∷ cc ∷ payload in
    result ++ (vm_checksum result ∷ [])

unfoldable pub vm_parse_control_command : Bytes → Outcome (ℕ × Bytes)
vm_parse_control_command [] = err empty_command
vm_parse_control_command (cmd ∷ rest) = ok (cmd, rest)

unfoldable pub vm_build_control_command : ℕ → Bytes → Bytes
vm_build_control_command cmd payload = cmd ∷ payload

-- What one call of vmReader.ReadMessage ends with: a message with the bytes still unread, the error
-- of the connection, or an error of the unescaping.
pub data Read : Type 0 where
  message : ℕ → Bytes → Bytes → Read
  closed : Read
  failed : IpmiError → Read

abbrev pub finish_message : ℕ → Bytes → Bytes → Read
finish_message terminator buf rest = elim (vm_unescape_bytes buf) [
  | ok bs ↦ message terminator bs rest
  | err e ↦ failed e
  | panic ↦ failed read_failed
]

-- The second list is what the peer sends until the connection ends or breaks.
unfoldable pub read_message : Bytes → Bytes → Read
read_message buf [] = closed
read_message buf (b ∷ rest) =
    let more = read_message (buf ++ (b ∷ [])) rest in
    if b == msg_char || b == cmd_char then finish_message b buf rest else more
