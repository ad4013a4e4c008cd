-- ===== src/Ipmi/Wire.antt =====
-- internal/ipmi/rmcp.go: RMCP frames, IPMI 1.5 session wrappers and IPMI messages on the wire.
pub mod Checksums
pub mod Frames
use qemu_bmc.Base.{
  ℕ, ◌+◌, ◌-◌, ◌/◌, ◌%◌, ◌^◌, Bytes, Bool, List, [], ◌∷◌, ◌++◌, Option, none, some, ltb, ◌==◌,
  length, take, drop, replicate, byte_at, read_le32, le32, shl8, negate8, sum_bytes, if◌then◌else◌,
}
use qemu_bmc.Ipmi.Types.{Outcome, ok, err, ◌>>=◌, too_short, bad_version, truncated, rmcp_version_1}
use qemu_bmc.Ipmi.Types.AuthType

pub record RmcpHeader : Type 0 where
  pub version : ℕ
  pub reserved : ℕ
  pub sequence : ℕ
  pub class : ℕ

pub record SessionHeader : Type 0 where
  pub auth_type : ℕ
  pub sequence_number : ℕ
  pub session_id : ℕ

-- `payload` is the field Data; a nil slice and an empty one are the same list.
pub record IpmiMessage : Type 0 where
  pub target_address : ℕ
  pub target_lun : ℕ
  pub checksum : ℕ
  pub source_address : ℕ
  pub source_lun : ℕ
  pub command : ℕ
  pub payload : Bytes

-- `(m.TargetLun >> 2) & 0x3F`
abbrev pub get_net_fn : IpmiMessage → ℕ
get_net_fn m = m.target_lun / 4 % 64

unfoldable pub parse_rmcp_message : Bytes → Outcome (RmcpHeader × Bytes)
parse_rmcp_message bs =
    let header : RmcpHeader = record {
      version = byte_at bs 0;
      reserved = byte_at bs 1;
      sequence = byte_at bs 2;
      class = byte_at bs 3;
    } in
    if ltb (length bs) 4
    then err too_short
    else if byte_at bs 0 == rmcp_version_1
    then ok (header, drop 4 bs)
    else err bad_version

unfoldable pub serialize_rmcp_message : ℕ → Bytes → Bytes
serialize_rmcp_message class payload = rmcp_version_1 ∷ 0x00 ∷ 0xFF ∷ class ∷ payload

-- `data[6 : len(data)-1]`: the bytes between the command and the trailing checksum.
unfoldable pub parse_ipmi_message_bytes : Bytes → Outcome IpmiMessage
parse_ipmi_message_bytes bs =
    if ltb (length bs) 7
    then err too_short
    else ok (record {
      target_address = byte_at bs 0;
      target_lun = byte_at bs 1;
      checksum = byte_at bs 2;
      source_address = byte_at bs 3;
      source_lun = byte_at bs 4;
      command = byte_at bs 5;
      payload = if ltb 7 (length bs) then take (length bs - 7) (drop 6 bs) else [];
    })

-- The length byte and the message that it counts, from what is left of the buffer.
unfoldable pub read_counted_message : Bytes → Outcome IpmiMessage
unfolding parse_ipmi_message_bytes
read_counted_message [] = err truncated
read_counted_message (n ∷ rest) =
    if ltb (length rest) n then err truncated else parse_ipmi_message_bytes (take n rest)

-- No message comes with an RMCP+ header; any other authentication carries 16 bytes of code.
unfoldable pub parse_ipmi15_message : Bytes → Outcome (SessionHeader × Option IpmiMessage)
parse_ipmi15_message bs =
    let session : SessionHeader = record {
      auth_type = byte_at bs 0;
      sequence_number = read_le32 bs 1;
      session_id = read_le32 bs 5;
    } in
    let rest = drop 9 bs in
    if ltb (length bs) 10
    then err too_short
    else if byte_at bs 0 == AuthType.rmcp_plus
    then ok (session, none)
    else if byte_at bs 0 == AuthType.none
    then (read_counted_message rest >>= λ m. ok (session, some m))
    else if ltb (length rest) 16
    then err truncated
    else (read_counted_message (drop 16 rest) >>= λ m. ok (session, some m))

unfoldable pub build_ipmi_response_message_with_seq : ℕ → ℕ → ℕ → Bytes → ℕ → Bytes
build_ipmi_response_message_with_seq net_fn cmd code payload req_seq_lun =
    let target_addr : ℕ = 0x81 in
    let source_addr : ℕ = 0x20 in
    let target_lun = shl8 net_fn 2 in
    let header_sum = (target_addr + target_lun) % 2 ^ 32 in
    let data_sum = sum_bytes ((source_addr + req_seq_lun + cmd + code) % 2 ^ 32) payload in
    target_addr
    ∷ target_lun
    ∷ negate8 header_sum
    ∷ source_addr
    ∷ req_seq_lun
    ∷ cmd
    ∷ code
    ∷ (payload ++ (negate8 data_sum ∷ []))

unfoldable pub build_ipmi_response_message : ℕ → ℕ → ℕ → Bytes → Bytes
unfolding build_ipmi_response_message_with_seq
build_ipmi_response_message net_fn cmd code payload =
    build_ipmi_response_message_with_seq net_fn cmd code payload 0x00

-- `copy` into 16 zero bytes: cut or padded to 16.
abbrev pub pad16 : Bytes → Bytes
pad16 bs = take 16 (bs ++ replicate 16 0)

-- `md5` stands for crypto/md5; all types but MD5 get a code of zeros.
unfoldable pub compute_ipmi15_auth_code : (Bytes → Bytes) → ℕ → Bytes → ℕ → ℕ → Bytes → Bytes
compute_ipmi15_auth_code md5 auth_type password session_id seq_num msg =
    let key = pad16 password in
    if auth_type == AuthType.md5
    then pad16 (md5 (key ++ (le32 session_id ++ (msg ++ (le32 seq_num ++ key)))))
    else replicate 16 0

unfoldable pub serialize_ipmi_response :
    (Bytes → Bytes) → SessionHeader → ℕ → ℕ → ℕ → Bytes → ℕ → Bytes → Bytes
unfolding build_ipmi_response_message_with_seq compute_ipmi15_auth_code
serialize_ipmi_response md5 session net_fn cmd code payload req_seq_lun password =
    let msg = build_ipmi_response_message_with_seq net_fn cmd code payload req_seq_lun in
    let auth_code =
      if session.auth_type == AuthType.none
      then []
      else compute_ipmi15_auth_code md5 session.auth_type password session.session_id
          session.sequence_number msg in
    session.auth_type
    ∷ (le32 session.sequence_number
        ++ (le32 session.session_id ++ (auth_code ++ (length msg % 256 ∷ msg))))

-- Checksum(data ...uint8)
unfoldable pub checksum : Bytes → ℕ
checksum bs = negate8 (sum_bytes 0 bs)
