-- ===== src/Ipmi/RmcpPlus/Wrap.antt =====
-- internal/ipmi/rmcp_plus.go: the 12-byte session header, read and written, and the server state.
use qemu_bmc.Base.{
  ℕ, ◌+◌, ◌%◌, ◌^◌, Bytes, ◌∷◌, ◌++◌, length, byte_at, le16, le32, read_le16, read_le32,
}
use qemu_bmc.Ipmi.Env.{Ctx}
use qemu_bmc.Ipmi.Session.{Session, Sessions}

pub record PlusHeader : Type 0 where
  pub auth_type : ℕ
  pub payload_type : ℕ
  pub session_id : ℕ
  pub session_sequence : ℕ
  pub payload_length : ℕ

abbrev pub read_plus_header : Bytes → PlusHeader
read_plus_header bs = record {
  auth_type = byte_at bs 0;
  payload_type = byte_at bs 1;
  session_id = read_le32 bs 2;
  session_sequence = read_le32 bs 6;
  payload_length = read_le16 bs 10;
}

-- `uint16(len(payload))` keeps the two low bytes of the length.
unfoldable pub wrap_rmcp_plus_response : ℕ → ℕ → ℕ → Bytes → Bytes
wrap_rmcp_plus_response payload_type session_id sequence payload =
    0x06 ∷ payload_type ∷ (le32 session_id ++ (le32 sequence ++ (le16 (length payload) ++ payload)))

-- The session with its counter advanced, and the message that carries the new number.
abbrev pub next_outbound : Session → Session
next_outbound s = record s { outbound_sequence_number = (s.outbound_sequence_number + 1) % 2 ^ 32 }

unfoldable pub build_rmcp_plus_encrypted_response : Session → ℕ → Bytes → Session × Bytes
unfolding wrap_rmcp_plus_response
build_rmcp_plus_encrypted_response s payload_type payload =
    let s' = next_outbound s in
    (
      s',
      wrap_rmcp_plus_response payload_type s.remote_console_session_id s'.outbound_sequence_number
          payload,
    )

-- The state of the LAN server: what commands change, and the sessions.
pub record ServerState (M : Type 0) : Type 0 where
  pub ctx : Ctx M
  pub sessions : Sessions
