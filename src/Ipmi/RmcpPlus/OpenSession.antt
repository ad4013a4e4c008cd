-- ===== src/Ipmi/RmcpPlus/OpenSession.antt =====
-- handleOpenSession and buildOpenSessionError of internal/ipmi/rmcp_plus.go.
pub mod Outcomes
use qemu_bmc.Base.{
  ℕ, Bytes, Bool, List, [], ◌∷◌, ◌++◌, ltb, ◌==◌, not, length, byte_at, le32, read_le32,
  if◌then◌else◌,
}
use qemu_bmc.Ipmi.Env.{Platform, Ctx}
use qemu_bmc.Ipmi.Session.{Session, create_session, put_session}
use qemu_bmc.Ipmi.RmcpPlus.Wrap.{ServerState, wrap_rmcp_plus_response}
use qemu_bmc.Ipmi.Types.{
  Outcome, ok, err, panic, too_short, auth_hmac_sha1, integrity_hmac_sha1_96, conf_aes_cbc_128,
}
use qemu_bmc.Ipmi.Types.Payload
use qemu_bmc.Ipmi.Types.OpenStatus

-- The fields of the 32-byte request that the handler reads.
pub record OpenSessionRequest : Type 0 where
  pub message_tag : ℕ
  pub max_privilege_level : ℕ
  pub remote_console_session_id : ℕ
  pub auth_algorithm : ℕ
  pub integrity_algorithm : ℕ
  pub conf_algorithm : ℕ

abbrev pub read_open_session_request : Bytes → OpenSessionRequest
read_open_session_request bs = record {
  message_tag = byte_at bs 0;
  max_privilege_level = byte_at bs 1;
  remote_console_session_id = read_le32 bs 4;
  auth_algorithm = byte_at bs 12;
  integrity_algorithm = byte_at bs 20;
  conf_algorithm = byte_at bs 28;
}

unfoldable pub build_open_session_error : ℕ → ℕ → ℕ → Bytes
build_open_session_error tag remote status =
    wrap_rmcp_plus_response Payload.open_session_response 0 0
      (tag ∷ status ∷ 0x00 ∷ 0x00 ∷ le32 remote)

-- An algorithm payload of the response: type, length 8 and the algorithm.
abbrev pub algorithm_payload : ℕ → ℕ → Bytes
algorithm_payload kind algorithm = kind ∷ 0 ∷ 0 ∷ 0x08 ∷ algorithm ∷ 0 ∷ 0 ∷ 0 ∷ []

unfoldable pub open_session_response : ℕ → Session → Bytes
open_session_response tag s = wrap_rmcp_plus_response Payload.open_session_response 0 0 (
    tag
    ∷ OpenStatus.success
    ∷ 0x04
    ∷ 0x00
    ∷ (le32 s.remote_console_session_id
        ++ (le32 s.managed_system_session_id
            ++ (algorithm_payload 0x00 s.auth_algorithm
                ++ (algorithm_payload 0x01 s.integrity_algorithm
                    ++ algorithm_payload 0x02 s.confidentiality_algorithm)))))

-- The negotiated algorithms are stored in the session.
abbrev pub negotiated : Session → Session
negotiated s = record s {
  auth_algorithm = auth_hmac_sha1;
  integrity_algorithm = integrity_hmac_sha1_96;
  confidentiality_algorithm = conf_aes_cbc_128;
}

module _ {M : Type 0} (p : Platform) where
  -- The part that follows when the proposed algorithms are supported.
  unfoldable pub accept_session : OpenSessionRequest → ServerState M → ServerState M × Outcome Bytes
  accept_session req st =
      let (c, sm, made) = create_session p req.remote_console_session_id st.ctx st.sessions in
      elim made [
        | err e ↦ (record { ctx = c; sessions = sm }, err e)
        | panic ↦ (record { ctx = c; sessions = sm }, panic)
        | ok s ↦
            let s' = negotiated s in
            (
              record { ctx = c; sessions = put_session s.managed_system_session_id s' sm },
              ok (open_session_response req.message_tag s'),
            )
      ]

  unfoldable pub handle_open_session : Bytes → ServerState M → ServerState M × Outcome Bytes
  handle_open_session payload st =
      let req = read_open_session_request payload in
      let refuse = λ (status : ℕ).
        build_open_session_error req.message_tag req.remote_console_session_id status in
      if ltb (length payload) 32
      then (st, err too_short)
      else if not (req.auth_algorithm == auth_hmac_sha1)
      then (st, ok (refuse OpenStatus.invalid_auth_algorithm))
      else if not (req.integrity_algorithm == integrity_hmac_sha1_96)
      then (st, ok (refuse OpenStatus.invalid_integrity_algorithm))
      else if not (req.conf_algorithm == conf_aes_cbc_128)
      then (st, ok (refuse OpenStatus.invalid_conf_algorithm))
      else accept_session req st
