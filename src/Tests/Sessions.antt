-- ===== src/Tests/Sessions.antt =====
-- The RMCP+ exchange with the session of the fixtures.
use qemu_bmc.Base.{
  ℕ, ◌+◌, ◌<◌, ◌%◌, le16, ◌==◌, ◌≡◌, ◌≢◌, ◌⊎◌, refl, ap, Bytes, true, [], ◌∷◌, ◌++◌, some, arith,
  take, drop, replicate, byte_at, bytes_eq, length, if◌then◌else◌, read_le32, lookup, insert,
}
use qemu_bmc.Bmc.Slots.{first_slot}
use qemu_bmc.Bmc.State.{new_state, validate_user_id}
use qemu_bmc.Bmc.Users.{lookup_user_by_name_locked, lookup_user_by_name, get_user_password}
use qemu_bmc.Ipmi.Dispatch.{handle_ipmi_command}
use qemu_bmc.Ipmi.RmcpPlus.OpenSession.{handle_open_session}
use qemu_bmc.Ipmi.RmcpPlus.OpenSession.Outcomes.{
  IsOpened, chosen, open_session_refuses, open_session_opens,
}
use qemu_bmc.Ipmi.RmcpPlus.Rakp.{
  stored_password, rakp1_password, rakp3_password, note_rakp1, rakp3_text, sik_text, with_keys,
  handle_rakp_message_1, handle_rakp_message_3,
}
use qemu_bmc.Ipmi.RmcpPlus.Rakp.Exchange.{rakp_exchange, rakp3_sound}
use qemu_bmc.Ipmi.RmcpPlus.Rakp.Refusals.{refused_name_authenticates}
use qemu_bmc.Ipmi.RmcpPlus.Keyed.{
  AreKeyed, new_session_manager-AreKeyed, put-AreKeyed, handle_rmcp_plus_message-AreKeyed,
}
use qemu_bmc.Ipmi.RmcpPlus.Message.{handle_rmcp_plus_message}
use qemu_bmc.Ipmi.RmcpPlus.Secured.{secured_response}
use qemu_bmc.Ipmi.RmcpPlus.Secured.Sessionless.{pre_session_executes, encrypted_before_rakp_panics}
use qemu_bmc.Ipmi.RmcpPlus.Secured.Trailer.{secured_response_authenticated}
use qemu_bmc.Ipmi.RmcpPlus.Wrap.{ServerState, wrap_rmcp_plus_response}
use qemu_bmc.Ipmi.Session.{new_session_manager, Session, get_session, put_session}
use qemu_bmc.Ipmi.Types.{ok, panic}
use qemu_bmc.Ipmi.Types.Payload
use qemu_bmc.Ipmi.Wire.{IpmiMessage, parse_ipmi_message_bytes}
use qemu_bmc.Machine.Host.{Machine}
use qemu_bmc.Tests.Fixtures.{admin, secret, platform, platform-Laws, mi, ctx, fresh, server}

abbrev eve : Bytes
eve = 101 ∷ 118 ∷ 101 ∷ []

abbrev message_1 : Bytes → Bytes
message_1 name = 0 ∷ 0 ∷ 0 ∷ 0 ∷ 2 ∷ 1 ∷ 0 ∷ 0 ∷ (replicate 16 1 ++ (4 ∷ 0 ∷ 0 ∷ 3 ∷ name))

-- The code under the password of the fixtures.
abbrev message_3 : Bytes
message_3 = 0 ∷ 0 ∷ 0 ∷ 0 ∷ 2 ∷ 1 ∷ 0 ∷ 0 ∷ (secret ++ (replicate 16 7 ++ (5 ∷ 0 ∷ [])))

abbrev proposal : ℕ → Bytes
proposal conf =
    1 ∷ 0 ∷ 0 ∷ 0 ∷ 5 ∷ 0 ∷ 0 ∷ 0 ∷ 0 ∷ 0 ∷ 0 ∷ 8 ∷ 1 ∷ 0 ∷ 0 ∷ 0 ∷ 1 ∷ 0 ∷ 0 ∷ 8 ∷ 1 ∷ 0 ∷ 0 ∷ 0
    ∷ 2 ∷ 0 ∷ 0 ∷ 8 ∷ conf ∷ 0 ∷ 0 ∷ 0 ∷ []

-- Chassis Control: power up.
abbrev power_up : Bytes
power_up = 0x20 ∷ 0x00 ∷ 0xE0 ∷ 0x81 ∷ 0x04 ∷ 0x02 ∷ 0x01 ∷ 0x78 ∷ []

abbrev power_up_message : IpmiMessage
power_up_message = record {
  target_address = 0x20;
  target_lun = 0x00;
  checksum = 0xE0;
  source_address = 0x81;
  source_lun = 0x04;
  command = 0x02;
  payload = 0x01 ∷ [];
}

abbrev ping : Bytes
ping = 6 ∷ 0 ∷ 0xFF ∷ 6 ∷ 0 ∷ 0 ∷ 0x11 ∷ 0xBE ∷ 0x80 ∷ 3 ∷ 0 ∷ 0 ∷ []

rakp3_sound_example :
    let st : ServerState (Machine ℕ) = server in
    ((handle_rakp_message_3 platform message_3 secret st).0 ≡ st)
    ⊎ ((s : Session) × (get_session st.sessions (read_le32 message_3 4) ≡ some s)
        × (take 20 (drop 8 message_3)
            ≡ platform.hmac_sha1 (rakp3_password st.ctx.bmc secret s.user_name) (rakp3_text s))
        × ((handle_rakp_message_3 platform message_3 secret st).0 ≡ record st {
          sessions =
              put_session
                (read_le32 message_3 4)
                (with_keys platform (rakp3_password st.ctx.bmc secret s.user_name) s)
                st.sessions;
        }))
rakp3_sound_example = rakp3_sound platform message_3 secret server

rakp_exchange_example :
    let st1 = (handle_rakp_message_1 platform (message_1 admin) admin secret server).0 in
    let st2 = (handle_rakp_message_3 platform message_3 secret st1).0 in
    let sik = platform.hmac_sha1 secret (replicate 16 1 ++ (replicate 16 7 ++ (4 ∷ 3 ∷ admin))) in
    (k : Session) × (get_session st2.sessions 258 ≡ some k)
    × (k.authenticated ≡ true)
    × (k.session_integrity_key ≡ sik)
    × (k.integrity_key ≡ platform.hmac_sha1 sik (replicate 20 0x01))
    × (k.confidentiality_key ≡ platform.hmac_sha1 sik (replicate 20 0x02))
unfolding get_session put_session lookup insert rakp1_password stored_password lookup_user_by_name
    lookup_user_by_name_locked first_slot get_user_password validate_user_id new_state bytes_eq
rakp_exchange_example =
    rakp_exchange platform (message_1 admin) message_3 admin secret server fresh {password = secret}
      (omega arith) refl refl (omega arith) refl refl

refused_name_authenticates_example :
    let s1 = note_rakp1 (message_1 eve) fresh in
    let (st1, r1) = handle_rakp_message_1 platform (message_1 eve) admin secret server in
    let st2 = (handle_rakp_message_3 platform message_3 secret st1).0 in
    (r1
      ≡ ok (
          0x06 ∷ 0x13 ∷ 0 ∷ 0 ∷ 0 ∷ 0 ∷ 0 ∷ 0 ∷ 0 ∷ 0 ∷ 8 ∷ 0 ∷ 0 ∷ 0x0D ∷ 0 ∷ 0 ∷ 5 ∷ 0 ∷ 0 ∷ 0
          ∷ []))
    × ((s2 : Session) × (get_session st2.sessions 258 ≡ some s2)
        × (s2.authenticated ≡ true)
        × (s2.user_name ≡ eve)
        × (s2.session_integrity_key ≡ platform.hmac_sha1 secret (sik_text s1)))
unfolding get_session put_session lookup insert stored_password lookup_user_by_name
    lookup_user_by_name_locked first_slot new_state bytes_eq
refused_name_authenticates_example =
    refused_name_authenticates platform (message_1 eve) message_3 admin secret server fresh
      (omega arith) refl refl (λ e. omega (arith, ap (λ bs. byte_at bs 0) e)) (omega arith) refl
      refl

open_session_refuses_example :
    (status : ℕ) × (handle_open_session platform (proposal 2) server ≡ (
      server,
      ok (
          0x06 ∷ 0x11 ∷ 0 ∷ 0 ∷ 0 ∷ 0 ∷ 0 ∷ 0 ∷ 0 ∷ 0 ∷ 8 ∷ 0 ∷ 1 ∷ status ∷ 0 ∷ 0 ∷ 5 ∷ 0 ∷ 0 ∷ 0
          ∷ []),
    ))
    × (((byte_at (proposal 2) 12 ≢ 1) × (status ≡ 0x11))
        ⊎ ((byte_at (proposal 2) 12 ≡ 1) × (byte_at (proposal 2) 20 ≢ 1) × (status ≡ 0x12))
        ⊎ ((byte_at (proposal 2) 12 ≡ 1)
            × (byte_at (proposal 2) 20 ≡ 1)
            × (byte_at (proposal 2) 28 ≢ 1)
            × (status ≡ 0x18)))
open_session_refuses_example =
    open_session_refuses platform (proposal 2) server (omega arith) (λ h. omega (arith, h.2))

open_session_opens_example :
    let (st', out) = handle_open_session platform (proposal 1) server in
    (s : Session) × IsOpened 5 0x07070707 (replicate 16 7) (replicate 16 7) s
    × (out
        ≡ ok (
            0x06
            ∷ 0x11
            ∷ 0
            ∷ 0
            ∷ 0
            ∷ 0
            ∷ 0
            ∷ 0
            ∷ 0
            ∷ 0
            ∷ 36
            ∷ 0
            ∷ 1
            ∷ 0
            ∷ 4
            ∷ 0
            ∷ 5
            ∷ 0
            ∷ 0
            ∷ 0
            ∷ 7
            ∷ 7
            ∷ 7
            ∷ 7
            ∷ chosen 0 (chosen 1 (chosen 2 []))))
    × ((id : ℕ)
        → get_session st'.sessions id
          ≡ (if 0x07070707 == id then some s else get_session server.sessions id))
open_session_opens_example =
    open_session_opens platform (proposal 1) (replicate 4 7) (replicate 16 7) (replicate 16 7)
      server (omega arith) (refl, refl, refl) refl refl refl

secured_response_authenticated_example :
    let (s', out) = secured_response platform true 0xC0 power_up fresh in
    let message = 0x06 ∷ 0xC0 ∷ 5 ∷ 0 ∷ 0 ∷ 0 ∷ 1 ∷ 0 ∷ 0 ∷ 0 ∷ 8 ∷ 0 ∷ power_up in
    (s' ≡ record fresh { outbound_sequence_number = 1 })
    × ((k : ℕ) × (signed : Bytes) × (k < 4)
        × (signed ≡ message ++ (replicate k 0xFF ++ (k ∷ 0x07 ∷ [])))
        × (length signed % 4 ≡ 0)
        × (out ≡ signed ++ take 12 (platform.hmac_sha1 fresh.integrity_key signed))
        × (length out ≡ length signed + 12))
secured_response_authenticated_example =
    secured_response_authenticated platform platform-Laws 0xC0 power_up fresh

pre_session_executes_example :
    let bs = 0x06 ∷ 0x00 ∷ 0 ∷ 0 ∷ 0 ∷ 0 ∷ 9 ∷ 0 ∷ 0 ∷ 0 ∷ 8 ∷ 0 ∷ power_up in
    let (c, r) = handle_ipmi_command mi platform power_up_message ctx in
    (answer : Bytes) × (m : IpmiMessage) × (handle_rmcp_plus_message mi platform bs admin secret
        server
      ≡ (
        record server { ctx = c },
        ok (0x06 ∷ 0x00 ∷ 0 ∷ 0 ∷ 0 ∷ 0 ∷ 0 ∷ 0 ∷ 0 ∷ 0 ∷ (le16 (length answer) ++ answer)),
      ))
    × (parse_ipmi_message_bytes answer ≡ ok m)
    × (m.command ≡ 0x02)
    × (m.source_lun ≡ 0x04)
    × (m.payload ≡ r.code ∷ r.payload)
unfolding parse_ipmi_message_bytes
pre_session_executes_example =
    pre_session_executes mi platform 9 power_up admin secret power_up_message server (omega arith)
      refl

encrypted_before_rakp_panics_example :
    let bs : Bytes = 0x06 ∷ 0x80 ∷ 2 ∷ 1 ∷ 0 ∷ 0 ∷ 9 ∷ 0 ∷ 0 ∷ 0 ∷ 16 ∷ 0 ∷ replicate 16 0 in
    handle_rmcp_plus_message mi platform bs admin secret server ≡ (server, panic)
unfolding get_session put_session lookup insert
encrypted_before_rakp_panics_example =
    encrypted_before_rakp_panics mi platform 258 9 (replicate 16 0) admin secret fresh server
      (omega arith) (omega arith) refl refl (omega arith) (omega arith)

handle_rmcp_plus_message-AreKeyed_example :
    AreKeyed
      (handle_rmcp_plus_message mi platform
        (wrap_rmcp_plus_response Payload.rakp_message_3 0 0 message_3)
        admin
        secret
        server).0.sessions
unfolding new_session_manager
handle_rmcp_plus_message-AreKeyed_example =
    handle_rmcp_plus_message-AreKeyed mi platform
      (wrap_rmcp_plus_response Payload.rakp_message_3 0 0 message_3) admin secret server
      (put-AreKeyed 258 fresh [] (λ e. refl) new_session_manager-AreKeyed)
