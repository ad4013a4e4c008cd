-- ===== src/Ipmi/RmcpPlus/Rakp.antt =====
-- handleRAKPMessage1 and handleRAKPMessage3 of internal/ipmi/rmcp_plus.go: the key exchange.
pub mod Exchange
pub mod Refusals
use qemu_bmc.Base.{
  ℕ, ◌+◌, Bytes, Bool, true, false, List, [], ◌∷◌, ◌++◌, Option, none, some, ltb, not, length, take,
  drop, byte_at, le32, read_le32, replicate, bytes_eq, if◌then◌else◌, Result,
}
use qemu_bmc.Bmc.State.{State}
use qemu_bmc.Bmc.Users.{lookup_user_by_name, get_user_password}
use qemu_bmc.Ipmi.Env.{Platform, Ctx}
use qemu_bmc.Ipmi.Session.{Session, Sessions, get_session, put_session}
use qemu_bmc.Ipmi.RmcpPlus.Wrap.{ServerState, wrap_rmcp_plus_response}
use qemu_bmc.Ipmi.Types.{Outcome, ok, err, too_short, session_not_found}
use qemu_bmc.Ipmi.Types.Payload

-- The password that the BMC state has for a name; the empty one when it has none.
unfoldable pub stored_password : State → Bytes → Bytes
stored_password s name = elim (lookup_user_by_name s name) [
  | none ↦ []
  | some id ↦ elim (get_user_password s id) [ Result.ok pw ↦ pw | Result.err _ ↦ [] ]
]

-- Message 1 takes the configured password for the configured name alone.
unfoldable pub rakp1_password : State → Bytes → Bytes → Bytes → Option Bytes
unfolding stored_password
rakp1_password s user pass name =
    let stored = stored_password s name in
    if bytes_eq stored []
    then (if not (bytes_eq name user) then none else some pass)
    else some stored

-- Message 3 takes the configured password for every name without a stored one.
unfoldable pub rakp3_password : State → Bytes → Bytes → Bytes
unfolding stored_password
rakp3_password s pass name =
    let stored = stored_password s name in if bytes_eq stored [] then pass else stored

-- What the session remembers of message 1.
abbrev pub note_rakp1 : Bytes → Session → Session
note_rakp1 payload s = record s {
  remote_console_random = take 16 (drop 8 payload);
  requested_privilege_level = byte_at payload 24;
  user_name_length = byte_at payload 27;
  user_name = take (byte_at payload 27) (drop 28 payload);
}

abbrev pub name_part : Session → Bytes
name_part s = s.requested_privilege_level ∷ s.user_name_length ∷ s.user_name

-- The texts under the four HMACs of the exchange.
abbrev pub rakp2_text : Session → Bytes
rakp2_text s =
    le32 s.remote_console_session_id
    ++ (le32 s.managed_system_session_id
        ++ (s.remote_console_random
            ++ (s.managed_system_random ++ (s.managed_system_guid ++ name_part s))))

abbrev pub rakp3_text : Session → Bytes
rakp3_text s = s.managed_system_random ++ (le32 s.remote_console_session_id ++ name_part s)

abbrev pub sik_text : Session → Bytes
sik_text s = s.remote_console_random ++ (s.managed_system_random ++ name_part s)

abbrev pub rakp4_text : Session → Bytes
rakp4_text s =
    s.remote_console_random ++ (le32 s.managed_system_session_id ++ s.managed_system_guid)

-- A refusal: tag, status, two reserved bytes and the client's session id.
unfoldable pub rakp_refusal : ℕ → ℕ → ℕ → Session → Bytes
rakp_refusal kind tag status s =
    wrap_rmcp_plus_response kind 0 0 (tag ∷ status ∷ 0 ∷ 0 ∷ le32 s.remote_console_session_id)

module _ (p : Platform) where
  unfoldable pub rakp2_response : ℕ → Bytes → Session → Bytes
  rakp2_response tag password s = wrap_rmcp_plus_response Payload.rakp_message_2 0 0 (
      tag
      ∷ 0x00
      ∷ 0
      ∷ 0
      ∷ (le32 s.remote_console_session_id
          ++ (s.managed_system_random
              ++ (s.managed_system_guid ++ take 20 (p.hmac_sha1 password (rakp2_text s))))))

  -- The session integrity key and the two keys that come from it.
  unfoldable pub with_keys : Bytes → Session → Session
  with_keys password s =
      let sik = p.hmac_sha1 password (sik_text s) in
      record s {
        session_integrity_key = sik;
        integrity_key = p.hmac_sha1 sik (replicate 20 0x01);
        confidentiality_key = p.hmac_sha1 sik (replicate 20 0x02);
        authenticated = true;
      }

  unfoldable pub rakp4_response : ℕ → Session → Bytes
  rakp4_response tag s = wrap_rmcp_plus_response Payload.rakp_message_4 0 0 (
      tag
      ∷ 0x00
      ∷ 0
      ∷ 0
      ∷ (le32 s.remote_console_session_id
          ++ take 12 (p.hmac_sha1 s.session_integrity_key (rakp4_text s))))

module _ {M : Type 0} (p : Platform) where
  unfoldable pub handle_rakp_message_1 :
      Bytes → Bytes → Bytes → ServerState M → ServerState M × Outcome Bytes
  handle_rakp_message_1 payload user pass st =
      let tag = byte_at payload 0 in
      let id = read_le32 payload 4 in
      if ltb (length payload) 28
      then (st, err too_short)
      else if ltb (length payload) (28 + byte_at payload 27)
      then (st, err too_short)
      else elim (get_session st.sessions id) [
        | none ↦ (st, err session_not_found)
        | some s ↦
            let s' = note_rakp1 payload s in
            let st' : ServerState M = record st { sessions = put_session id s' st.sessions } in
            elim (rakp1_password st.ctx.bmc user pass s'.user_name) [
              | none ↦ (st', ok (rakp_refusal Payload.rakp_message_2 tag 0x0D s'))
              | some password ↦ (st', ok (rakp2_response p tag password s'))
            ]
      ]

  unfoldable pub handle_rakp_message_3 :
      Bytes → Bytes → ServerState M → ServerState M × Outcome Bytes
  handle_rakp_message_3 payload pass st =
      let tag = byte_at payload 0 in
      let id = read_le32 payload 4 in
      if ltb (length payload) 28 then (st, err too_short) else elim (get_session st.sessions id) [
        | none ↦ (st, err session_not_found)
        | some s ↦
            let password = rakp3_password st.ctx.bmc pass s.user_name in
            let s' = with_keys p password s in
            if not (bytes_eq (take 20 (drop 8 payload)) (p.hmac_sha1 password (rakp3_text s)))
            then (st, ok (rakp_refusal Payload.rakp_message_4 tag 0x0F s))
            else (
              record st { sessions = put_session id s' st.sessions },
              ok (rakp4_response p tag s'),
            )
      ]
