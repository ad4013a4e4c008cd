-- ===== src/Ipmi/RmcpPlus/Secured.antt =====
-- handlePreSessionIPMI and handleEncryptedIPMI of internal/ipmi/rmcp_plus.go.
pub mod Trailer
pub mod Sessionless
use qemu_bmc.Base.{
  ℕ, ◌+◌, ◌-◌, ◌%◌, Bytes, Bool, true, false, List, [], ◌∷◌, ◌++◌, ◌&&◌, Option, none, some, ltb,
  length, take, drop, replicate, bit_set, bit_or, if◌then◌else◌,
}
use qemu_bmc.Ipmi.Env.{Platform, MachineInterface, Ctx, Reply}
use qemu_bmc.Ipmi.Dispatch.{handle_ipmi_command}
use qemu_bmc.Ipmi.Padding.{decrypt_aes_cbc, encrypt_aes_cbc}
use qemu_bmc.Ipmi.Session.{Session, get_session, put_session}
use qemu_bmc.Ipmi.RmcpPlus.Wrap.{
  PlusHeader, ServerState, wrap_rmcp_plus_response, build_rmcp_plus_encrypted_response,
}
use qemu_bmc.Ipmi.Types.{Outcome, ok, err, panic, too_short, truncated, session_not_found}
use qemu_bmc.Ipmi.Types.Payload
use qemu_bmc.Ipmi.Wire.{
  IpmiMessage, get_net_fn, parse_ipmi_message_bytes, build_ipmi_response_message_with_seq,
}

-- `data[12 : 12+PayloadLength]`, or an error when it reaches past the end.
unfoldable pub payload_of : Bytes → PlusHeader → Outcome Bytes
payload_of bs header =
    if ltb (length bs) (12 + header.payload_length)
    then err truncated
    else ok (take header.payload_length (drop 12 bs))

-- A command is run and its reply is built as a response message.
module _ {M : Type 0} (mi : MachineInterface M) (p : Platform) where
  unfoldable pub run_command : IpmiMessage → Ctx M → Ctx M × Bytes
  run_command msg c =
      let (c', r) = handle_ipmi_command mi p msg c in
      (
        c',
        build_ipmi_response_message_with_seq (bit_or (get_net_fn msg) 0x01) msg.command r.code
            r.payload msg.source_lun,
      )

  unfoldable pub handle_pre_session_ipmi :
      Bytes → PlusHeader → ServerState M → ServerState M × Outcome Bytes
  handle_pre_session_ipmi bs header st = elim (payload_of bs header) [
    | err e ↦ (st, err e)
    | panic ↦ (st, panic)
    | ok ipmi_data ↦ elim (parse_ipmi_message_bytes ipmi_data) [
      | err e ↦ (st, err e)
      | panic ↦ (st, panic)
      | ok msg ↦
          let (c, resp) = run_command msg st.ctx in
          (record st { ctx = c }, ok (wrap_rmcp_plus_response Payload.ipmi 0 0 resp))
    ]
  ]

-- Integrity pad, its length, the next header and 12 bytes of HMAC-SHA1, behind what is signed.
unfoldable pub pad_needed : ℕ → ℕ
pad_needed total = (4 - (total + 1 + 1) % 4) % 4

unfoldable pub integrity_signed : Bytes → Bytes
unfolding pad_needed
integrity_signed resp =
    let pad = pad_needed (length resp) in resp ++ (replicate pad 0xFF ++ (pad % 256 ∷ 0x07 ∷ []))

unfoldable pub with_integrity : Platform → Session → Bytes → Bytes
unfolding integrity_signed
with_integrity p s resp =
    let signed = integrity_signed resp in signed ++ take 12 (p.hmac_sha1 s.integrity_key signed)

module _ (p : Platform) where
  -- The message is decrypted only when the header says that it is encrypted.
  unfoldable pub plaintext_of : Bool → Session → Bytes → Outcome Bytes
  plaintext_of encrypted s payload =
      if encrypted then decrypt_aes_cbc p s.confidentiality_key payload else ok payload

  unfoldable pub ciphertext_of :
      {M : Type 0} → Bool → Session → Bytes → Ctx M → Ctx M × Outcome Bytes
  ciphertext_of encrypted s resp c =
      if encrypted then encrypt_aes_cbc p s.confidentiality_key resp c else (c, ok resp)

  -- The response of a session: the next outbound number, and the trailer if it is authenticated.
  unfoldable pub secured_response : Bool → ℕ → Bytes → Session → Session × Bytes
  unfolding with_integrity
  secured_response authenticated payload_type payload s =
      let (s', resp) = build_rmcp_plus_encrypted_response s payload_type payload in
      (s', if authenticated then with_integrity p s' resp else resp)

module _ {M : Type 0} (mi : MachineInterface M) (p : Platform) where
  -- From the plaintext on.
  unfoldable pub run_secured :
      PlusHeader → Session → Bytes → ServerState M → ServerState M × Outcome Bytes
  run_secured header s ipmi_data st = elim (parse_ipmi_message_bytes ipmi_data) [
    | err e ↦ (st, err e)
    | panic ↦ (st, panic)
    | ok msg ↦
        let (c, resp) = run_command mi p msg st.ctx in
        let (c', sealed) = ciphertext_of p (bit_set header.payload_type 7) s resp c in
        elim sealed [
          | err e ↦ (record st { ctx = c' }, err e)
          | panic ↦ (record st { ctx = c' }, panic)
          | ok payload ↦
              let (s', out) =
                secured_response p (bit_set header.payload_type 6) header.payload_type payload s in
              (record { ctx = c'; sessions = put_session header.session_id s' st.sessions }, ok out)
        ]
  ]

  -- An authenticated message must have room for the trailer, whose code is not compared.
  unfoldable pub handle_encrypted_ipmi :
      Bytes → PlusHeader → ServerState M → ServerState M × Outcome Bytes
  handle_encrypted_ipmi bs header st = elim (get_session st.sessions header.session_id) [
    | none ↦ (st, err session_not_found)
    | some s ↦ elim (payload_of bs header) [
      | err e ↦ (st, err e)
      | panic ↦ (st, panic)
      | ok payload ↦
          if bit_set header.payload_type 6 && ltb (length bs) (12 + header.payload_length + 14)
          then (st, err too_short)
          else elim (plaintext_of p (bit_set header.payload_type 7) s payload) [
            | err e ↦ (st, err e)
            | panic ↦ (st, panic)
            | ok ipmi_data ↦ run_secured header s ipmi_data st
          ]
    ]
  ]
