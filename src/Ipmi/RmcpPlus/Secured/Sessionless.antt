-- ===== src/Ipmi/RmcpPlus/Secured/Sessionless.antt =====
-- What the RMCP+ layer does for a console that has not shown a password.
use qemu_bmc.Base.{
  ℕ, ◌+◌, ◌*◌, ◌/◌, ◌%◌, ◌≤◌, ◌<◌, ◌≡◌, refl, ◌∙◌, sym, ap, Bytes, true, false, [], some, ltb,
  ltb-false, length, le16, le32, read_le32, ◌==◌, ◌∷◌, ◌++◌, take, take-length_append, arith,
  bit_set, bit_or,
}
use mathlib.Core.List.{append-nil}
use qemu_bmc.Ipmi.RmcpPlus.Secured.Trailer.{length-wrap}
use qemu_bmc.Ipmi.Dispatch.{handle_ipmi_command}
use qemu_bmc.Ipmi.Env.{Platform, MachineInterface}
use qemu_bmc.Ipmi.Padding.{decrypt_aes_cbc}
use qemu_bmc.Ipmi.RmcpPlus.Wrap.{PlusHeader, ServerState, read_plus_header, wrap_rmcp_plus_response}
use qemu_bmc.Ipmi.RmcpPlus.Secured.{
  handle_pre_session_ipmi, handle_encrypted_ipmi, payload_of, plaintext_of, run_command,
}
use qemu_bmc.Ipmi.RmcpPlus.Message.{handle_rmcp_plus_message}
use qemu_bmc.Ipmi.Wire.Frames.{parse_answer}
use qemu_bmc.Ipmi.Session.{Session, get_session}
use qemu_bmc.Ipmi.Types.{ok, panic}
use qemu_bmc.Ipmi.Types.Payload
use qemu_bmc.Ipmi.Wire.{
  IpmiMessage, get_net_fn, parse_ipmi_message_bytes, build_ipmi_response_message_with_seq,
}

payload_of-wrap :
    (kind id seq : ℕ) (payload : Bytes)
    → length payload < 65536
    → let bs = wrap_rmcp_plus_response kind id seq payload in
      payload_of bs (read_plus_header bs) ≡ ok payload
unfolding payload_of wrap_rmcp_plus_response
payload_of-wrap kind id seq payload short =
    let n : length payload % 256 + length payload / 256 % 256 * 256 ≡ length payload =
      omega arith in
    let fits : ltb (length (wrap_rmcp_plus_response kind id seq payload)) (12 + length payload)
        ≡ false =
      ltb-false _ _ (omega (arith, length-wrap kind id seq payload)) in
    let take-all : take (length payload) payload ≡ payload =
      ap (take (length payload)) (sym (append-nil payload))
      ∙ take-length_append (length payload) payload [] refl in
    rw (n, fits, take-all) refl

module _ {M : Type 0} (mi : MachineInterface M) (p : Platform) where
  -- An RMCP+ message with payload type 0 and session id 0 that holds a request of less than 65536
  -- bytes, which the parser of messages accepts, is executed like any other, whatever sessions there
  -- are and whatever user and password are configured: the state is the one that the command leaves,
  -- and the answer is again one of session 0, in which the parser finds the command, the request's
  -- sequence byte, the completion code and the data.
  pub pre_session_executes :
      (seq : ℕ) (ipmi_data user pass : Bytes) (msg : IpmiMessage) (st : ServerState M)
      → length ipmi_data < 65536
      → parse_ipmi_message_bytes ipmi_data ≡ ok msg
      → let bs =
          0x06 ∷ 0x00 ∷ 0 ∷ 0 ∷ 0 ∷ 0 ∷ (le32 seq ++ (le16 (length ipmi_data) ++ ipmi_data)) in
        let (c, r) = handle_ipmi_command mi p msg st.ctx in
        (answer : Bytes) × (m : IpmiMessage) × (handle_rmcp_plus_message mi p bs user pass st ≡ (
          record st { ctx = c },
          ok (0x06 ∷ 0x00 ∷ 0 ∷ 0 ∷ 0 ∷ 0 ∷ 0 ∷ 0 ∷ 0 ∷ 0 ∷ (le16 (length answer) ++ answer)),
        ))
        × (parse_ipmi_message_bytes answer ≡ ok m)
        × (m.command ≡ msg.command)
        × (m.source_lun ≡ msg.source_lun)
        × (m.payload ≡ r.code ∷ r.payload)
  unfolding handle_rmcp_plus_message handle_pre_session_ipmi wrap_rmcp_plus_response
  pre_session_executes seq ipmi_data user pass msg st short parsed =
      let (c, r) = handle_ipmi_command mi p msg st.ctx in
      let answer =
        build_ipmi_response_message_with_seq (bit_or (get_net_fn msg) 0x01) msg.command r.code
          r.payload msg.source_lun in
      let (m, read, lun, command, seq_lun, held) =
        parse_answer (bit_or (get_net_fn msg) 0x01) msg.command r.code r.payload msg.source_lun in
      let bs = wrap_rmcp_plus_response Payload.ipmi 0 seq ipmi_data in
      let long : ltb (length bs) 12 ≡ false =
        ltb-false _ _ (omega (arith, length-wrap Payload.ipmi 0 seq ipmi_data)) in
      (
        answer,
        m,
        rw
            (
              handle_rmcp_plus_message,
              long,
              handle_pre_session_ipmi,
              payload_of-wrap Payload.ipmi 0 seq ipmi_data short,
              parsed,
            )
            (unfold run_command in refl),
        read,
        command,
        seq_lun,
        held,
      )

  -- The decryption without a key, behind the checks of the header.
  without_key_panics :
      (bs payload : Bytes) (header : PlusHeader) (s : Session) (st : ServerState M)
      → get_session st.sessions header.session_id ≡ some s
      → s.confidentiality_key ≡ []
      → payload_of bs header ≡ ok payload
      → 16 ≤ length payload
      → bit_set header.payload_type 7 ≡ true
      → bit_set header.payload_type 6 ≡ false
      → handle_encrypted_ipmi mi p bs header st ≡ (st, panic)
  unfolding handle_encrypted_ipmi plaintext_of decrypt_aes_cbc
  without_key_panics bs payload header s st found no_key room long encrypted plain =
      rw
        (
          handle_encrypted_ipmi,
          found,
          room,
          plain,
          encrypted,
          plaintext_of,
          decrypt_aes_cbc,
          ltb-false (length payload) 16 long,
          no_key,
        )
        refl

  -- A message with the encryption bit and without the authentication bit, to a session that has no
  -- confidentiality key and an id from 1 to 2^32 - 1, ends in a run-time panic and leaves the state,
  -- whatever its payload of 16 to 65535 bytes is and whatever user and password are configured.
  pub encrypted_before_rakp_panics :
      (id seq : ℕ) (payload user pass : Bytes) (s : Session) (st : ServerState M)
      → 0 < id
      → id < 4294967296
      → get_session st.sessions id ≡ some s
      → s.confidentiality_key ≡ []
      → 16 ≤ length payload
      → length payload < 65536
      → let bs = 0x06 ∷ 0x80 ∷ (le32 id ++ (le32 seq ++ (le16 (length payload) ++ payload))) in
        handle_rmcp_plus_message mi p bs user pass st ≡ (st, panic)
  unfolding handle_rmcp_plus_message wrap_rmcp_plus_response
  encrypted_before_rakp_panics id seq payload user pass s st some_id small found no_key room fits =
      let bs = wrap_rmcp_plus_response 0x80 id seq payload in
      let long : ltb (length bs) 12 ≡ false =
        ltb-false _ _ (omega (arith, length-wrap 0x80 id seq payload)) in
      let read : read_le32 bs 2 ≡ id = omega (arith, small) in
      let other : (read_le32 bs 2 == 0) ≡ false = ground (arith, read, some_id) in
      let panics =
        without_key_panics bs payload (read_plus_header bs) s st (rw (read) found) no_key
          (payload_of-wrap 0x80 id seq payload fits) room refl refl in
      rw (handle_rmcp_plus_message, long, other) panics
