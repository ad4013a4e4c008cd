-- ===== src/Ipmi/RmcpPlus/Keyed.antt =====
-- Which sessions have keys: the ones that message 3 of the key exchange has authenticated.
use qemu_bmc.Base.{
  ℕ, ◌+◌, ◌≡◌, refl, Bytes, false, [], ◌⊎◌, inl, inr, some, arith, lookup, lookup-insert,
  Bool-cases, Option-cases, ltb, byte_at, read_le32, length, bit_set, ◌&&◌, ◌%◌, drop, not, ◌==◌,
}
use qemu_bmc.Ipmi.Env.{Platform, MachineInterface, rand_read}
use qemu_bmc.Ipmi.RmcpPlus.Rakp.{
  note_rakp1, rakp1_password, with_keys, rakp3_password, handle_rakp_message_1,
  handle_rakp_message_3,
}
use qemu_bmc.Ipmi.RmcpPlus.Rakp.Exchange.{rakp3_sound}
use qemu_bmc.Ipmi.RmcpPlus.OpenSession.{
  OpenSessionRequest, read_open_session_request, negotiated, accept_session, handle_open_session,
}
use qemu_bmc.Ipmi.RmcpPlus.Wrap.{
  PlusHeader, ServerState, read_plus_header, build_rmcp_plus_encrypted_response,
}
use qemu_bmc.Ipmi.Session.{
  Session, Sessions, new_session_manager, empty_session, create_session, get_session, put_session,
}
use qemu_bmc.Ipmi.Types.{Outcome, ok, err, panic, IpmiError}
use qemu_bmc.Ipmi.Types.Payload
use qemu_bmc.Ipmi.RmcpPlus.Message.{handle_rmcp_plus_message}
use qemu_bmc.Ipmi.Wire.{parse_ipmi_message_bytes}
use qemu_bmc.Ipmi.RmcpPlus.Secured.{
  payload_of, plaintext_of, ciphertext_of, run_command, run_secured, secured_response,
  handle_encrypted_ipmi, handle_pre_session_ipmi,
}

-- A session that is not authenticated has no confidentiality key.
abbrev pub IsKeyed : Session → Type 0
IsKeyed s = s.authenticated ≡ false → s.confidentiality_key ≡ []

abbrev pub AreKeyed : Sessions → Type 0
AreKeyed sm = (id : ℕ) (s : Session) → get_session sm id ≡ some s → IsKeyed s

pub new_session_manager-AreKeyed : AreKeyed new_session_manager
unfolding get_session new_session_manager lookup
new_session_manager-AreKeyed id s found = absurd cc

pub put-AreKeyed :
    (k : ℕ) (s : Session) (sm : Sessions) → IsKeyed s → AreKeyed sm → AreKeyed (put_session k s sm)
unfolding get_session put_session
put-AreKeyed k s sm one all id t found = ground (arith, lookup-insert k id s sm, all id t)

module _ {M : Type 0} (p : Platform) where
  rakp3-AreKeyed :
      (payload pass : Bytes) (st : ServerState M)
      → AreKeyed st.sessions
      → AreKeyed (handle_rakp_message_3 p payload pass st).0.sessions
  rakp3-AreKeyed payload pass st all = elim (rakp3_sound p payload pass st) [
    | inl same ↦ rw same all
    | inr (s, found, code, written) ↦ rw written (
        put-AreKeyed (read_le32 payload 4)
          (with_keys p (rakp3_password st.ctx.bmc pass s.user_name) s) st.sessions
          (unfold with_keys in λ e. cc) all)
  ]

  -- Message 1 writes its session or nothing.
  rakp1_writes :
      (payload user pass : Bytes) (st : ServerState M)
      → let sm = (handle_rakp_message_1 p payload user pass st).0.sessions in
        (sm ≡ st.sessions)
        ⊎ ((s : Session) × (get_session st.sessions (read_le32 payload 4) ≡ some s)
            × (sm ≡ put_session (read_le32 payload 4) (note_rakp1 payload s) st.sessions))
  unfolding handle_rakp_message_1
  rakp1_writes payload user pass st = elim (Bool-cases (ltb (length payload) 28)) [
    | inl short ↦ inl (rw short refl)
    | inr long ↦ elim (Bool-cases (ltb (length payload) (28 + byte_at payload 27))) [
      | inl short ↦ inl (rw (long, short) refl)
      | inr whole ↦ elim (Option-cases (get_session st.sessions (read_le32 payload 4))) [
        | inl missing ↦ inl (rw (long, whole, missing) refl)
        | inr (s, found) ↦
            elim (Option-cases
              (rakp1_password st.ctx.bmc user pass (note_rakp1 payload s).user_name)) [
                | inl unknown ↦ inr (s, found, rw (long, whole, found, unknown) refl)
                | inr (password, known) ↦ inr (s, found, rw (long, whole, found, known) refl)
              ]
      ]
    ]
  ]

  rakp1-AreKeyed :
      (payload user pass : Bytes) (st : ServerState M)
      → AreKeyed st.sessions
      → AreKeyed (handle_rakp_message_1 p payload user pass st).0.sessions
  rakp1-AreKeyed payload user pass st all = elim (rakp1_writes payload user pass st) [
    | inl same ↦ rw same all
    | inr (s, found, written) ↦ rw written (
        put-AreKeyed (read_le32 payload 4) (note_rakp1 payload s) st.sessions
          (all (read_le32 payload 4) s found) all)
  ]

  -- Open Session writes a session without keys or nothing.
  accept-AreKeyed :
      (req : OpenSessionRequest) (st : ServerState M)
      → AreKeyed st.sessions
      → AreKeyed (accept_session p req st).0.sessions
  unfolding accept_session create_session rand_read
  accept-AreKeyed req st all = elim (Option-cases (p.random st.ctx.draws 4)) [
    | inl failed ↦ rw failed (rw (create_session, failed) all)
    | inr (b, e1) ↦ elim (Option-cases (p.random (st.ctx.draws + 1) 16)) [
      | inl failed ↦ rw (e1, failed) (rw (create_session, e1, failed) all)
      | inr (r, e2) ↦ elim (Option-cases (p.random (st.ctx.draws + 1 + 1) 16)) [
        | inl failed ↦ rw (e1, e2, failed) (rw (create_session, e1, e2, failed) all)
        | inr (g, e3) ↦
            let s = empty_session req.remote_console_session_id (read_le32 b 0) r g in
            rw (e1, e2, e3)
              (rw (create_session, e1, e2, e3)
                (put-AreKeyed (read_le32 b 0) (negotiated s)
                  (put_session (read_le32 b 0) s st.sessions) (λ e. refl)
                  (put-AreKeyed (read_le32 b 0) s st.sessions (λ e. refl) all)))
      ]
    ]
  ]

  open-AreKeyed :
      (payload : Bytes) (st : ServerState M)
      → AreKeyed st.sessions
      → AreKeyed (handle_open_session p payload st).0.sessions
  unfolding handle_open_session
  open-AreKeyed payload st all =
      let req = read_open_session_request payload in
      elim (Bool-cases (ltb (length payload) 32)) [
        | inl short ↦ rw short all
        | inr long ↦ elim (Bool-cases (not (req.auth_algorithm == 1))) [
          | inl other ↦ rw (long, other) all
          | inr auth ↦ elim (Bool-cases (not (req.integrity_algorithm == 1))) [
            | inl other ↦ rw (long, auth, other) all
            | inr integrity ↦ elim (Bool-cases (not (req.conf_algorithm == 1))) [
              | inl other ↦ rw (long, auth, integrity, other) all
              | inr conf ↦ rw (long, auth, integrity, conf) (accept-AreKeyed req st all)
            ]
          ]
        ]
      ]

Outcome-cases :
    {A : Type 0} (r : Outcome A)
    → (r ≡ panic) ⊎ (((e : IpmiError) × (r ≡ err e)) ⊎ ((a : A) × (r ≡ ok a)))
Outcome-cases panic = inl refl
Outcome-cases (err e) = inr (inl (e, refl))
Outcome-cases (ok a) = inr (inr (a, refl))

module _ {M : Type 0} (mi : MachineInterface M) (p : Platform) where
  -- A command in a session writes the session with its outbound number alone, or nothing.
  run-AreKeyed :
      (header : PlusHeader) (s : Session) (plain : Bytes) (st : ServerState M)
      → IsKeyed s
      → AreKeyed st.sessions
      → AreKeyed (run_secured mi p header s plain st).0.sessions
  unfolding run_secured build_rmcp_plus_encrypted_response
  run-AreKeyed header s plain st one all = elim (Outcome-cases (parse_ipmi_message_bytes plain)) [
    | inl crash ↦ rw (run_secured, crash) all
    | inr (inl (e, bad)) ↦ rw (run_secured, bad) all
    | inr (inr (msg, good)) ↦
        let (c, resp) = run_command mi p msg st.ctx in
        elim (Outcome-cases (ciphertext_of p (bit_set header.payload_type 7) s resp c).1) [
          | inl crash ↦ rw (run_secured, good, crash) all
          | inr (inl (e, bad)) ↦ rw (run_secured, good, bad) all
          | inr (inr (sealed, done)) ↦
              rw (run_secured, good, done)
                (put-AreKeyed header.session_id
                  (secured_response p (bit_set header.payload_type 6) header.payload_type sealed
                    s).0
                  st.sessions (unfold secured_response in one) all)
        ]
  ]

  encrypted-AreKeyed :
      (bs : Bytes) (header : PlusHeader) (st : ServerState M)
      → AreKeyed st.sessions
      → AreKeyed (handle_encrypted_ipmi mi p bs header st).0.sessions
  unfolding handle_encrypted_ipmi
  encrypted-AreKeyed bs header st all =
      elim (Option-cases (get_session st.sessions header.session_id)) [
        | inl missing ↦ rw (handle_encrypted_ipmi, missing) all
        | inr (s, found) ↦ elim (Outcome-cases (payload_of bs header)) [
          | inl crash ↦ rw (handle_encrypted_ipmi, found, crash) all
          | inr (inl (e, bad)) ↦ rw (handle_encrypted_ipmi, found, bad) all
          | inr (inr (payload, room)) ↦
              elim (Bool-cases (
                bit_set header.payload_type 6
                && ltb (length bs) (12 + header.payload_length + 14))) [
                  | inl short ↦ rw (handle_encrypted_ipmi, found, room, short) all
                  | inr long ↦
                      elim (Outcome-cases
                        (plaintext_of p (bit_set header.payload_type 7) s payload)) [
                          | inl crash ↦ rw (handle_encrypted_ipmi, found, room, long, crash) all
                          | inr (inl (e, bad)) ↦
                              rw (handle_encrypted_ipmi, found, room, long, bad) all
                          | inr (inr (plain, good)) ↦
                              rw (handle_encrypted_ipmi, found, room, long, good)
                                (run-AreKeyed header s plain st (all header.session_id s found) all)
                        ]
                ]
        ]
      ]

  pre-AreKeyed :
      (bs : Bytes) (header : PlusHeader) (st : ServerState M)
      → AreKeyed st.sessions
      → AreKeyed (handle_pre_session_ipmi mi p bs header st).0.sessions
  unfolding handle_pre_session_ipmi
  pre-AreKeyed bs header st all = elim (Outcome-cases (payload_of bs header)) [
    | inl crash ↦ rw (handle_pre_session_ipmi, crash) all
    | inr (inl (e, bad)) ↦ rw (handle_pre_session_ipmi, bad) all
    | inr (inr (plain, good)) ↦ elim (Outcome-cases (parse_ipmi_message_bytes plain)) [
      | inl crash ↦ rw (handle_pre_session_ipmi, good, crash) all
      | inr (inl (e, bad)) ↦ rw (handle_pre_session_ipmi, good, bad) all
      | inr (inr (msg, parsed)) ↦ rw (handle_pre_session_ipmi, good, parsed) all
    ]
  ]

  -- An RMCP+ message of any kind and content, with any outcome, keeps every session that is not
  -- authenticated without a confidentiality key.
  pub handle_rmcp_plus_message-AreKeyed :
      (bs user pass : Bytes) (st : ServerState M)
      → AreKeyed st.sessions
      → AreKeyed (handle_rmcp_plus_message mi p bs user pass st).0.sessions
  unfolding handle_rmcp_plus_message
  handle_rmcp_plus_message-AreKeyed bs user pass st all =
      let header = read_plus_header bs in
      let kind = header.payload_type % 64 in
      let body = drop 12 bs in
      elim (Bool-cases (ltb (length bs) 12)) [
        | inl short ↦ rw (handle_rmcp_plus_message, short) all
        | inr whole ↦ elim (Bool-cases (kind == Payload.open_session_request)) [
          | inl is ↦ rw (handle_rmcp_plus_message, whole, is) (open-AreKeyed p body st all)
          | inr no0 ↦ elim (Bool-cases (kind == Payload.rakp_message_1)) [
            | inl is ↦
                rw (handle_rmcp_plus_message, whole, no0, is)
                  (rakp1-AreKeyed p body user pass st all)
            | inr no1 ↦ elim (Bool-cases (kind == Payload.rakp_message_3)) [
              | inl is ↦
                  rw (handle_rmcp_plus_message, whole, no0, no1, is)
                    (rakp3-AreKeyed p body pass st all)
              | inr no3 ↦ elim (Bool-cases (kind == Payload.ipmi)) [
                | inr none_of ↦ rw (handle_rmcp_plus_message, whole, no0, no1, no3, none_of) all
                | inl is ↦ elim (Bool-cases (header.session_id == 0)) [
                  | inl pre ↦
                      rw (handle_rmcp_plus_message, whole, no0, no1, no3, is, pre)
                        (pre-AreKeyed bs header st all)
                  | inr within ↦
                      rw (handle_rmcp_plus_message, whole, no0, no1, no3, is, within)
                        (encrypted-AreKeyed bs header st all)
                ]
              ]
            ]
          ]
        ]
      ]
