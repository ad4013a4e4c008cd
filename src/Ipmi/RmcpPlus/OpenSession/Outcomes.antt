-- ===== src/Ipmi/RmcpPlus/OpenSession/Outcomes.antt =====
-- Which proposals open a session, and what the new session is.
use qemu_bmc.Base.{
  ℕ, ◌+◌, ◌≡◌, ◌≢◌, ◌≤◌, refl, Bytes, false, [], ◌∷◌, ◌++◌, le32, some, arith, ◌==◌, not, length,
  byte_at, read_le32, ltb-false, if◌then◌else◌, ◌⊎◌, lookup-insert,
}
use qemu_bmc.Ipmi.Env.{Platform, Ctx}
use qemu_bmc.Ipmi.RmcpPlus.OpenSession.{
  OpenSessionRequest, negotiated, open_session_response, accept_session, build_open_session_error,
  handle_open_session,
}
use qemu_bmc.Ipmi.RmcpPlus.Wrap.{ServerState, wrap_rmcp_plus_response}
use qemu_bmc.Ipmi.Session.{
  Session, Sessions, empty_session, create_session, get_session, put_session,
}
use qemu_bmc.Ipmi.Types.{ok}

-- The proposal is cipher suite 3: RAKP-HMAC-SHA1, HMAC-SHA1-96 and AES-CBC-128.
abbrev pub IsSuite3 : Bytes → Type 0
IsSuite3 bs = (byte_at bs 12 ≡ 1) × (byte_at bs 20 ≡ 1) × (byte_at bs 28 ≡ 1)

put_twice :
    (k id : ℕ) (s s' : Session) (sm : Sessions)
    → get_session (put_session k s' (put_session k s sm)) id
      ≡ (if k == id then some s' else get_session sm id)
unfolding get_session put_session
put_twice k id s s' sm =
    ground (arith, lookup-insert k id s' (put_session k s sm), lookup-insert k id s sm)

-- A session for the client's id and the drawn id, random number and GUID, with the algorithms of
-- suite 3, which nobody has authenticated yet.
pub record IsOpened (remote id : ℕ) (r g : Bytes) (s : Session) : Type 0 where
  pub remote_id : s.remote_console_session_id ≡ remote
  pub managed_id : s.managed_system_session_id ≡ id
  pub random : s.managed_system_random ≡ r
  pub guid : s.managed_system_guid ≡ g
  pub is_open : s.authenticated ≡ false
  pub no_integrity_session : s.session_integrity_key ≡ []
  pub no_integrity : s.integrity_key ≡ []
  pub no_confidentiality : s.confidentiality_key ≡ []
  pub rakp : s.auth_algorithm ≡ 1
  pub integrity : s.integrity_algorithm ≡ 1
  pub confidentiality : s.confidentiality_algorithm ≡ 1
  pub no_name : s.user_name ≡ []
  pub counter : s.outbound_sequence_number ≡ 0

-- A payload of the answer: the kind of an algorithm, the length 8 and the algorithm 1.
abbrev pub chosen : ℕ → Bytes → Bytes
chosen kind rest = kind ∷ 0 ∷ 0 ∷ 8 ∷ 1 ∷ 0 ∷ 0 ∷ 0 ∷ rest

module _ {M : Type 0} (p : Platform) where
  -- A whole request for another suite changes nothing. Its answer, outside of any session, has the
  -- request's tag, the status of the first algorithm that is not supported, 0x11 for authentication,
  -- 0x12 for integrity and 0x18 for confidentiality, two zero bytes and the client's session id.
  pub open_session_refuses :
      (bs : Bytes) (st : ServerState M)
      → 32 ≤ length bs
      → ¬ (IsSuite3 bs)
      → (status : ℕ) × (handle_open_session p bs st ≡ (
        st,
        ok (
            0x06
            ∷ 0x11
            ∷ 0
            ∷ 0
            ∷ 0
            ∷ 0
            ∷ 0
            ∷ 0
            ∷ 0
            ∷ 0
            ∷ 8
            ∷ 0
            ∷ byte_at bs 0
            ∷ status
            ∷ 0
            ∷ 0
            ∷ le32 (read_le32 bs 4)),
      ))
        × (((byte_at bs 12 ≢ 1) × (status ≡ 0x11))
            ⊎ ((byte_at bs 12 ≡ 1) × (byte_at bs 20 ≢ 1) × (status ≡ 0x12))
            ⊎ ((byte_at bs 12 ≡ 1) × (byte_at bs 20 ≡ 1) × (byte_at bs 28 ≢ 1) × (status ≡ 0x18)))
  unfolding handle_open_session build_open_session_error wrap_rmcp_plus_response
  open_session_refuses bs st whole other = (
    if not (byte_at bs 12 == 1) then 0x11 else if not (byte_at bs 20 == 1) then 0x12 else 0x18,
    ground arith,
    ground arith,
  )

  created :
      (remote : ℕ) (b r g : Bytes) (c : Ctx M) (sm : Sessions)
      → p.random c.draws 4 ≡ some b
      → p.random (c.draws + 1) 16 ≡ some r
      → p.random (c.draws + 1 + 1) 16 ≡ some g
      → let s = empty_session remote (read_le32 b 0) r g in
        create_session p remote c sm
        ≡ (record c { draws = c.draws + 1 + 1 + 1 }, put_session (read_le32 b 0) s sm, ok s)
  unfolding create_session
  created remote b r g c sm e1 e2 e3 = rw (e1, create_session) (rw (e2) (rw (e3)))

  accept_at :
      (req : OpenSessionRequest) (b r g : Bytes) (st : ServerState M)
      → p.random st.ctx.draws 4 ≡ some b
      → p.random (st.ctx.draws + 1) 16 ≡ some r
      → p.random (st.ctx.draws + 1 + 1) 16 ≡ some g
      → let s = empty_session req.remote_console_session_id (read_le32 b 0) r g in
        accept_session p req st ≡ (
          record {
            ctx = record (st.ctx) { draws = st.ctx.draws + 1 + 1 + 1 };
            sessions =
                put_session
                  (read_le32 b 0)
                  (negotiated s)
                  (put_session (read_le32 b 0) s st.sessions);
          },
          ok (open_session_response req.message_tag (negotiated s)),
        )
  unfolding accept_session
  accept_at req b r g st e1 e2 e3 =
      let made = created req.remote_console_session_id b r g st.ctx st.sessions e1 e2 e3 in
      rw (made, accept_session) (rw made)

  accepted :
      (bs b r g : Bytes) (st : ServerState M)
      → 32 ≤ length bs
      → IsSuite3 bs
      → p.random st.ctx.draws 4 ≡ some b
      → p.random (st.ctx.draws + 1) 16 ≡ some r
      → p.random (st.ctx.draws + 1 + 1) 16 ≡ some g
      → let s = empty_session (read_le32 bs 4) (read_le32 b 0) r g in
        handle_open_session p bs st ≡ (
          record {
            ctx = record (st.ctx) { draws = st.ctx.draws + 1 + 1 + 1 };
            sessions =
                put_session
                  (read_le32 b 0)
                  (negotiated s)
                  (put_session (read_le32 b 0) s st.sessions);
          },
          ok (open_session_response (byte_at bs 0) (negotiated s)),
        )
  unfolding handle_open_session
  accepted bs b r g st whole suite e1 e2 e3 =
      rw (ltb-false (length bs) 32 whole, suite.0, suite.1, suite.2) (accept_at _ b r g st e1 e2 e3)

  -- A request for suite 3 opens a session when the three draws succeed: it is found under the drawn
  -- id, has the client's id and the drawn random number and GUID, is not authenticated, and has no
  -- keys; every other id finds what it found before. The answer has the request's tag, the status 0,
  -- the privilege level 4, both ids and the three algorithms.
  pub open_session_opens :
      (bs b r g : Bytes) (st : ServerState M)
      → 32 ≤ length bs
      → IsSuite3 bs
      → p.random st.ctx.draws 4 ≡ some b
      → p.random (st.ctx.draws + 1) 16 ≡ some r
      → p.random (st.ctx.draws + 1 + 1) 16 ≡ some g
      → let (st', out) = handle_open_session p bs st in
        (s : Session) × IsOpened (read_le32 bs 4) (read_le32 b 0) r g s
        × (out
            ≡ ok (
                0x06
                ∷ 0x11
                ∷ 0
                ∷ 0
                ∷ 0
                ∷ 0
                ∷ 0
                ∷ 0
                ∷ 0
                ∷ 0
                ∷ 36
                ∷ 0
                ∷ byte_at bs 0
                ∷ 0
                ∷ 4
                ∷ 0
                ∷ (le32 (read_le32 bs 4)
                    ++ (le32 (read_le32 b 0) ++ chosen 0 (chosen 1 (chosen 2 []))))))
        × ((id : ℕ)
            → get_session st'.sessions id
              ≡ (if read_le32 b 0 == id then some s else get_session st.sessions id))
  unfolding open_session_response wrap_rmcp_plus_response
  open_session_opens bs b r g st whole suite e1 e2 e3 =
      rw (accepted bs b r g st whole suite e1 e2 e3) (
        negotiated (empty_session (read_le32 bs 4) (read_le32 b 0) r g),
        record {
          remote_id = refl;
          managed_id = refl;
          random = refl;
          guid = refl;
          is_open = refl;
          no_integrity_session = refl;
          no_integrity = refl;
          no_confidentiality = refl;
          rakp = refl;
          integrity = refl;
          confidentiality = refl;
          no_name = refl;
          counter = refl;
        },
        refl,
        λ id. put_twice (read_le32 b 0) id _ _ st.sessions,
      )
