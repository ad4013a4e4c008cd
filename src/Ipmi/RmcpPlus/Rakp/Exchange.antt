-- ===== src/Ipmi/RmcpPlus/Rakp/Exchange.antt =====
-- The key exchange: an honest client ends with the keys of the BMC, and message 3 authenticates a
-- session for the right code alone.
use qemu_bmc.Base.{
  ℕ, ◌+◌, ◌≡◌, ◌≤◌, refl, ap, Bytes, true, false, ◌∷◌, ◌++◌, none, some, arith, ltb, length, take,
  drop, byte_at, le32, read_le32, replicate, bytes_eq, bytes_eq_refl, bytes_eq→eq, ltb-false,
  Bool-cases, Option-cases, inl, inr, ◌⊎◌, lookup-insert, ==_refl,
}
use qemu_bmc.Bmc.State.{State}
use qemu_bmc.Ipmi.Env.{Platform}
use qemu_bmc.Ipmi.RmcpPlus.Rakp.{
  rakp1_password, rakp3_password, note_rakp1, rakp3_text, rakp2_response, with_keys, rakp4_response,
  handle_rakp_message_1, handle_rakp_message_3,
}
use qemu_bmc.Ipmi.RmcpPlus.Wrap.{ServerState}
use qemu_bmc.Ipmi.Session.{Session, Sessions, get_session, put_session}
use qemu_bmc.Ipmi.Types.{Outcome, ok}

pub get-put_session :
    (id : ℕ) (s : Session) (sm : Sessions) → get_session (put_session id s sm) id ≡ some s
unfolding get_session put_session
get-put_session id s sm = rw (lookup-insert id id s sm, ==_refl id)

-- Message 3 resolves the password that message 1 resolved.
same_password :
    (s : State) (user pass name : Bytes) {password : Bytes}
    → rakp1_password s user pass name ≡ some password
    → rakp3_password s pass name ≡ password
unfolding rakp1_password rakp3_password
same_password s user pass name e = ground arith

ltb-false_le : (a b : ℕ) → ltb a b ≡ false → b ≤ a
ltb-false_le a b h = ground arith

module _ {M : Type 0} (p : Platform) where
  pub rakp1_known :
      (payload user pass : Bytes) (st : ServerState M) (s : Session) {password : Bytes}
      → 28 + byte_at payload 27 ≤ length payload
      → get_session st.sessions (read_le32 payload 4) ≡ some s
      → rakp1_password st.ctx.bmc user pass (note_rakp1 payload s).user_name ≡ some password
      → handle_rakp_message_1 p payload user pass st ≡ (
        record st {
          sessions = put_session (read_le32 payload 4) (note_rakp1 payload s) st.sessions;
        },
        ok (rakp2_response p (byte_at payload 0) password (note_rakp1 payload s)),
      )
  unfolding handle_rakp_message_1
  rakp1_known payload user pass st s long found known = rw (
    ltb-false (length payload) 28 (omega arith),
    ltb-false (length payload) (28 + byte_at payload 27) long,
    found,
    known,
  )

  pub rakp3_right_code :
      (payload pass : Bytes) (st : ServerState M) (s : Session)
      → 28 ≤ length payload
      → get_session st.sessions (read_le32 payload 4) ≡ some s
      → take 20 (drop 8 payload)
        ≡ p.hmac_sha1 (rakp3_password st.ctx.bmc pass s.user_name) (rakp3_text s)
      → let s' = with_keys p (rakp3_password st.ctx.bmc pass s.user_name) s in
        handle_rakp_message_3 p payload pass st ≡ (
          record st { sessions = put_session (read_le32 payload 4) s' st.sessions },
          ok (rakp4_response p (byte_at payload 0) s'),
        )
  unfolding handle_rakp_message_3
  rakp3_right_code payload pass st s long found right =
      rw (ltb-false (length payload) 28 long, found, right, bytes_eq_refl _)

  -- When message 1 finds a password for the name and the client answers message 2 with the HMAC
  -- that this password gives, message 3 authenticates the session. Its integrity and confidentiality
  -- keys are then those that the client derives from the two random numbers, the requested privilege
  -- and the name, all as they stand in the messages.
  pub rakp_exchange :
      (one three user pass : Bytes) (st : ServerState M) (s : Session) {password : Bytes}
      → 28 + byte_at one 27 ≤ length one
      → get_session st.sessions (read_le32 one 4) ≡ some s
      → rakp1_password st.ctx.bmc user pass (take (byte_at one 27) (drop 28 one)) ≡ some password
      → 28 ≤ length three
      → read_le32 three 4 ≡ read_le32 one 4
      → let name = byte_at one 24 ∷ byte_at one 27 ∷ take (byte_at one 27) (drop 28 one) in
        let sik =
          p.hmac_sha1 password (take 16 (drop 8 one) ++ (s.managed_system_random ++ name)) in
        take 20 (drop 8 three)
          ≡ p.hmac_sha1 password
              (s.managed_system_random ++ (le32 s.remote_console_session_id ++ name))
        → let st1 = (handle_rakp_message_1 p one user pass st).0 in
          let st2 = (handle_rakp_message_3 p three pass st1).0 in
          (k : Session) × (get_session st2.sessions (read_le32 one 4) ≡ some k)
          × (k.authenticated ≡ true)
          × (k.session_integrity_key ≡ sik)
          × (k.integrity_key ≡ p.hmac_sha1 sik (replicate 20 0x01))
          × (k.confidentiality_key ≡ p.hmac_sha1 sik (replicate 20 0x02))
  rakp_exchange one three user pass st s {password} long found known long3 same right =
      let s1 = note_rakp1 one s in
      let st1 : ServerState M = record st {
        sessions = put_session (read_le32 one 4) s1 st.sessions;
      } in
      let pw : rakp3_password st1.ctx.bmc pass s1.user_name ≡ password =
        same_password st.ctx.bmc user pass s1.user_name known in
      let found1 : get_session st1.sessions (read_le32 three 4) ≡ some s1 =
        rw same (get-put_session (read_le32 one 4) s1 st.sessions) in
      (
        with_keys p password s1,
        rw (
          rakp1_known one user pass st s long found known,
          rakp3_right_code three pass st1 s1 long3 found1 (rw pw right),
          pw,
          same,
          get-put_session (read_le32 one 4) (with_keys p password s1) st1.sessions,
        ),
        unfold with_keys in refl,
        unfold with_keys in refl,
        unfold with_keys in refl,
        unfold with_keys in refl,
      )

  rakp3_short :
      (payload pass : Bytes) (st : ServerState M)
      → ltb (length payload) 28 ≡ true
      → (handle_rakp_message_3 p payload pass st).0 ≡ st
  unfolding handle_rakp_message_3
  rakp3_short payload pass st h = rw h

  rakp3_missing :
      (payload pass : Bytes) (st : ServerState M)
      → ltb (length payload) 28 ≡ false
      → get_session st.sessions (read_le32 payload 4) ≡ none
      → (handle_rakp_message_3 p payload pass st).0 ≡ st
  unfolding handle_rakp_message_3
  rakp3_missing payload pass st h e = rw (h, e)

  rakp3_wrong_code :
      (payload pass : Bytes) (st : ServerState M) (s : Session)
      → ltb (length payload) 28 ≡ false
      → get_session st.sessions (read_le32 payload 4) ≡ some s
      → bytes_eq
          (take 20 (drop 8 payload))
          (p.hmac_sha1 (rakp3_password st.ctx.bmc pass s.user_name) (rakp3_text s))
        ≡ false
      → (handle_rakp_message_3 p payload pass st).0 ≡ st
  unfolding handle_rakp_message_3
  rakp3_wrong_code payload pass st s h e w = rw (h, e, w)

  -- Message 3 leaves the whole state alone, or it carries, for a session that is there, the HMAC
  -- under the password that the BMC resolves for the session's user name; that session is then the
  -- only thing written.
  pub rakp3_sound :
      (payload pass : Bytes) (st : ServerState M)
      → ((handle_rakp_message_3 p payload pass st).0 ≡ st)
        ⊎ ((s : Session) × (get_session st.sessions (read_le32 payload 4) ≡ some s)
            × (take 20 (drop 8 payload)
                ≡ p.hmac_sha1 (rakp3_password st.ctx.bmc pass s.user_name) (rakp3_text s))
            × ((handle_rakp_message_3 p payload pass st).0 ≡ record st {
              sessions =
                  put_session
                    (read_le32 payload 4)
                    (with_keys p (rakp3_password st.ctx.bmc pass s.user_name) s)
                    st.sessions;
            }))
  rakp3_sound payload pass st = elim (Bool-cases (ltb (length payload) 28)) [
    | inl short ↦ inl (rakp3_short payload pass st short)
    | inr long ↦ elim (Option-cases (get_session st.sessions (read_le32 payload 4))) [
      | inl missing ↦ inl (rakp3_missing payload pass st long missing)
      | inr (s, found) ↦
          elim (Bool-cases (
            bytes_eq (take 20 (drop 8 payload))
              (p.hmac_sha1 (rakp3_password st.ctx.bmc pass s.user_name) (rakp3_text s)))) [
                | inr wrong ↦ inl (rakp3_wrong_code payload pass st s long found wrong)
                | inl right ↦
                    let same = bytes_eq→eq _ _ right in
                    inr (
                      s,
                      found,
                      same,
                      ap (λ (q : ServerState M × Outcome Bytes). q.0)
                          (rakp3_right_code payload pass st s (ltb-false_le _ _ long) found same),
                    )
              ]
    ]
  ]
