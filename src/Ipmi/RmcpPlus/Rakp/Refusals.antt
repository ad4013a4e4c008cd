-- ===== src/Ipmi/RmcpPlus/Rakp/Refusals.antt =====
-- What the key exchange asks of the user accounts: names and passwords, and not the enabled flag.
use qemu_bmc.Base.{
  ℕ, ◌+◌, ◌≡◌, ◌≢◌, ◌≤◌, refl, ap, ◌∙◌, Bytes, Bool, true, false, [], ◌∷◌, le32, some, arith,
  length, take, drop, byte_at, read_le32, bytes_eq, bytes_eq_refl, ltb-false, ◌==◌, Bool-cases,
  Option-cases, inl, inr, Result,
}
use qemu_bmc.Bmc.State.{State, UserSlot, slot, set_slot, max_users, validate_user_id}
use qemu_bmc.Bmc.Slots.{first_slot_same}
use qemu_bmc.Bmc.Accounts.{authenticate}
use qemu_bmc.Bmc.Accounts.Create.{bytes_eq-false}
use qemu_bmc.Bmc.Invariant.{HasShape, InRange, slot-set_slot, slot-set_slot_self}
use qemu_bmc.Bmc.Users.{lookup_user_by_name, lookup_user_by_name_locked, get_user_password}
use qemu_bmc.Bmc.Users.Passwords.{get_user_access_at, set_user_access_at}
use qemu_bmc.Ipmi.Env.{Platform, reply}
use qemu_bmc.Ipmi.RmcpPlus.Rakp.{
  stored_password, rakp1_password, rakp3_password, note_rakp1, rakp3_text, sik_text, rakp_refusal,
  with_keys, handle_rakp_message_1, handle_rakp_message_3,
}
use qemu_bmc.Ipmi.RmcpPlus.Rakp.Exchange.{get-put_session, rakp3_right_code}
use qemu_bmc.Ipmi.RmcpPlus.Wrap.{ServerState, wrap_rmcp_plus_response}
use qemu_bmc.Ipmi.Session.{Session, get_session, put_session}
use qemu_bmc.Ipmi.Types.{ok}
use qemu_bmc.Ipmi.Types.Code
use qemu_bmc.Ipmi.Types.Payload
use qemu_bmc.Ipmi.User.{set_enabled}

-- The slot with another enabled flag.
abbrev pub flagged : Bool → UserSlot → UserSlot
flagged on u = record u { access = record (u.access) { enabled = on } }

pub set_enabled_at :
    (on : Bool) (id : ℕ) (s : State)
    → InRange id
    → set_enabled on id s ≡ (set_slot s id (flagged on (slot s id)), reply Code.ok [])
unfolding set_enabled
set_enabled_at on id s r = rw (
  get_user_access_at s 0 id r,
  set_user_access_at s 0 id (record ((slot s id).access) { enabled = on }) r,
  set_enabled,
)

-- A field of a slot that the flag does not touch.
flag_keeps {ℓ} :
    {A : Type ℓ} (f : UserSlot → A) (on : Bool) (id : ℕ) (s : State)
    → HasShape s
    → InRange id
    → ((u : UserSlot) → f (flagged on u) ≡ f u)
    → (j : ℕ) → f (slot (set_slot s id (flagged on (slot s id))) j) ≡ f (slot s j)
flag_keeps f on id s sh r keep j = elim (Bool-cases (id == j)) [
  | inl same ↦
      let e : id ≡ j = ground arith in
      rw (slot-set_slot s id j (flagged on (slot s id)) sh r, same, keep (slot s id), e)
  | inr other ↦ rw (slot-set_slot s id j (flagged on (slot s id)) sh r, other)
]

lookup_flagged :
    (on : Bool) (id : ℕ) (s : State) (name : Bytes)
    → HasShape s
    → InRange id
    → lookup_user_by_name_locked (set_slot s id (flagged on (slot s id))) name
      ≡ lookup_user_by_name_locked s name
unfolding lookup_user_by_name_locked
lookup_flagged on id s name sh r =
    first_slot_same (λ u. bytes_eq u.name name) max_users 1 _ _
      (flag_keeps (λ u. bytes_eq u.name name) on id s sh r (λ u. refl))

password_flagged :
    (on : Bool) (id k : ℕ) (s : State)
    → HasShape s
    → InRange id
    → get_user_password (set_slot s id (flagged on (slot s id))) k ≡ get_user_password s k
unfolding get_user_password
password_flagged on id k s sh r = elim (Option-cases (validate_user_id k)) [
  | inr (e, bad) ↦ rw (bad, get_user_password)
  | inl good ↦
      rw (good, get_user_password)
        (ap Result.ok (flag_keeps (λ u. u.password) on id s sh r (λ u. refl) k))
]

stored_flagged :
    (on : Bool) (id : ℕ) (s : State) (name : Bytes)
    → HasShape s
    → InRange id
    → stored_password (set_slot s id (flagged on (slot s id))) name ≡ stored_password s name
unfolding stored_password lookup_user_by_name
stored_flagged on id s name sh r = elim (Bool-cases (bytes_eq name [])) [
  | inl empty ↦ rw (empty, stored_password)
  | inr given ↦ elim (Option-cases (lookup_user_by_name_locked s name)) [
    | inl missing ↦ rw (given, lookup_flagged on id s name sh r, missing, stored_password)
    | inr (k, found) ↦ rw (
      given,
      lookup_flagged on id s name sh r,
      found,
      password_flagged on id k s sh r,
      stored_password,
    )
  ]
]

authenticate_disabled :
    (s : State) (name attempt : Bytes) (id : ℕ)
    → lookup_user_by_name_locked s name ≡ some id
    → (slot s id).access.enabled ≡ false
    → authenticate s name attempt ≡ false
unfolding authenticate
authenticate_disabled s name attempt id found off = elim (Bool-cases (bytes_eq name [])) [
  | inl empty ↦ rw empty
  | inr given ↦ rw (given, found, off)
]

fallback_password :
    (s : State) (pass name : Bytes)
    → stored_password s name ≡ []
    → rakp3_password s pass name ≡ pass
unfolding rakp3_password
fallback_password s pass name missing = rw (missing, bytes_eq_refl [])

rakp1_unknown :
    {M : Type 0} (p : Platform) (one user pass : Bytes) (st : ServerState M) (s : Session)
    → 28 + byte_at one 27 ≤ length one
    → get_session st.sessions (read_le32 one 4) ≡ some s
    → stored_password st.ctx.bmc (note_rakp1 one s).user_name ≡ []
    → (note_rakp1 one s).user_name ≢ user
    → handle_rakp_message_1 p one user pass st ≡ (
      record st { sessions = put_session (read_le32 one 4) (note_rakp1 one s) st.sessions },
      ok (rakp_refusal Payload.rakp_message_2 (byte_at one 0) 0x0D (note_rakp1 one s)),
    )
unfolding handle_rakp_message_1 rakp1_password
rakp1_unknown p one user pass st s long found missing ne = rw (
  ltb-false (length one) 28 (omega arith),
  ltb-false (length one) (28 + byte_at one 27) long,
  found,
  missing,
  bytes_eq_refl [],
  bytes_eq-false (note_rakp1 one s).user_name user ne,
)

-- Disabling a slot over IPMI stops its name at Authenticate, which the Redfish server asks, and not
-- in the IPMI key exchange: both messages resolve the same password as before.
pub disabled_user_still_exchanges :
    (id : ℕ) (s : State) (user pass name attempt : Bytes)
    → HasShape s
    → InRange id
    → lookup_user_by_name_locked s name ≡ some id
    → let s' = (set_enabled false id s).0 in
      (authenticate s' name attempt ≡ false)
      × (rakp1_password s' user pass name ≡ rakp1_password s user pass name)
      × (rakp3_password s' pass name ≡ rakp3_password s pass name)
unfolding rakp1_password rakp3_password
disabled_user_still_exchanges id s user pass name attempt sh r found =
    let u : UserSlot = flagged false (slot s id) in
    rw (set_enabled_at false id s r) (
      authenticate_disabled (set_slot s id u) name attempt id
          (lookup_flagged false id s name sh r ∙ found)
          (ap (λ (v : UserSlot). v.access.enabled) (slot-set_slot_self s id u sh r)),
      rw (stored_flagged false id s name sh r),
      rw (stored_flagged false id s name sh r),
    )

-- With both messages long enough and for one session that is there: message 1 for a name that has no
-- stored password and is not the configured one is refused with
-- status 0x0D, and the session keeps that name; message 3 with the HMAC under the configured password
-- then marks the session as authenticated all the same, under that name and with the key of that
-- password.
pub refused_name_authenticates :
    {M : Type 0} (p : Platform) (one three user pass : Bytes) (st : ServerState M) (s : Session)
    → 28 + byte_at one 27 ≤ length one
    → get_session st.sessions (read_le32 one 4) ≡ some s
    → let s1 = note_rakp1 one s in
      stored_password st.ctx.bmc s1.user_name ≡ []
      → s1.user_name ≢ user
      → 28 ≤ length three
      → read_le32 three 4 ≡ read_le32 one 4
      → take 20 (drop 8 three) ≡ p.hmac_sha1 pass (rakp3_text s1)
      → let (st1, r1) = handle_rakp_message_1 p one user pass st in
        let st2 = (handle_rakp_message_3 p three pass st1).0 in
        (r1
          ≡ ok (
              0x06
              ∷ 0x13
              ∷ 0
              ∷ 0
              ∷ 0
              ∷ 0
              ∷ 0
              ∷ 0
              ∷ 0
              ∷ 0
              ∷ 8
              ∷ 0
              ∷ byte_at one 0
              ∷ 0x0D
              ∷ 0
              ∷ 0
              ∷ le32 s.remote_console_session_id))
        × ((s2 : Session) × (get_session st2.sessions (read_le32 one 4) ≡ some s2)
            × (s2.authenticated ≡ true)
            × (s2.user_name ≡ take (byte_at one 27) (drop 28 one))
            × (s2.session_integrity_key ≡ p.hmac_sha1 pass (sik_text s1)))
unfolding rakp_refusal wrap_rmcp_plus_response with_keys
refused_name_authenticates p one three user pass st s long found missing ne long3 same right =
    let s1 = note_rakp1 one s in
    let st1 = record st { sessions = put_session (read_le32 one 4) s1 st.sessions } in
    let pw : rakp3_password st1.ctx.bmc pass s1.user_name ≡ pass =
      fallback_password st.ctx.bmc pass s1.user_name missing in
    let found1 : get_session st1.sessions (read_le32 three 4) ≡ some s1 =
      rw same (get-put_session (read_le32 one 4) s1 st.sessions) in
    rw (rakp1_unknown p one user pass st s long found missing ne) (
      refl,
      (
        with_keys p pass s1,
        rw (
          rakp3_right_code p three pass st1 s1 long3 found1 (rw pw right),
          pw,
          same,
          get-put_session (read_le32 one 4) (with_keys p pass s1) st1.sessions,
        ),
        refl,
        refl,
        refl,
      ),
    )
