-- ===== src/Ipmi/App.antt =====
-- internal/ipmi/handler_app.go: the Application commands, and the session commands of IPMI 1.5.
use qemu_bmc.Base.{
  ℕ, Bytes, [], ◌∷◌, ◌++◌, none, some, ltb, ◌==◌, length, byte_at, le32, read_le32, if◌then◌else◌,
}
use qemu_bmc.Bmc.State.{State}
use qemu_bmc.Ipmi.Env.{Platform, Ctx, Reply, reply, rand_read}
use qemu_bmc.Ipmi.Channel.{
  handle_get_channel_access, handle_set_channel_access, handle_get_channel_info,
}
use qemu_bmc.Ipmi.User.{
  handle_get_user_access, handle_get_user_name, handle_set_user_name, handle_set_user_password,
  handle_set_user_access,
}
use qemu_bmc.Ipmi.Types.Code
use qemu_bmc.Ipmi.Wire.{IpmiMessage}

unfoldable pub handle_get_device_id : Reply
handle_get_device_id =
    reply Code.ok (0x20 ∷ 0x01 ∷ 0x02 ∷ 0x00 ∷ 0x02 ∷ 0xBF ∷ 0 ∷ 0 ∷ 0 ∷ 0 ∷ 0 ∷ 0 ∷ 0 ∷ 0 ∷ 0 ∷ [])

unfoldable pub handle_get_channel_auth_capabilities : Bytes → Reply
handle_get_channel_auth_capabilities req =
    reply Code.ok (0x01 ∷ 0x97 ∷ 0x06 ∷ 0x02 ∷ 0x00 ∷ 0x00 ∷ 0x00 ∷ 0x00 ∷ [])

unfoldable pub handle_set_session_privilege : Bytes → Reply
handle_set_session_privilege req =
    if ltb (length req) 1 then reply Code.invalid_field [] else reply Code.ok (byte_at req 0 ∷ [])

-- A handler that works on the BMC state alone, run in the whole context.
abbrev pub on_bmc : {M : Type 0} → (State → State × Reply) → Ctx M → Ctx M × Reply
on_bmc f c = let (s, r) = f c.bmc in (record c { bmc = s }, r)

-- "Avoid zero session ID"
abbrev pub nonzero_id : ℕ → ℕ
nonzero_id id = if id == 0 then 1 else id

module _ {M : Type 0} (p : Platform) where
  -- The temporary session id is stored before the challenge is drawn.
  unfoldable pub handle_get_session_challenge : Ctx M → Ctx M × Reply
  unfolding rand_read
  handle_get_session_challenge c =
      let (c1, drawn_id) = rand_read p 4 c in
      elim drawn_id [
        | none ↦ (c1, reply Code.unspecified [])
        | some b ↦
            let id = read_le32 b 0 in
            let c2 : Ctx M = record c1 { v15 = record (c1.v15) { temp_session_id = id } } in
            let (c3, drawn) = rand_read p 16 c2 in
            elim drawn [
              | none ↦ (c3, reply Code.unspecified [])
              | some ch ↦ (
                record c3 { v15 = record (c3.v15) { challenge = ch } },
                reply Code.ok (le32 id ++ ch),
              )
            ]
      ]

  unfoldable pub handle_activate_session : Bytes → Ctx M → Ctx M × Reply
  unfolding rand_read
  handle_activate_session req c =
      let (c1, drawn) = rand_read p 4 c in
      if ltb (length req) 22 then (c, reply Code.invalid_field []) else elim drawn [
        | none ↦ (c1, reply Code.unspecified [])
        | some b ↦
            let id = nonzero_id (read_le32 b 0) in
            (
              record c1 { v15 = record (c1.v15) { active_session_id = id } },
              reply Code.ok (byte_at req 0 ∷ (le32 id ++ (le32 1 ++ (byte_at req 1 ∷ [])))),
            )
      ]

  unfoldable pub handle_app_command : IpmiMessage → Ctx M → Ctx M × Reply
  handle_app_command msg c =
      let req = msg.payload in
      if msg.command == 0x01
      then (c, handle_get_device_id)
      else if msg.command == 0x38
      then (c, handle_get_channel_auth_capabilities req)
      else if msg.command == 0x39
      then handle_get_session_challenge c
      else if msg.command == 0x3A
      then handle_activate_session req c
      else if msg.command == 0x3B
      then (c, handle_set_session_privilege req)
      else if msg.command == 0x3C
      then (c, reply Code.ok [])
      else if msg.command == 0x44
      then (c, handle_get_user_access req c.bmc)
      else if msg.command == 0x46
      then (c, handle_get_user_name req c.bmc)
      else if msg.command == 0x45
      then on_bmc (handle_set_user_name req) c
      else if msg.command == 0x47
      then on_bmc (handle_set_user_password req) c
      else if msg.command == 0x43
      then on_bmc (handle_set_user_access req) c
      else if msg.command == 0x41
      then (c, handle_get_channel_access req c.bmc)
      else if msg.command == 0x40
      then on_bmc (handle_set_channel_access req) c
      else if msg.command == 0x42
      then (c, handle_get_channel_info req)
      else (c, reply Code.invalid_command [])
