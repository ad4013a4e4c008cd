-- ===== src/Ipmi/Channel.antt =====
-- internal/ipmi/handler_channel.go: channel access and channel information.
pub mod RoundTrip
use qemu_bmc.Base.{
  ℕ, ◌+◌, ◌*◌, ◌%◌, Bytes, Bool, true, false, [], ◌∷◌, ltb, ◌==◌, not, length, byte_at, bit_set,
  bit_or, if◌then◌else◌, replicate, shl8, ◌++◌,
}
use qemu_bmc.Bmc.State.{State, ChannelAccess, ChannelInfo}
use qemu_bmc.Bmc.Config.{get_channel_access, set_channel_access, get_channel_info}
use qemu_bmc.Ipmi.Env.{Reply, reply}
use qemu_bmc.Ipmi.Types.Code

-- `if flag { b |= mask }`
abbrev pub or_flag : Bool → ℕ → ℕ → ℕ
or_flag flag mask b = if flag then bit_or b mask else b

abbrev pub access_byte : ChannelAccess → ℕ
access_byte a =
    or_flag (not a.alerting_enabled) 0x80
      (or_flag a.per_msg_auth 0x40 (or_flag a.user_level_auth 0x20 (a.access_mode % 8)))

unfoldable pub handle_get_channel_access : Bytes → State → Reply
handle_get_channel_access req s =
    let access = get_channel_access s (byte_at req 0 % 16) in
    if ltb (length req) 2
    then reply Code.invalid_field []
    else reply Code.ok (access_byte access ∷ access.privilege_limit % 16 ∷ [])

abbrev pub requested_access : Bytes → ChannelAccess
requested_access req = record {
  access_mode = byte_at req 1 % 8;
  user_level_auth = bit_set (byte_at req 1) 5;
  per_msg_auth = bit_set (byte_at req 1) 6;
  alerting_enabled = not (bit_set (byte_at req 1) 7);
  privilege_limit = byte_at req 2 % 16;
}

unfoldable pub handle_set_channel_access : Bytes → State → State × Reply
handle_set_channel_access req s =
    if ltb (length req) 3
    then (s, reply Code.invalid_field [])
    else (set_channel_access (byte_at req 0 % 16) (requested_access req) s, reply Code.ok [])

-- Channel 0x0E is the current one, which is channel 1.
unfoldable pub handle_get_channel_info : Bytes → Reply
unfolding get_channel_info
handle_get_channel_info req =
    let asked = byte_at req 0 % 16 in
    let channel = if asked == 0x0E then 1 else asked in
    let info = get_channel_info channel in
    let byte3 = bit_or (shl8 (info.session_support % 4) 6) (info.active_sessions % 64) in
    if ltb (length req) 1
    then reply Code.invalid_field []
    else reply Code.ok
        (info.channel_number ∷ info.channel_medium ∷ info.channel_protocol ∷ byte3 ∷ replicate 5 0)
