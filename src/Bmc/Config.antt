-- ===== src/Bmc/Config.antt =====
-- internal/bmc/state.go: LAN parameters and channel settings. The source copies the slices on the
-- way in and out, so a value is never shared.
use qemu_bmc.Base.{ℕ, Bytes, Option, get_or, set, ltb, lookup, insert, if◌then◌else◌}
use qemu_bmc.Bmc.State.{State, ChannelAccess, ChannelInfo, no_channel_access}

-- A nil slice, the answer for a missing key, is `none`.
unfoldable pub get_lan_config : State → ℕ → Option Bytes
get_lan_config s param = lookup param s.lan_config

unfoldable pub set_lan_config : ℕ → Bytes → State → State
set_lan_config param value s = record s { lan_config = insert param value s.lan_config }

unfoldable pub get_channel_access : State → ℕ → ChannelAccess
get_channel_access s channel =
    if ltb 15 channel then no_channel_access else get_or s.channel_access channel no_channel_access

unfoldable pub set_channel_access : ℕ → ChannelAccess → State → State
set_channel_access channel access s =
    if ltb 15 channel then s else record s { channel_access = set s.channel_access channel access }

unfoldable pub get_channel_info : ℕ → ChannelInfo
get_channel_info channel = record {
  channel_number = channel;
  channel_medium = 0x04;
  channel_protocol = 0x01;
  session_support = 0x02;
  active_sessions = 0;
}
