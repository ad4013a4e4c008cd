-- ===== src/Ipmi/Channel/RoundTrip.antt =====
-- Get Channel Access after Set Channel Access.
use qemu_bmc.Base.{
  ℕ, ◌+◌, ◌*◌, ◌/◌, ◌%◌, ◌≡◌, ◌≤◌, ◌<◌, refl, Bytes, [], ◌∷◌, arith, length, byte_at, ltb-false,
  bit_set, not, get_or-set_self, IsByte,
}
use qemu_bmc.Base.Bits.{agree, agree_below}
use qemu_bmc.Bmc.State.{State, ChannelAccess, no_channel_access}
use qemu_bmc.Bmc.Config.{get_channel_access, set_channel_access}
use qemu_bmc.Bmc.Invariant.{HasShape}
use qemu_bmc.Ipmi.Channel.{
  access_byte, requested_access, handle_get_channel_access, handle_set_channel_access,
}
use qemu_bmc.Ipmi.Env.{reply}
use qemu_bmc.Ipmi.Types.Code

pub get-set_channel_access_state :
    (s : State) (channel : ℕ) (a : ChannelAccess)
    → HasShape s
    → channel < 16
    → get_channel_access (set_channel_access channel a s) channel ≡ a
unfolding get_channel_access set_channel_access
get-set_channel_access_state s channel a sh h =
    rw (ltb-false 15 channel (omega arith))
      (get_or-set_self s.channel_access channel a no_channel_access (omega (arith, sh.channels)))

-- The access byte, decoded and encoded again: the reserved bits 3 and 4 are cleared.
access_of : ℕ → ChannelAccess
access_of b = record {
  access_mode = b % 8;
  user_level_auth = bit_set b 5;
  per_msg_auth = bit_set b 6;
  alerting_enabled = not (bit_set b 7);
  privilege_limit = 0;
}

encode_decode : (b : ℕ) → IsByte b → access_byte (access_of b) ≡ b % 8 + b / 32 * 32
unfolding agree access_of
encode_decode = agree_below 256 (λ b. access_byte (access_of b)) (λ b. b % 8 + b / 32 * 32) refl

-- After Set Channel Access, Get Channel Access for the same channel answers the settings that were
-- sent: the access byte without its two reserved bits, and the low half of the privilege byte.
pub get-set_channel_access :
    (req ask : Bytes) (s : State)
    → HasShape s
    → 3 ≤ length req
    → 2 ≤ length ask
    → IsByte (byte_at req 1)
    → byte_at ask 0 % 16 ≡ byte_at req 0 % 16
    → let (s', r) = handle_set_channel_access req s in
      (r ≡ reply Code.ok [])
      × (handle_get_channel_access ask s'
          ≡ reply Code.ok ((byte_at req 1 % 8 + byte_at req 1 / 32 * 32) ∷ byte_at req 2 % 16 ∷ []))
unfolding handle_set_channel_access handle_get_channel_access access_of
get-set_channel_access req ask s sh long some_ask is_byte same =
    let half : byte_at req 2 % 16 % 16 ≡ byte_at req 2 % 16 = omega arith in
    let small : byte_at req 1 % 8 % 8 ≡ byte_at req 1 % 8 = omega arith in
    rw (ltb-false (length req) 3 long) (
      refl,
      rw (
        ltb-false (length ask) 2 some_ask,
        same,
        get-set_channel_access_state s (byte_at req 0 % 16) (requested_access req) sh (omega arith),
        half,
        encode_decode (byte_at req 1) is_byte,
      ),
    )
