-- ===== src/Bmc/State.antt =====
-- internal/bmc/state.go: the types, the constructor and the validation of slot numbers. An array
-- is a list; a Go method on *State takes the state and returns it changed. The mutex makes each
-- method one step.
use qemu_bmc.Base.{
  ℕ, Bytes, Bool, true, false, List, [], ◌∷◌, Option, none, some, ltb, get_or, set, replicate,
  if◌then◌else◌, ◌||◌,
}

abbrev pub max_users : ℕ
max_users = 15

-- `range_error` is the unnamed error of validateUserID.
pub data BmcError : Type 0 where
  user_exists no_free_slot not_found empty_name range_error : BmcError

pub record Account : Type 0 where
  pub id : ℕ
  pub name : Bytes
  pub privilege : ℕ
  pub enabled : Bool

-- A nil pointer is `none`.
pub record AccountUpdate : Type 0 where
  pub name : Option Bytes
  pub password : Option Bytes
  pub privilege : Option ℕ
  pub enabled : Option Bool

pub record UserAccess : Type 0 where
  pub privilege_limit : ℕ
  pub enabled : Bool
  pub ipmi_messaging : Bool
  pub link_auth : Bool
  pub callin_callback : Bool

pub record UserSlot : Type 0 where
  pub name : Bytes
  pub password : Bytes
  pub access : UserAccess

pub record ChannelAccess : Type 0 where
  pub access_mode : ℕ
  pub user_level_auth : Bool
  pub per_msg_auth : Bool
  pub alerting_enabled : Bool
  pub privilege_limit : ℕ

pub record ChannelInfo : Type 0 where
  pub channel_number : ℕ
  pub channel_medium : ℕ
  pub channel_protocol : ℕ
  pub session_support : ℕ
  pub active_sessions : ℕ

pub record State : Type 0 where
  pub users : List UserSlot
  pub lan_config : List (ℕ × Bytes)
  pub channel_access : List ChannelAccess

-- The zero values of the Go types.
abbrev pub no_access : UserAccess
no_access = record {
  privilege_limit = 0;
  enabled = false;
  ipmi_messaging = false;
  link_auth = false;
  callin_callback = false;
}

abbrev pub free_slot : UserSlot
free_slot = record { name = []; password = []; access = no_access }

abbrev pub no_channel_access : ChannelAccess
no_channel_access = record {
  access_mode = 0;
  user_level_auth = false;
  per_msg_auth = false;
  alerting_enabled = false;
  privilege_limit = 0;
}

-- `s.users[id]`; the array has 16 entries and every id is validated, so the default is not read.
abbrev pub slot : State → ℕ → UserSlot
slot s id = get_or s.users id free_slot

abbrev pub set_slot : State → ℕ → UserSlot → State
set_slot s id u = record s { users = set s.users id u }

default_slot : Bytes → Bytes → UserSlot
default_slot user pass = record {
  name = user;
  password = pass;
  access = record {
    privilege_limit = 4;
    enabled = true;
    ipmi_messaging = true;
    link_auth = true;
    callin_callback = false;
  };
}

abbrev pub default_lan_config : List (ℕ × Bytes)
default_lan_config =
    (1, 0x97 ∷ [])
    ∷ (2, 0x14 ∷ 0x14 ∷ 0x14 ∷ 0x14 ∷ 0x00 ∷ [])
    ∷ (3, replicate 4 0)
    ∷ (4, 0x01 ∷ [])
    ∷ (5, replicate 6 0)
    ∷ (6, replicate 4 0)
    ∷ (12, replicate 4 0)
    ∷ []

abbrev default_channel : ChannelAccess
default_channel = record {
  access_mode = 2;
  user_level_auth = true;
  per_msg_auth = true;
  alerting_enabled = false;
  privilege_limit = 4;
}

unfoldable pub new_state : Bytes → Bytes → State
unfolding default_slot
new_state user pass = record {
  users = set (replicate 16 free_slot) 2 (default_slot user pass);
  lan_config = default_lan_config;
  channel_access = set (replicate 16 no_channel_access) 1 default_channel;
}

-- validateUserID: `none` when the id is in range.
unfoldable pub validate_user_id : ℕ → Option BmcError
validate_user_id id = if ltb id 1 || ltb max_users id then some range_error else none
