-- ===== src/Ipmi/Session.antt =====
-- internal/ipmi/session.go: RMCP+ sessions. The map holds pointers; here a changed session is
-- written back under its id.
use qemu_bmc.Base.{
  ℕ, Bytes, Bool, false, List, [], Option, none, some, lookup, insert, erase, read_le32, replicate,
}
use qemu_bmc.Ipmi.Env.{Platform, Ctx, rand_read}
use qemu_bmc.Ipmi.Types.{Outcome, ok, err, random_failed}

pub record Session : Type 0 where
  pub remote_console_session_id : ℕ
  pub managed_system_session_id : ℕ
  pub remote_console_random : Bytes
  pub managed_system_random : Bytes
  pub requested_privilege_level : ℕ
  pub managed_system_guid : Bytes
  pub user_name : Bytes
  pub user_name_length : ℕ
  pub session_integrity_key : Bytes
  pub integrity_key : Bytes
  pub confidentiality_key : Bytes
  pub authenticated : Bool
  pub auth_algorithm : ℕ
  pub integrity_algorithm : ℕ
  pub confidentiality_algorithm : ℕ
  pub outbound_sequence_number : ℕ

abbrev pub Sessions : Type 0
Sessions = List (ℕ × Session)

unfoldable pub new_session_manager : Sessions
new_session_manager = []

-- A session with the two ids and the zero values of Go; a nil slice is the empty list.
abbrev pub empty_session : ℕ → ℕ → Bytes → Bytes → Session
empty_session remote managed random guid = record {
  remote_console_session_id = remote;
  managed_system_session_id = managed;
  remote_console_random = replicate 16 0;
  managed_system_random = random;
  requested_privilege_level = 0;
  managed_system_guid = guid;
  user_name = [];
  user_name_length = 0;
  session_integrity_key = [];
  integrity_key = [];
  confidentiality_key = [];
  authenticated = false;
  auth_algorithm = 0;
  integrity_algorithm = 0;
  confidentiality_algorithm = 0;
  outbound_sequence_number = 0;
}

unfoldable pub get_session : Sessions → ℕ → Option Session
get_session sm id = lookup id sm

unfoldable pub remove_session : ℕ → Sessions → Sessions
remove_session id sm = erase id sm

-- The write through the pointer that GetSession or CreateSession returned.
unfoldable pub put_session : ℕ → Session → Sessions → Sessions
put_session id s sm = insert id s sm

-- The id, the random number and the GUID are drawn in this order; the first failure ends the call.
module _ {M : Type 0} (p : Platform) where
  unfoldable pub create_session : ℕ → Ctx M → Sessions → Ctx M × Sessions × Outcome Session
  unfolding rand_read
  create_session remote c sm =
      let (c1, id_bytes) = rand_read p 4 c in
      elim id_bytes [
        | none ↦ (c1, sm, err random_failed)
        | some b ↦
            let (c2, random) = rand_read p 16 c1 in
            elim random [
              | none ↦ (c2, sm, err random_failed)
              | some r ↦
                  let (c3, guid) = rand_read p 16 c2 in
                  elim guid [
                    | none ↦ (c3, sm, err random_failed)
                    | some g ↦
                        let session = empty_session remote (read_le32 b 0) r g in
                        (c3, put_session (read_le32 b 0) session sm, ok session)
                  ]
            ]
      ]
