-- ===== src/Ipmi/User/Passwords.antt =====
-- Set User Password: the password that was set passes the test, and no other one does.
use qemu_bmc.Base.{
  ◌+◌, ◌%◌, ◌≡◌, ◌≤◌, Bytes, false, [], arith, length, byte_at, ltb-false, if◌then◌else◌, bytes_eq,
  not, ◌&&◌,
}
use qemu_bmc.Bmc.State.{State, UserSlot, slot, set_slot}
use qemu_bmc.Bmc.Invariant.{HasShape, InRange, slot-set_slot_self}
use qemu_bmc.Bmc.Users.{check_password}
use qemu_bmc.Bmc.Users.Passwords.{set_user_password_at, check_password_at}
use qemu_bmc.Ipmi.Env.{Reply, reply}
use qemu_bmc.Ipmi.Types.Code
use qemu_bmc.Ipmi.User.{pass_len, password_field, handle_set_user_password}

pub set_password_at :
    (req : Bytes) (s : State)
    → byte_at req 1 % 4 ≡ 2
    → 2 + pass_len req ≤ length req
    → InRange (byte_at req 0 % 64)
    → handle_set_user_password req s ≡ (
      set_slot s
          (byte_at req 0 % 64)
          (record (slot s (byte_at req 0 % 64)) { password = password_field req }),
      reply Code.ok [],
    )
unfolding handle_set_user_password
set_password_at req s op long r = rw (
  ltb-false (length req) 2 (omega arith),
  op,
  ltb-false (length req) (2 + pass_len req) long,
  set_user_password_at s (byte_at req 0 % 64) (password_field req) r,
)

test_password_at :
    (req : Bytes) (s : State)
    → byte_at req 1 % 4 ≡ 3
    → 2 + pass_len req ≤ length req
    → handle_set_user_password req s ≡ (
        if check_password s (byte_at req 0 % 64) (password_field req)
        then (s, reply Code.ok [])
        else (s, reply Code.invalid_field []))
unfolding handle_set_user_password
test_password_at req s op long =
    rw (ltb-false (length req) 2 (omega arith), op, ltb-false (length req) (2 + pass_len req) long)

-- The answer of a password test against what is stored.
abbrev pub test_answer : Bytes → Bytes → Reply
test_answer stored attempt =
    if not (bytes_eq stored []) && bytes_eq stored attempt
    then reply Code.ok []
    else reply Code.invalid_field []

-- After a password was set for a slot, a test for that slot changes nothing and answers OK for
-- that password exactly, and for none at all when the password set was empty.
pub test-set_password :
    (req test : Bytes) (s : State)
    → HasShape s
    → InRange (byte_at req 0 % 64)
    → byte_at req 1 % 4 ≡ 2
    → 2 + pass_len req ≤ length req
    → byte_at test 0 % 64 ≡ byte_at req 0 % 64
    → byte_at test 1 % 4 ≡ 3
    → 2 + pass_len test ≤ length test
    → let s' = (handle_set_user_password req s).0 in
      handle_set_user_password test s'
      ≡ (s', test_answer (password_field req) (password_field test))
test-set_password req test s sh r op long same test_op test_long =
    let id = byte_at req 0 % 64 in
    let u : UserSlot = record (slot s id) { password = password_field req } in
    let s1 : State = set_slot s id u in
    rw
      (
        set_password_at req s op long r,
        test_password_at test s1 test_op test_long,
        same,
        check_password_at s1 id (password_field test) r,
        slot-set_slot_self s id u sh r,
      )
      (answers s1 (password_field req) (password_field test))
  where
    answers :
        (s1 : State) (stored attempt : Bytes)
        → ◌≡◌ {A = State × Reply}
            (if if bytes_eq stored [] then false else bytes_eq stored attempt
              then (s1, reply Code.ok [])
              else (s1, reply Code.invalid_field []))
            (s1, test_answer stored attempt)
    answers s1 stored attempt = ground arith
