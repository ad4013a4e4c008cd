-- ===== src/Bmc/Users/Passwords.antt =====
-- Slot-level writes followed by the reads that they are meant for, and how IPMI renaming relates
-- to the unique names of the accounts.
use qemu_bmc.Base.{ok, ℕ, ◌≡◌, ◌≢◌, sym, Bytes, false, [], none, if◌then◌else◌, bytes_eq, ◌∙◌, ap}
use qemu_bmc.Bmc.State.{State, UserSlot, UserAccess, slot, set_slot}
use qemu_bmc.Bmc.Users.{
  set_user_name, set_user_password, set_user_access, check_password, get_user_name, get_user_access,
}
use qemu_bmc.Bmc.Invariant.{
  HasShape, HasUniqueNames, InRange, slot-set_slot_self, slot-set_slot_ne, set_slot-HasShape,
  validate_user_id_ok,
}

pub set_user_name_at :
    (s : State) (id : ℕ) (name : Bytes)
    → InRange id
    → set_user_name id name s ≡ (set_slot s id (record (slot s id) { name = name }), none)
unfolding set_user_name
set_user_name_at s id name r = rw (validate_user_id_ok id r, set_user_name)

pub set_user_password_at :
    (s : State) (id : ℕ) (password : Bytes)
    → InRange id
    → set_user_password id password s
      ≡ (set_slot s id (record (slot s id) { password = password }), none)
unfolding set_user_password
set_user_password_at s id password r = rw (validate_user_id_ok id r, set_user_password)

pub set_user_access_at :
    (s : State) (channel id : ℕ) (access : UserAccess)
    → InRange id
    → set_user_access channel id access s
      ≡ (set_slot s id (record (slot s id) { access = access }), none)
unfolding set_user_access
set_user_access_at s channel id access r = rw (validate_user_id_ok id r, set_user_access)

pub get_user_name_at : (s : State) (id : ℕ) → InRange id → get_user_name s id ≡ ok (slot s id).name
unfolding get_user_name
get_user_name_at s id r = rw (validate_user_id_ok id r, get_user_name)

pub get_user_access_at :
    (s : State) (channel id : ℕ) → InRange id → get_user_access s channel id ≡ ok (slot s id).access
unfolding get_user_access
get_user_access_at s channel id r = rw (validate_user_id_ok id r, get_user_access)

pub check_password_at :
    (s : State) (id : ℕ) (attempt : Bytes)
    → InRange id
    → check_password s id attempt
      ≡ (if bytes_eq (slot s id).password [] then false else bytes_eq (slot s id).password attempt)
unfolding check_password
check_password_at s id attempt r = rw (validate_user_id_ok id r, check_password)

-- SetUserName does not look at the other slots: in a state of the right shape, giving two slots in
-- range one name that is not empty leaves a state whose names are not unique.
pub set_user_name_duplicates :
    (s : State) (i j : ℕ) (name : Bytes)
    → HasShape s
    → InRange i
    → InRange j
    → i ≢ j
    → name ≢ []
    → let first = (set_user_name i name s).0 in ¬ HasUniqueNames (set_user_name j name first).0
set_user_name_duplicates s i j name sh ri rj ne given uniq =
    let u : UserSlot = record (slot s i) { name = name } in
    let s1 : State = set_slot s i u in
    let v : UserSlot = record (slot s1 j) { name = name } in
    let s2 : State = set_slot s1 j v in
    let at_i : (slot s2 i).name ≡ name =
      ap (λ (w : UserSlot). w.name)
        (slot-set_slot_ne s1 j i v (λ p. ne (sym p)) ∙ slot-set_slot_self s i u sh ri) in
    let at_j : (slot s2 j).name ≡ name =
      ap (λ (w : UserSlot). w.name) (slot-set_slot_self s1 j v (set_slot-HasShape s i u sh) rj) in
    let uniq2 : HasUniqueNames s2 =
      (rw (set_user_name_at s i name ri, set_user_name_at s1 j name rj) at uniq) in
    ne (uniq2 i j ri rj (at_i ∙ sym at_j) (λ p. given (sym at_i ∙ p)))
