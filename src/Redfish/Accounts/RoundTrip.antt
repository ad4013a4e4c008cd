-- ===== src/Redfish/Accounts/RoundTrip.antt =====
-- A created account is found again under the URI of the answer, and roles survive the IPMI table.
use Prim.Native.String.{String}
use text.Mathlib.TextEquality.{eq_iff}
use qemu_bmc.Base.{ok, ℕ, ◌≡◌, ◌≢◌, ◌≤◌, refl, Bytes, Bool, [], some, arith}
use qemu_bmc.Base.Decimal.{itoa, parse_uint8-itoa}
use qemu_bmc.Bmc.State.{State, Account, UserSlot, set_slot}
use qemu_bmc.Bmc.Accounts.{account, account_locked, create_account, new_slot}
use qemu_bmc.Bmc.Accounts.Create.{bytes_eq-false}
use qemu_bmc.Bmc.Invariant.{HasShape, InRange, slot-set_slot_self, validate_user_id_ok}
use qemu_bmc.Redfish.Http.{Reply, document, created_at, Link, account_link}
use qemu_bmc.Redfish.Accounts.{
  CreateAccountRequest, ManagerAccount, handle_create_account, handle_get_account,
  privilege_for_role, role_for_privilege, account_path, to_manager_account, account_or_zero,
  enabled_or_true,
}
use qemu_bmc.Redfish.Accounts.Bounds.{create_account_write}
use qemu_bmc.Redfish.Accounts.Outcomes.{
  CreateReply, refused, made, handle_create_account_outcome, user_name_given,
}

-- The last segment of an account's URI, which the router hands to the handlers as {id}.
abbrev pub account_segment : Link → Bytes
account_segment (account_link id) = id
account_segment _ = []

-- A role that the service accepts is shown again for the privilege that it is stored as.
pub role-privilege :
    (role : String) (p : ℕ) → privilege_for_role role ≡ some p → role_for_privilege p ≡ role
unfolding privilege_for_role role_for_privilege
role-privilege role p e =
    ground (arith, eq_iff role "Administrator", eq_iff role "Operator", eq_iff role "ReadOnly")

account-set_slot :
    (s : State) (i : ℕ) (u : UserSlot)
    → HasShape s
    → InRange i
    → u.name ≢ []
    → account (set_slot s i u) i
      ≡ some (record {
        id = i;
        name = u.name;
        privilege = u.access.privilege_limit;
        enabled = u.access.enabled;
      })
unfolding account account_locked
account-set_slot s i u sh r named = rw (
  account,
  validate_user_id_ok i r,
  slot-set_slot_self s i u sh r,
  bytes_eq-false u.name [] named,
)

-- What CreateAccount wrote is what Account shows.
account-create_account :
    (name password : Bytes) (p : ℕ) (enabled : Bool) (s s' : State) (i : ℕ)
    → HasShape s
    → name ≢ []
    → create_account name password p enabled s ≡ (s', ok i)
    → account s' i ≡ some (record { id = i; name = name; privilege = p; enabled = enabled })
unfolding new_slot
account-create_account name password p enabled s s' i sh named e =
    let w = create_account_write name password p enabled s s' i e in
    rw (w.1) (account-set_slot s i (new_slot name password p enabled) sh w.0 named)

get_made :
    (i : ℕ) (s : State) (a : Account)
    → i ≤ 255
    → account s i ≡ some a
    → handle_get_account (itoa i) s ≡ document 200 (to_manager_account a)
unfolding handle_get_account
get_made i s a small e = rw (handle_get_account, parse_uint8-itoa i small, e)

-- After a POST answers with a URI and a document, GET of that URI answers with the same document,
-- which shows the name, the role and the enabled flag of the request.
pub get-created_account :
    (req : CreateAccountRequest) (s s' : State) (l : Link) (a : ManagerAccount)
    → HasShape s
    → handle_create_account (some req) s ≡ (s', created_at l a)
    → (handle_get_account (account_segment l) s' ≡ document 200 a)
      × (a.user_name ≡ req.user_name)
      × (a.role_id ≡ req.role_id)
      × (a.enabled ≡ enabled_or_true req.enabled)
unfolding to_manager_account
get-created_account req s s' l a sh e =
    go (handle_create_account (some req) s) (handle_create_account_outcome req s) e
  where
    go :
        (r : State × Reply ManagerAccount)
        → CreateReply req s r
        → r ≡ (s', created_at l a)
        → (handle_get_account (account_segment l) s' ≡ document 200 a)
          × (a.user_name ≡ req.user_name)
          × (a.role_id ≡ req.role_id)
          × (a.enabled ≡ enabled_or_true req.enabled)
    go _ (refused _ _ _ _) e = cc
    go _ (made i p s1 name pass role done) e =
        let on = enabled_or_true req.enabled in
        let w = create_account_write req.user_name req.password p on s s1 i done in
        let shown =
          account-create_account req.user_name req.password p on s s1 i sh
            (user_name_given req.user_name name) done in
        let state : s1 ≡ s' = cc in
        let link : account_path i ≡ l = cc in
        let doc : to_manager_account (account_or_zero (account s1 i)) ≡ a = cc in
        (
          rw (← state, ← link, ← doc, shown) (get_made i s1 _ (omega (arith, w.0)) shown),
          rw (← doc, shown) refl,
          rw (← doc, shown) (role-privilege req.role_id p role),
          rw (← doc, shown) refl,
        )
