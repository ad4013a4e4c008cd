-- ===== src/Redfish/Accounts/Errors.antt =====
-- The AccountService fails with client errors only, and without a change.
use qemu_bmc.Base.{ℕ, ◌≤◌, ◌<◌, none, some, arith, Option-cases, inl, inr}
use qemu_bmc.Bmc.State.{State}
use qemu_bmc.Bmc.Accounts.Update.{delete_account_cases}
use qemu_bmc.Redfish.Http.{
  Code, Reply, document, created_at, failure, no_content, malformed_json, resource_not_found, Link,
}
use qemu_bmc.Redfish.Accounts.{
  ManagerAccount, handle_create_account, handle_patch_account, handle_delete_account,
  account_id_from_request,
}
use qemu_bmc.Redfish.Accounts.Bounds.{
  AccountCall, post_account, patch_account_at, delete_account_at, serve_account,
}
use qemu_bmc.Redfish.Accounts.Outcomes.{
  CreateReply, refused, made, handle_create_account_outcome, PatchReply, patch_refused, patched,
  patch_account_outcome,
}

-- An answer with a client error and the state as it was, or an answer with a success.
pub data IsSettled (s : State) : State × Reply ManagerAccount → Type 0 where
  failed : (n : ℕ) (c : Code) → 400 ≤ n → n < 500 → IsSettled s (s, failure n c)
  showed : (s' : State) (a : ManagerAccount) → IsSettled s (s', document 200 a)
  created : (s' : State) (l : Link) (a : ManagerAccount) → IsSettled s (s', created_at l a)
  removed : (s' : State) → IsSettled s (s', no_content)

create-IsSettled :
    {req : _} {s : State} {r : State × Reply ManagerAccount} → CreateReply req s r → IsSettled s r
create-IsSettled (refused n c lo hi) = failed n c lo hi
create-IsSettled (made i p s' _ _ _ _) = created s' _ _

patch-IsSettled :
    {id : ℕ} {req : _} {s : State} {r : State × Reply ManagerAccount}
    → PatchReply id req s r
    → IsSettled s r
patch-IsSettled (patch_refused n c lo hi) = failed n c lo hi
patch-IsSettled (patched p s' _ _ _ _) = showed s' _

not_found_IsSettled : (s : State) → IsSettled s (s, failure 404 resource_not_found)
not_found_IsSettled s = failed 404 resource_not_found (omega arith) (omega arith)

malformed_IsSettled : (s : State) → IsSettled s (s, failure 400 malformed_json)
malformed_IsSettled s = failed 400 malformed_json (omega arith) (omega arith)

-- POST, PATCH and DELETE of accounts answer with a success, or with a status from 400 to 499 and
-- the user table unchanged; the internal errors of the handlers are never reached.
pub serve_account-IsSettled : (c : AccountCall) (s : State) → IsSettled s (serve_account c s)
unfolding serve_account handle_create_account handle_patch_account handle_delete_account
serve_account-IsSettled (post_account none) s = malformed_IsSettled s
serve_account-IsSettled (post_account (some req)) s =
    create-IsSettled (handle_create_account_outcome req s)
serve_account-IsSettled (patch_account_at id body) s =
    elim (Option-cases (account_id_from_request id)) [
      | inl bad ↦ rw (handle_patch_account, bad) (not_found_IsSettled s)
      | inr (n, good) ↦ elim (Option-cases body) [
        | inl malformed ↦ rw (handle_patch_account, good, malformed) (malformed_IsSettled s)
        | inr (req, e) ↦
            rw (handle_patch_account, good, e) (patch-IsSettled (patch_account_outcome n req s))
      ]
    ]
serve_account-IsSettled (delete_account_at id) s =
    elim (Option-cases (account_id_from_request id)) [
      | inl bad ↦ rw (handle_delete_account, bad) (not_found_IsSettled s)
      | inr (n, good) ↦ elim (delete_account_cases n s) [
        | inl missing ↦ rw (handle_delete_account, good, missing, missing) (not_found_IsSettled s)
        | inr (r, named, done) ↦ rw (handle_delete_account, good, done, done) (removed _)
      ]
    ]
