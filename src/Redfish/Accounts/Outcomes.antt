-- ===== src/Redfish/Accounts/Outcomes.antt =====
-- The ways in which the AccountService handlers may end, and what they have checked by then.
use qemu_bmc.Base.{
  Result, ok, ℕ, ◌≡◌, ◌≢◌, ◌≤◌, ◌<◌, refl, Bytes, true, false, [], Option, none, some, arith,
  Bool-cases, Option-cases, inl, inr, bytes_eq, length, ◌⊎◌,
}
use qemu_bmc.Bmc.State.{
  State, AccountUpdate, BmcError, user_exists, not_found, slot, set_slot, validate_user_id,
}
use qemu_bmc.Bmc.Accounts.{
  account, create_account, update_account, is_empty_name, name_clash, write_fields,
}
use qemu_bmc.Bmc.Accounts.Create.{
  CreateOutcome, refused_empty, refused_taken, refused_full, created, create_account_outcome,
  bytes_eq-false,
}
use qemu_bmc.Redfish.Http.{
  Code, Reply, document, created_at, failure, property_value_error, property_value_not_in_list,
  resource_already_exists, create_limit_reached, resource_not_found, property_missing,
}
use qemu_bmc.Redfish.Accounts.{
  CreateAccountRequest, ManagerAccount, handle_create_account, validate_user_name,
  validate_password, privilege_for_role, enabled_or_true, created_reply, account_path,
  to_manager_account, account_or_zero, max_user_name_length, max_password_length,
  PatchAccountRequest, patch_account, is_empty_patch_account, valid_if_given, patched_privilege,
  updated_reply,
}

-- A POST either fails with a client error and changes nothing, or it passed every check and
-- CreateAccount made the account.
pub data CreateReply (req : CreateAccountRequest) (s : State)
    : State × Reply ManagerAccount → Type 0 where
  refused : (n : ℕ) (c : Code) → 400 ≤ n → n < 500 → CreateReply req s (s, failure n c)
  made :
      (i p : ℕ) (s' : State)
      → validate_user_name req.user_name ≡ true
      → validate_password req.password ≡ true
      → privilege_for_role req.role_id ≡ some p
      → create_account req.user_name req.password p (enabled_or_true req.enabled) s ≡ (s', ok i)
      → CreateReply req s
          (s', created_at (account_path i) (to_manager_account (account_or_zero (account s' i))))

pub user_name_given : (name : Bytes) → validate_user_name name ≡ true → name ≢ []
unfolding validate_user_name bytes_eq
user_name_given name h e = ground (arith, e)

pub user_name_fits :
    (name : Bytes) → validate_user_name name ≡ true → length name ≤ max_user_name_length
unfolding validate_user_name
user_name_fits name h = ground arith

pub password_fits :
    (password : Bytes)
    → validate_password password ≡ true
    → (1 ≤ length password) × (length password ≤ max_password_length)
unfolding validate_password
password_fits password h = ground arith

created_reply-CreateReply :
    (req : CreateAccountRequest) (s : State) (p : ℕ) (r : State × Result BmcError ℕ)
    → validate_user_name req.user_name ≡ true
    → validate_password req.password ≡ true
    → privilege_for_role req.role_id ≡ some p
    → create_account req.user_name req.password p (enabled_or_true req.enabled) s ≡ r
    → CreateOutcome req.user_name req.password p (enabled_or_true req.enabled) s r
    → CreateReply req s (created_reply r)
created_reply-CreateReply req s p _ name pass role e (refused_empty empty) =
    absurd (user_name_given req.user_name name empty)
created_reply-CreateReply req s p _ name pass role e (refused_taken _ _) =
    refused 409 resource_already_exists (omega arith) (omega arith)
created_reply-CreateReply req s p _ name pass role e (refused_full _ _ _) =
    refused 400 create_limit_reached (omega arith) (omega arith)
created_reply-CreateReply req s p _ name pass role e (created i _ _ _ _ _ _) =
    made i p _ name pass role e

pub handle_create_account_outcome :
    (req : CreateAccountRequest) (s : State)
    → CreateReply req s (handle_create_account (some req) s)
unfolding handle_create_account
handle_create_account_outcome req s = elim (Bool-cases (validate_user_name req.user_name)) [
  | inr bad ↦ rw (bad) (refused 400 property_value_error (omega arith) (omega arith))
  | inl name ↦ elim (Bool-cases (validate_password req.password)) [
    | inr bad ↦ rw (name, bad) (refused 400 property_value_error (omega arith) (omega arith))
    | inl pass ↦ elim (Option-cases (privilege_for_role req.role_id)) [
      | inl bad ↦
          rw (name, pass, bad) (refused 400 property_value_not_in_list (omega arith) (omega arith))
      | inr (p, role) ↦
          rw (name, pass, role)
            (created_reply-CreateReply req s p _ name pass role refl
              (create_account_outcome req.user_name req.password p (enabled_or_true req.enabled) s))
    ]
  ]
]

-- The update that a PATCH body stands for, with its role turned into a privilege.
abbrev pub patch_update : PatchAccountRequest → Option ℕ → AccountUpdate
patch_update req p = record {
  name = req.user_name;
  password = req.password;
  privilege = p;
  enabled = req.enabled;
}

-- A PATCH that names an account, likewise.
pub data PatchReply (id : ℕ) (req : PatchAccountRequest) (s : State)
    : State × Reply ManagerAccount → Type 0 where
  patch_refused : (n : ℕ) (c : Code) → 400 ≤ n → n < 500 → PatchReply id req s (s, failure n c)
  patched :
      (p : Option ℕ) (s' : State)
      → valid_if_given validate_user_name req.user_name ≡ true
      → valid_if_given validate_password req.password ≡ true
      → patched_privilege req.role_id ≡ some p
      → update_account id (patch_update req p) s ≡ (s', none)
      → PatchReply id req s
          (s', document 200 (to_manager_account (account_or_zero (account s' id))))

-- With a name that is absent or not empty, UpdateAccount has two errors.
update_account_cases :
    (id : ℕ) (u : AccountUpdate) (s : State)
    → is_empty_name u.name ≡ false
    → ((update_account id u s ≡ (s, some not_found))
        ⊎ (update_account id u s ≡ (s, some user_exists)))
      ⊎ ((s' : State) × (update_account id u s ≡ (s', none)))
unfolding update_account
update_account_cases id u s given = elim (Option-cases (validate_user_id id)) [
  | inr (x, bad) ↦ inl (inl (rw (update_account, bad)))
  | inl good ↦ elim (Bool-cases (bytes_eq (slot s id).name [])) [
    | inl free ↦ inl (inl (rw (update_account, good, given, free)))
    | inr used ↦ elim (Bool-cases (name_clash s (slot s id) u.name)) [
      | inl clash ↦ inl (inr (rw (update_account, good, given, used, clash)))
      | inr fits ↦
          inr (
            set_slot s id (write_fields u (slot s id)),
            rw (update_account, good, given, used, fits),
          )
    ]
  ]
]

valid_name_given :
    (n : Option Bytes) → valid_if_given validate_user_name n ≡ true → is_empty_name n ≡ false
valid_name_given none h = refl
valid_name_given (some name) h = bytes_eq-false name [] (user_name_given name h)

updated_reply-PatchReply :
    (id : ℕ) (req : PatchAccountRequest) (s : State) (p : Option ℕ)
    → valid_if_given validate_user_name req.user_name ≡ true
    → valid_if_given validate_password req.password ≡ true
    → patched_privilege req.role_id ≡ some p
    → PatchReply id req s (updated_reply id (update_account id (patch_update req p) s))
updated_reply-PatchReply id req s p name pass role =
    elim (update_account_cases id (patch_update req p) s (valid_name_given req.user_name name)) [
      | inl (inl missing) ↦
          rw missing (patch_refused 404 resource_not_found (omega arith) (omega arith))
      | inl (inr taken) ↦
          rw taken (patch_refused 409 resource_already_exists (omega arith) (omega arith))
      | inr (s', done) ↦ rw done (patched p s' name pass role done)
    ]

pub patch_account_outcome :
    (id : ℕ) (req : PatchAccountRequest) (s : State) → PatchReply id req s (patch_account id req s)
unfolding patch_account
patch_account_outcome id req s = elim (Bool-cases (is_empty_patch_account req)) [
  | inl empty ↦
      rw (patch_account, empty) (patch_refused 400 property_missing (omega arith) (omega arith))
  | inr given ↦ elim (Bool-cases (valid_if_given validate_user_name req.user_name)) [
    | inr bad ↦
        rw (patch_account, given, bad)
          (patch_refused 400 property_value_error (omega arith) (omega arith))
    | inl name ↦ elim (Bool-cases (valid_if_given validate_password req.password)) [
      | inr bad ↦
          rw (patch_account, given, name, bad)
            (patch_refused 400 property_value_error (omega arith) (omega arith))
      | inl pass ↦ elim (Option-cases (patched_privilege req.role_id)) [
        | inl bad ↦
            rw (patch_account, given, name, pass, bad)
              (patch_refused 400 property_value_not_in_list (omega arith) (omega arith))
        | inr (p, role) ↦
            rw (patch_account, given, name, pass, role)
              (updated_reply-PatchReply id req s p name pass role)
      ]
    ]
  ]
]
