-- ===== src/Redfish/Accounts/Bounds.antt =====
-- What the AccountService keeps true of the user table: its shape, unique names, and the sizes of
-- IPMI's name and password fields.
use qemu_bmc.Base.{
  Result, ok, ℕ, ◌≡◌, ◌≤◌, ◌==◌, refl, sym, ap, Bytes, Bool, true, List, [], ◌∷◌, Option, none,
  some, arith, Bool-cases, Option-cases, inl, inr, length,
}
use qemu_bmc.Bmc.State.{State, UserSlot, AccountUpdate, BmcError, slot, set_slot, free_slot}
use qemu_bmc.Bmc.Accounts.{
  create_account, update_account, delete_account, new_slot, write_fields, or_keep,
}
use qemu_bmc.Bmc.Accounts.Create.{
  CreateOutcome, refused_empty, refused_taken, refused_full, created, create_account_outcome,
  create_account-IsWellFormed,
}
use qemu_bmc.Bmc.Accounts.Update.{
  UpdateOutcome, update_account_outcome, refused as refused_update, updated,
  update_account-IsWellFormed, delete_account_cases,
}
use qemu_bmc.Bmc.Invariant.{
  HasShape, HasUniqueNames, InRange, slot-set_slot, set_slot-HasShape, set_slot-HasUniqueNames,
}
use qemu_bmc.Redfish.Http.{Reply}
use qemu_bmc.Redfish.Accounts.{
  CreateAccountRequest, PatchAccountRequest, ManagerAccount, handle_create_account,
  handle_patch_account, handle_delete_account, account_id_from_request, max_user_name_length,
  max_password_length, valid_if_given, validate_user_name, validate_password, enabled_or_true,
}
use qemu_bmc.Redfish.Accounts.Outcomes.{
  CreateReply, refused, made, handle_create_account_outcome, PatchReply, patch_refused, patched,
  patch_account_outcome, patch_update, user_name_fits, password_fits,
}

abbrev pub Fits : UserSlot → Type 0
Fits u = (length u.name ≤ max_user_name_length) × (length u.password ≤ max_password_length)

pub record IsStored (s : State) : Type 0 where
  pub shape : HasShape s
  pub unique : HasUniqueNames s
  pub fits : (i : ℕ) → InRange i → Fits (slot s i)

set_slot-Fits :
    (s : State) (k : ℕ) (u : UserSlot)
    → HasShape s
    → InRange k
    → Fits u
    → ((i : ℕ) → InRange i → Fits (slot s i))
    → (i : ℕ) → InRange i
    → Fits (slot (set_slot s k u) i)
set_slot-Fits s k u sh r fit old i ri = elim (Bool-cases (k == i)) [
  | inl same ↦ rw (slot-set_slot s k i u sh r, same) fit
  | inr other ↦ rw (slot-set_slot s k i u sh r, other) (old i ri)
]

-- Where CreateAccount and UpdateAccount write.
pub create_account_write :
    (name password : Bytes) (p : ℕ) (enabled : Bool) (s s' : State) (i : ℕ)
    → create_account name password p enabled s ≡ (s', ok i)
    → InRange i × (s' ≡ set_slot s i (new_slot name password p enabled))
create_account_write name password p enabled s s' i e =
    go (create_account name password p enabled s) (create_account_outcome name password p enabled s)
      e
  where
    go :
        (r : State × Result BmcError ℕ)
        → CreateOutcome name password p enabled s r
        → r ≡ (s', ok i)
        → InRange i × (s' ≡ set_slot s i (new_slot name password p enabled))
    go _ (refused_empty _) e = cc
    go _ (refused_taken _ _) e = cc
    go _ (refused_full _ _ _) e = cc
    go _ (created k _ _ lo hi _ _) e =
        let same : k ≡ i = cc in
        (
          (omega arith, omega arith),
          rw (← same) (sym (ap (λ (q : State × Result BmcError ℕ). q.0) e)),
        )

pub update_account_write :
    (id : ℕ) (u : AccountUpdate) (s s' : State)
    → update_account id u s ≡ (s', none)
    → InRange id × (s' ≡ set_slot s id (write_fields u (slot s id)))
update_account_write id u s s' e = go (update_account id u s) (update_account_outcome id u s) e
  where
    go :
        (r : State × Option BmcError)
        → UpdateOutcome id u s r
        → r ≡ (s', none)
        → InRange id × (s' ≡ set_slot s id (write_fields u (slot s id)))
    go _ (refused_update _) e = cc
    go _ (updated r _ _ _) e = (r, sym (ap (λ (q : State × Option BmcError). q.0) e))

create-IsStored :
    (req : CreateAccountRequest) (s : State) (r : State × Reply ManagerAccount)
    → CreateReply req s r
    → IsStored s
    → IsStored r.0
create-IsStored req s _ (refused _ _ _ _) st = st
create-IsStored req s _ (made i p s' name pass role e) st =
    let w =
      create_account_write req.user_name req.password p (enabled_or_true req.enabled) s s' i e in
    let keep =
      create_account-IsWellFormed req.user_name req.password p (enabled_or_true req.enabled) s
        st.shape st.unique in
    record {
      shape = rw e at keep.0;
      unique = rw e at keep.1;
      fits = rw (w.1) (
          set_slot-Fits s i (new_slot req.user_name req.password p (enabled_or_true req.enabled))
            st.shape w.0
            (unfold new_slot in
              (user_name_fits req.user_name name, (password_fits req.password pass).1))
            st.fits);
    }

or_keep-fits :
    (n : ℕ) (p : Bytes → Bool) (new : Option Bytes) (old : Bytes)
    → ((bs : Bytes) → p bs ≡ true → length bs ≤ n)
    → valid_if_given p new ≡ true
    → length old ≤ n
    → length (or_keep new old) ≤ n
or_keep-fits n p none old bound valid fit = fit
or_keep-fits n p (some bs) old bound valid fit = bound bs valid

patch-IsStored :
    (id : ℕ) (req : PatchAccountRequest) (s : State) (r : State × Reply ManagerAccount)
    → PatchReply id req s r
    → IsStored s
    → IsStored r.0
patch-IsStored id req s _ (patch_refused _ _ _ _) st = st
patch-IsStored id req s _ (patched p s' name pass role e) st =
    let w = update_account_write id (patch_update req p) s s' e in
    let keep = update_account-IsWellFormed id (patch_update req p) s st.shape st.unique in
    let old = st.fits id w.0 in
    record {
      shape = rw e at keep.0;
      unique = rw e at keep.1;
      fits = rw (w.1) (
          set_slot-Fits s id (write_fields (patch_update req p) (slot s id)) st.shape w.0
            (unfold write_fields in
              (
                or_keep-fits max_user_name_length validate_user_name req.user_name (slot s id).name
                    user_name_fits name old.0,
                or_keep-fits max_password_length validate_password req.password (slot s id).password
                    (λ bs h. (password_fits bs h).1) pass old.1,
              ))
            st.fits);
    }

delete-IsStored : (id : ℕ) (s : State) → IsStored s → IsStored (delete_account id s).0
delete-IsStored id s st = elim (delete_account_cases id s) [
  | inl e ↦ rw e st
  | inr (r, named, e) ↦ rw e (record {
    shape = set_slot-HasShape s id free_slot st.shape;
    unique = set_slot-HasUniqueNames s id free_slot st.shape r (λ j rj ne e. refl) st.unique;
    fits = set_slot-Fits s id free_slot st.shape r (omega arith, omega arith) st.fits;
  })
]

-- The requests that change accounts, and a history of them.
pub data AccountCall : Type 0 where
  post_account : Option CreateAccountRequest → AccountCall
  patch_account_at : Bytes → Option PatchAccountRequest → AccountCall
  delete_account_at : Bytes → AccountCall

unfoldable pub serve_account : AccountCall → State → State × Reply ManagerAccount
serve_account (post_account body) s = handle_create_account body s
serve_account (patch_account_at id body) s = handle_patch_account id body s
serve_account (delete_account_at id) s = handle_delete_account id s

abbrev pub run_account_calls : List AccountCall → State → State
run_account_calls [] s = s
run_account_calls (c ∷ cs) s = run_account_calls cs (serve_account c s).0

serve_account-IsStored : (c : AccountCall) (s : State) → IsStored s → IsStored (serve_account c s).0
unfolding serve_account handle_create_account handle_patch_account handle_delete_account
serve_account-IsStored (post_account none) s st = st
serve_account-IsStored (post_account (some req)) s st =
    create-IsStored req s _ (handle_create_account_outcome req s) st
serve_account-IsStored (patch_account_at id body) s st =
    elim (Option-cases (account_id_from_request id)) [
      | inl bad ↦ rw (handle_patch_account, bad) st
      | inr (n, good) ↦ elim (Option-cases body) [
        | inl malformed ↦ rw (handle_patch_account, good, malformed) st
        | inr (req, e) ↦
            rw (handle_patch_account, good, e)
              (patch-IsStored n req s _ (patch_account_outcome n req s) st)
      ]
    ]
serve_account-IsStored (delete_account_at id) s st =
    elim (Option-cases (account_id_from_request id)) [
      | inl bad ↦ rw (handle_delete_account, bad) st
      | inr (n, good) ↦ elim (Option-cases (delete_account n s).1) [
        | inl done ↦ rw (handle_delete_account, good, done) (delete-IsStored n s st)
        | inr (x, e) ↦ rw (handle_delete_account, good, e) (delete-IsStored n s st)
      ]
    ]

-- From a user table of the right shape with unique names of at most 16 bytes and passwords of at
-- most 20, every sequence of account requests leads to one.
pub run_account_calls-IsStored :
    (cs : List AccountCall) (s : State) → IsStored s → IsStored (run_account_calls cs s)
run_account_calls-IsStored [] s st = st
run_account_calls-IsStored (c ∷ cs) s st =
    run_account_calls-IsStored cs (serve_account c s).0 (serve_account-IsStored c s st)
