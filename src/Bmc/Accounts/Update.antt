-- ===== src/Bmc/Accounts/Update.antt =====
-- UpdateAccount and DeleteAccount: what they change, what they refuse, and that names stay unique.
use qemu_bmc.Base.{
  ℕ, ◌≡◌, ◌≢◌, refl, sym, Bytes, false, [], Option, none, some, arith, Bool-cases, Option-cases,
  inl, inr, ◌⊎◌, bytes_eq, bytes_eq_refl, bytes_eq→eq, ◌∙◌, ap,
}
use qemu_bmc.Bmc.State.{
  State, UserSlot, Account, AccountUpdate, BmcError, empty_name, user_exists, not_found, slot,
  set_slot, free_slot, validate_user_id,
}
use qemu_bmc.Bmc.Users.{lookup_user_by_name_locked}
use qemu_bmc.Bmc.Accounts.{
  update_account, delete_account, authenticate, account, account_locked, name_clash, write_fields,
  or_keep, is_empty_name,
}
use qemu_bmc.Bmc.Accounts.Create.{IsUnused, lookup-IsUnused, lookup-IsTaken, bytes_ne}
use qemu_bmc.Bmc.Invariant.{
  HasShape, HasUniqueNames, InRange, slot-set_slot, slot-set_slot_self, slot-set_slot_ne,
  set_slot-HasShape, set_slot-HasUniqueNames, validate_user_id_ok, validate_user_id→InRange,
}

-- The ways in which UpdateAccount may end.
pub data UpdateOutcome (id : ℕ) (u : AccountUpdate) (s : State)
    : State × Option BmcError → Type 0 where
  refused : (e : BmcError) → UpdateOutcome id u s (s, some e)
  updated :
      InRange id
      → (slot s id).name ≢ []
      → is_empty_name u.name ≡ false
      → name_clash s (slot s id) u.name ≡ false
      → UpdateOutcome id u s (set_slot s id (write_fields u (slot s id)), none)

pub update_account_outcome :
    (id : ℕ) (u : AccountUpdate) (s : State) → UpdateOutcome id u s (update_account id u s)
unfolding update_account
update_account_outcome id u s = elim (Option-cases (validate_user_id id)) [
  | inr (x, bad) ↦ rw (bad, update_account) (refused not_found)
  | inl good ↦ elim (Bool-cases (is_empty_name u.name)) [
    | inl empty ↦ rw (good, empty, update_account) (refused empty_name)
    | inr given ↦ elim (Bool-cases (bytes_eq (slot s id).name [])) [
      | inl free ↦ rw (good, given, free, update_account) (refused not_found)
      | inr used ↦ elim (Bool-cases (name_clash s (slot s id) u.name)) [
        | inl clash ↦ rw (good, given, used, clash, update_account) (refused user_exists)
        | inr fits ↦
            rw (good, given, used, fits, update_account)
              (updated (validate_user_id→InRange id good) (bytes_ne _ _ used) given fits)
      ]
    ]
  ]
]

-- A new name that does not clash is the old one, or no slot has it.
no_clash :
    (s : State) (id : ℕ) (name : Bytes)
    → name_clash s (slot s id) (some name) ≡ false
    → (name ≡ (slot s id).name) ⊎ IsUnused s name
unfolding name_clash
no_clash s id name h = elim (Bool-cases (bytes_eq name (slot s id).name)) [
  | inl same ↦ inl (bytes_eq→eq _ _ same)
  | inr other ↦ elim (Option-cases (lookup_user_by_name_locked s name)) [
    | inl unused ↦ inr (lookup-IsUnused s name unused)
    | inr (k, taken) ↦ ground arith
  ]
]

fresh_name :
    (s : State) (id : ℕ) (n : Option Bytes)
    → HasUniqueNames s
    → InRange id
    → (slot s id).name ≢ []
    → name_clash s (slot s id) n ≡ false
    → (j : ℕ) → InRange j
    → j ≢ id
    → (slot s j).name ≡ or_keep n (slot s id).name
    → or_keep n (slot s id).name ≡ []
fresh_name s id none uniq r named h j rj ne e =
    absurd (ne (uniq j id rj r e (λ z. named (sym e ∙ z))))
fresh_name s id (some name) uniq r named h j rj ne e = elim (no_clash s id name h) [
  | inl same ↦ absurd (ne (uniq j id rj r (e ∙ same) (λ z. named (sym (e ∙ same) ∙ z))))
  | inr unused ↦ absurd (unused j rj e)
]

-- UpdateAccount keeps the shape of the state and keeps names unique.
pub update_account-IsWellFormed :
    (id : ℕ) (u : AccountUpdate) (s : State)
    → HasShape s
    → HasUniqueNames s
    → let s' = (update_account id u s).0 in HasShape s' × HasUniqueNames s'
update_account-IsWellFormed id u s sh uniq =
    go (update_account id u s) (update_account_outcome id u s)
  where
    go : (r : State × Option BmcError) → UpdateOutcome id u s r → HasShape r.0 × HasUniqueNames r.0
    go _ (refused _) = (sh, uniq)
    go _ (updated r named given fits) = (
      set_slot-HasShape s id _ sh,
      unfold write_fields in
          set_slot-HasUniqueNames s id _ sh r (fresh_name s id u.name uniq r named fits) uniq,
    )

-- A field after an update: the given value, or the old one where none is given.
abbrev pub Becomes : {A : Type 0} → Option A → A → A → Type 0
Becomes none old new = new ≡ old
Becomes (some given) old new = new ≡ given

or_keep-Becomes : {A : Type 0} (given : Option A) (old : A) → Becomes given old (or_keep given old)
or_keep-Becomes none old = refl
or_keep-Becomes (some x) old = refl

-- The account that is shown, and the password behind it.
pub record IsUpdated (id : ℕ) (u : AccountUpdate) (old new : UserSlot) (shown : Account)
    : Type 0 where
  pub same_id : shown.id ≡ id
  pub name : Becomes u.name old.name shown.name
  pub privilege : Becomes u.privilege old.access.privilege_limit shown.privilege
  pub enabled : Becomes u.enabled old.access.enabled shown.enabled
  pub password : Becomes u.password old.password new.password

-- UpdateAccount is all or nothing: with an error the state is the old one; without it the account
-- shows each given name, privilege and enabled flag anew, a given password is the one stored, fields
-- that are not given stay, and every other slot is as it was.
pub update_account_atomic :
    (id : ℕ) (u : AccountUpdate) (s : State)
    → HasShape s
    → let (s', e) = update_account id u s in
      ((e ≢ none) × (s' ≡ s))
      ⊎ ((e ≡ none)
          × ((a : Account) × (account s' id ≡ some a) × IsUpdated id u (slot s id) (slot s' id) a)
          × ((j : ℕ) → j ≢ id → slot s' j ≡ slot s j))
update_account_atomic id u s sh = go (update_account id u s) (update_account_outcome id u s)
  where
    or_keep_named :
        (n : Option Bytes) (old : Bytes)
        → is_empty_name n ≡ false
        → old ≢ []
        → bytes_eq (or_keep n old) [] ≡ false
    or_keep_named none old h ne = elim (Bool-cases (bytes_eq old [])) [
      | inl same ↦ absurd (ne (bytes_eq→eq old [] same))
      | inr other ↦ other
    ]
    or_keep_named (some n) old h ne = h

    go :
        (r : State × Option BmcError)
        → UpdateOutcome id u s r
        → ((r.1 ≢ none) × (r.0 ≡ s))
          ⊎ ((r.1 ≡ none)
              × ((a : Account) × (account r.0 id ≡ some a)
                  × IsUpdated id u (slot s id) (slot r.0 id) a)
              × ((j : ℕ) → j ≢ id → slot r.0 j ≡ slot s j))
    go _ (refused e) = inl (λ p. cc, refl)
    go _ (updated r named given fits) = inr (
      refl,
      (
        record {
          id = id;
          name = or_keep u.name (slot s id).name;
          privilege = or_keep u.privilege (slot s id).access.privilege_limit;
          enabled = or_keep u.enabled (slot s id).access.enabled;
        },
        unfold account account_locked write_fields in
            rw (
              validate_user_id_ok id r,
              slot-set_slot_self s id (write_fields u (slot s id)) sh r,
              or_keep_named u.name (slot s id).name given named,
              account,
            ),
        record {
          same_id = refl;
          name = or_keep-Becomes u.name _;
          privilege = or_keep-Becomes u.privilege _;
          enabled = or_keep-Becomes u.enabled _;
          password =
              rw (slot-set_slot_self s id (write_fields u (slot s id)) sh r)
                (unfold write_fields in or_keep-Becomes u.password (slot s id).password);
        },
      ),
      λ j ne. slot-set_slot_ne s id j _ (λ p. ne (sym p)),
    )

-- DeleteAccount succeeds on a named slot in range alone.
pub delete_account_cases :
    (id : ℕ) (s : State)
    → ((delete_account id s ≡ (s, some not_found)))
      ⊎ (InRange id
          × ((slot s id).name ≢ [])
          × (delete_account id s ≡ (set_slot s id free_slot, none)))
unfolding delete_account
delete_account_cases id s = elim (Option-cases (validate_user_id id)) [
  | inr (x, bad) ↦ inl (rw (bad, delete_account))
  | inl good ↦ elim (Bool-cases (bytes_eq (slot s id).name [])) [
    | inl free ↦ inl (rw (good, free, delete_account))
    | inr used ↦
        inr (validate_user_id→InRange id good, bytes_ne _ _ used, rw (good, used, delete_account))
  ]
]

authenticate_unused :
    (s : State) (name attempt : Bytes) → IsUnused s name → authenticate s name attempt ≡ false
unfolding authenticate
authenticate_unused s name attempt unused = elim (Bool-cases (bytes_eq name [])) [
  | inl empty ↦ rw empty
  | inr given ↦ elim (Option-cases (lookup_user_by_name_locked s name)) [
    | inl missing ↦ rw (given, missing)
    | inr (k, found) ↦ let t = lookup-IsTaken s name found in absurd (unused t.0 t.1 t.2)
  ]
]

freed_name-IsUnused :
    (id : ℕ) (s : State)
    → HasShape s
    → HasUniqueNames s
    → InRange id
    → (slot s id).name ≢ []
    → IsUnused (set_slot s id free_slot) (slot s id).name
freed_name-IsUnused id s sh uniq r named k rk e =
    ground (arith, slot-set_slot s id k free_slot sh r, uniq k id rk r)

-- After DeleteAccount succeeds the slot is free, the deleted name authenticates with no password,
-- and names are still unique.
pub delete_account_revokes :
    (id : ℕ) (s : State) (attempt : Bytes)
    → HasShape s
    → HasUniqueNames s
    → (delete_account id s).1 ≡ none
    → let s' = (delete_account id s).0 in
      (account s' id ≡ none)
      × (authenticate s' (slot s id).name attempt ≡ false)
      × HasShape s'
      × HasUniqueNames s'
delete_account_revokes id s attempt sh uniq ok = elim (delete_account_cases id s) [
  | inl bad ↦ absurd (failed (sym ok ∙ ap (λ (q : State × Option BmcError). q.1) bad))
  | inr (r, named, good) ↦ rw good (
    unfold account in
        rw (
          validate_user_id_ok id r,
          slot-set_slot_self s id free_slot sh r,
          account,
          bytes_eq_refl [],
        ),
    authenticate_unused (set_slot s id free_slot) _ attempt
        (freed_name-IsUnused id s sh uniq r named),
    set_slot-HasShape s id _ sh,
    set_slot-HasUniqueNames s id _ sh r (λ j rj ne e. refl) uniq,
  )
]
  where
    failed : {e : BmcError} → none ≡ some e → ⊥
    failed p = cc
