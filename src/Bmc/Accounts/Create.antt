-- ===== src/Bmc/Accounts/Create.antt =====
-- CreateAccount, branch by branch, and what an account that it made can do.
use qemu_bmc.Base.{
  Result, ok, err, ℕ, ◌≤◌, ◌<◌, ◌≡◌, ◌≢◌, sym, Bytes, Bool, true, false, [], none, some, arith,
  Bool-cases, Option-cases, inl, inr, bytes_eq, bytes_eq_refl, bytes_eq→eq, bytes_eq_iff, ◌∙◌, ap,
}
use qemu_bmc.Bmc.State.{
  State, UserSlot, BmcError, empty_name, user_exists, no_free_slot, slot, set_slot, max_users,
}
use qemu_bmc.Bmc.Slots.{first_slot, first_slot-some, first_slot-none, first_slot_hit, IsFirst}
use qemu_bmc.Bmc.Users.{lookup_user_by_name_locked}
use qemu_bmc.Bmc.Accounts.{create_account, new_slot, authenticate}
use qemu_bmc.Bmc.Invariant.{
  HasShape, HasUniqueNames, InRange, slot-set_slot_self, slot-set_slot_ne, set_slot-HasShape,
  set_slot-HasUniqueNames,
}

-- Some slot, or no slot, has the name.
abbrev pub IsTaken : State → Bytes → Type 0
IsTaken s name = (k : ℕ) × InRange k × ((slot s k).name ≡ name)

abbrev pub IsUnused : State → Bytes → Type 0
IsUnused s name = (k : ℕ) → InRange k → (slot s k).name ≢ name

-- The four ways in which CreateAccount may end, with what holds in each.
pub data CreateOutcome (name password : Bytes) (privilege : ℕ) (enabled : Bool) (s : State)
    : State × Result BmcError ℕ → Type 0 where
  refused_empty : name ≡ [] → CreateOutcome name password privilege enabled s (s, err empty_name)
  refused_taken :
      name ≢ []
      → IsTaken s name
      → CreateOutcome name password privilege enabled s (s, err user_exists)
  refused_full :
      name ≢ []
      → IsUnused s name
      → ((k : ℕ) → 2 ≤ k → k ≤ max_users → (slot s k).name ≢ [])
      → CreateOutcome name password privilege enabled s (s, err no_free_slot)
  created :
      (i : ℕ)
      → name ≢ []
      → IsUnused s name
      → 2 ≤ i
      → i ≤ max_users
      → (slot s i).name ≡ []
      → ((k : ℕ) → 2 ≤ k → k < i → (slot s k).name ≢ [])
      → CreateOutcome name password privilege enabled s
          (set_slot s i (new_slot name password privilege enabled), ok i)

pub bytes_ne : (xs ys : Bytes) → bytes_eq xs ys ≡ false → xs ≢ ys
bytes_ne xs ys h e = cc (h, (bytes_eq_iff xs ys).1 e)

pub lookup-IsTaken :
    (s : State) (name : Bytes) {k : ℕ} → lookup_user_by_name_locked s name ≡ some k → IsTaken s name
unfolding lookup_user_by_name_locked
lookup-IsTaken s name {k} e =
    let f = first_slot-some (λ u. bytes_eq u.name name) max_users 1 s.users e in
    (k, (f.from, omega (arith, f.below)), bytes_eq→eq _ _ f.passes)

pub lookup-IsUnused :
    (s : State) (name : Bytes) → lookup_user_by_name_locked s name ≡ none → IsUnused s name
unfolding lookup_user_by_name_locked
lookup-IsUnused s name e k r =
    bytes_ne _ _
      (first_slot-none (λ u. bytes_eq u.name name) max_users 1 s.users e k r.0 (omega arith))

-- CreateAccount refuses an empty name, a name in use and a full table, in that order and without
-- a change; otherwise it writes the new account to the lowest free slot from 2 on.
pub create_account_outcome :
    (name password : Bytes) (privilege : ℕ) (enabled : Bool) (s : State)
    → CreateOutcome name password privilege enabled s
        (create_account name password privilege enabled s)
unfolding create_account
create_account_outcome name password privilege enabled s = elim (Bool-cases (bytes_eq name [])) [
  | inl empty ↦ rw empty (refused_empty (bytes_eq→eq _ _ empty))
  | inr given ↦ elim (Option-cases (lookup_user_by_name_locked s name)) [
    | inr (k, taken) ↦
        rw (given, taken) (refused_taken (bytes_ne _ _ given) (lookup-IsTaken s name taken))
    | inl unused ↦ elim (Option-cases (first_slot (λ u. bytes_eq u.name []) 14 2 s.users)) [
      | inl full ↦
          rw (given, unused, full)
            (refused_full (bytes_ne _ _ given) (lookup-IsUnused s name unused)
              (λ k lo hi. bytes_ne _ _ (first_slot-none _ 14 2 s.users full k lo (omega arith))))
      | inr (i, found) ↦
          let f : IsFirst (λ u. bytes_eq u.name []) 14 2 s.users i =
            first_slot-some _ 14 2 s.users found in
          rw (given, unused, found)
            (created i (bytes_ne _ _ given) (lookup-IsUnused s name unused) f.from
              (omega (arith, f.below)) (bytes_eq→eq _ _ f.passes)
              (λ k lo hi. bytes_ne _ _ (f.least k lo hi)))
    ]
  ]
]

-- CreateAccount keeps the shape of the state and keeps names unique.
pub create_account-IsWellFormed :
    (name password : Bytes) (privilege : ℕ) (enabled : Bool) (s : State)
    → HasShape s
    → HasUniqueNames s
    → let s' = (create_account name password privilege enabled s).0 in
      HasShape s' × HasUniqueNames s'
create_account-IsWellFormed name password privilege enabled s sh uniq =
    go (create_account name password privilege enabled s)
      (create_account_outcome name password privilege enabled s)
  where
    go :
        (r : State × Result BmcError ℕ)
        → CreateOutcome name password privilege enabled s r
        → HasShape r.0 × HasUniqueNames r.0
    go _ (refused_empty _) = (sh, uniq)
    go _ (refused_taken _ _) = (sh, uniq)
    go _ (refused_full _ _ _) = (sh, uniq)
    go _ (created i _ unused lo hi _ _) = (
      set_slot-HasShape s i _ sh,
      unfold new_slot in
          set_slot-HasUniqueNames s i _ sh (omega arith, hi) (λ j rj ne e. absurd (unused j rj e))
            uniq,
    )

pub bytes_eq-false : (xs ys : Bytes) → xs ≢ ys → bytes_eq xs ys ≡ false
bytes_eq-false xs ys ne = elim (Bool-cases (bytes_eq xs ys)) [
  | inl same ↦ absurd (ne (bytes_eq→eq xs ys same))
  | inr other ↦ other
]

-- A name that no other slot has is found at the slot that it is written to.
lookup-set_slot :
    (s : State) (i : ℕ) (u : UserSlot)
    → HasShape s
    → InRange i
    → IsUnused s u.name
    → lookup_user_by_name_locked (set_slot s i u) u.name ≡ some i
unfolding lookup_user_by_name_locked
lookup-set_slot s i u sh r unused =
    first_slot_hit (λ v. bytes_eq v.name u.name) max_users 1 i (set_slot s i u).users r.0
      (omega arith) (rw (slot-set_slot_self s i u sh r) (bytes_eq_refl u.name))
      (λ j lo hi.
        rw (slot-set_slot_ne s i j u (omega arith))
          (bytes_eq-false _ _ (unused j (lo, omega arith))))

-- With the slot known, Authenticate compares the password there.
authenticate_at :
    (s : State) (name attempt : Bytes) (i : ℕ)
    → name ≢ []
    → lookup_user_by_name_locked s name ≡ some i
    → (slot s i).access.enabled ≡ true
    → (slot s i).password ≢ []
    → authenticate s name attempt ≡ bytes_eq (slot s i).password attempt
unfolding authenticate
authenticate_at s name attempt i given found on secret =
    rw (bytes_eq-false name [] given, found, on, bytes_eq-false _ [] secret)

authenticate_new :
    (name password attempt : Bytes) (privilege : ℕ) (s : State) (i : ℕ)
    → HasShape s
    → InRange i
    → name ≢ []
    → password ≢ []
    → IsUnused s name
    → authenticate (set_slot s i (new_slot name password privilege true)) name attempt
      ≡ bytes_eq password attempt
unfolding new_slot
authenticate_new name password attempt privilege s i sh r given secret unused =
    let u : UserSlot = new_slot name password privilege true in
    let at : slot (set_slot s i u) i ≡ u = slot-set_slot_self s i u sh r in
    authenticate_at (set_slot s i u) name attempt i given (lookup-set_slot s i u sh r unused)
      (rw at) (rw at secret)
    ∙ rw at

-- Right after an enabled account is made with a password, its name authenticates with exactly
-- that password.
pub authenticate-create_account :
    (name password attempt : Bytes) (privilege : ℕ) (s s' : State) (i : ℕ)
    → HasShape s
    → password ≢ []
    → create_account name password privilege true s ≡ (s', ok i)
    → authenticate s' name attempt ≡ bytes_eq password attempt
authenticate-create_account name password attempt privilege s s' i sh given e =
    go (create_account name password privilege true s)
      (create_account_outcome name password privilege true s) e
  where
    go :
        (r : State × Result BmcError ℕ)
        → CreateOutcome name password privilege true s r
        → r ≡ (s', ok i)
        → authenticate s' name attempt ≡ bytes_eq password attempt
    go _ (refused_empty _) p = cc
    go _ (refused_taken _ _) p = cc
    go _ (refused_full _ _ _) p = cc
    go _ (created k named unused lo hi _ _) p =
        rw (sym (ap (λ (q : State × Result BmcError ℕ). q.0) p)) (
          authenticate_new name password attempt privilege s k sh (omega arith, hi) named given
            unused)
