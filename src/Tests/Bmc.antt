-- ===== src/Tests/Bmc.antt =====
-- The account methods on the default state.
use qemu_bmc.Base.{ℕ, ◌≡◌, ◌≢◌, refl, ◌⊎◌, Bytes, true, [], ◌∷◌, none, some, arith, bytes_eq}
use qemu_bmc.Bmc.Accounts.{account, create_account, update_account, authenticate}
use qemu_bmc.Bmc.Accounts.Create.{
  CreateOutcome, create_account_outcome, authenticate-create_account,
}
use qemu_bmc.Bmc.Accounts.Update.{update_account_atomic, IsUpdated}
use qemu_bmc.Bmc.Invariant.{HasUniqueNames, new_state-IsWellFormed}
use qemu_bmc.Bmc.State.{State, Account, AccountUpdate, new_state, slot}
use qemu_bmc.Bmc.Slots.{first_slot}
use qemu_bmc.Bmc.Users.{set_user_name, lookup_user_by_name_locked}
use qemu_bmc.Bmc.Users.Passwords.{set_user_name_duplicates}
use qemu_bmc.Tests.Fixtures.{admin, secret, bmc}

abbrev eve : Bytes
eve = 101 ∷ 118 ∷ 101 ∷ []

-- The default account under a new name.
abbrev renamed : AccountUpdate
renamed = record { name = some eve; password = none; privilege = some 3; enabled = none }

abbrev with_eve : State
with_eve = (create_account eve secret 3 true bmc).0

create_account_outcome_example :
    CreateOutcome eve secret 3 true bmc (create_account eve secret 3 true bmc)
create_account_outcome_example = create_account_outcome eve secret 3 true bmc

authenticate-create_account_example : authenticate with_eve eve admin ≡ bytes_eq secret admin
unfolding create_account bytes_eq lookup_user_by_name_locked first_slot new_state
authenticate-create_account_example =
    authenticate-create_account eve secret admin 3 bmc with_eve 3
      (new_state-IsWellFormed admin secret).0 (λ e. cc) refl

update_account_atomic_example :
    let (s', e) = update_account 2 renamed bmc in
    ((e ≢ none) × (s' ≡ bmc))
    ⊎ ((e ≡ none)
        × ((a : Account) × (account s' 2 ≡ some a) × IsUpdated 2 renamed (slot bmc 2) (slot s' 2) a)
        × ((j : ℕ) → j ≢ 2 → slot s' j ≡ slot bmc j))
update_account_atomic_example =
    update_account_atomic 2 renamed bmc (new_state-IsWellFormed admin secret).0

set_user_name_duplicates_example :
    ¬ HasUniqueNames (set_user_name 5 eve (set_user_name 4 eve bmc).0).0
set_user_name_duplicates_example =
    set_user_name_duplicates bmc 4 5 eve (new_state-IsWellFormed admin secret).0
      (omega arith, omega arith) (omega arith, omega arith) (omega arith) (λ e. cc)
