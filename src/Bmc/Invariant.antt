-- ===== src/Bmc/Invariant.antt =====
-- What every reachable state of internal/bmc/state.go satisfies: the two arrays keep their 16
-- entries, and no two slots share a name other than the empty one.
use qemu_bmc.Base.{
  refl, Bytes, get_or, replicate, ◌∙◌, sym, suc, zero, ℕ, ◌≤◌, ◌≡◌, ◌≢◌, [], none, some, length,
  if◌then◌else◌, arith, ◌==◌, Bool-cases, get_or-set_self, get_or-set_ne, length-set, inl, inr,
}
use qemu_bmc.Bmc.State.{
  new_state, State, UserSlot, slot, set_slot, free_slot, validate_user_id, max_users, range_error,
}

pub record HasShape (s : State) : Type 0 where
  pub slots : length s.users ≡ 16
  pub channels : length s.channel_access ≡ 16

abbrev pub InRange : ℕ → Type 0
InRange id = (1 ≤ id) × (id ≤ max_users)

abbrev pub HasUniqueNames : State → Type 0
HasUniqueNames s =
    (i j : ℕ)
    → InRange i
    → InRange j
    → (slot s i).name ≡ (slot s j).name
    → (slot s i).name ≢ []
    → i ≡ j

-- validateUserID accepts the slots 1 to 15 and nothing else.
pub validate_user_id_ok : (id : ℕ) → InRange id → validate_user_id id ≡ none
unfolding validate_user_id
validate_user_id_ok id h = ground arith

pub validate_user_id_bad : (id : ℕ) → ¬ (InRange id) → validate_user_id id ≡ some range_error
unfolding validate_user_id
validate_user_id_bad id h = ground arith

pub validate_user_id→InRange : (id : ℕ) → validate_user_id id ≡ none → InRange id
unfolding validate_user_id
validate_user_id→InRange id h = ground arith

pub slot-set_slot :
    (s : State) (i j : ℕ) (u : UserSlot)
    → HasShape s
    → InRange i
    → slot (set_slot s i u) j ≡ (if i == j then u else slot s j)
slot-set_slot s i j u sh r = elim (Bool-cases (i == j)) [
  | inl same ↦
      let e : i ≡ j = ground arith in
      rw (same, ← e) (get_or-set_self s.users i u free_slot (omega (arith, sh.slots)))
  | inr other ↦ rw other (get_or-set_ne s.users i j u free_slot (ground arith))
]

pub slot-set_slot_self :
    (s : State) (i : ℕ) (u : UserSlot) → HasShape s → InRange i → slot (set_slot s i u) i ≡ u
slot-set_slot_self s i u sh r = get_or-set_self s.users i u free_slot (omega (arith, sh.slots))

pub slot-set_slot_ne :
    (s : State) (i j : ℕ) (u : UserSlot) → i ≢ j → slot (set_slot s i u) j ≡ slot s j
slot-set_slot_ne s i j u ne = get_or-set_ne s.users i j u free_slot ne

pub set_slot-HasShape : (s : State) (i : ℕ) (u : UserSlot) → HasShape s → HasShape (set_slot s i u)
set_slot-HasShape s i u sh = record {
  slots = rw (length-set s.users i u) sh.slots;
  channels = sh.channels;
}

-- A write keeps the names apart when the new name is empty or stands in no other slot.
pub set_slot-HasUniqueNames :
    (s : State) (k : ℕ) (u : UserSlot)
    → HasShape s
    → InRange k
    → ((j : ℕ) → InRange j → j ≢ k → (slot s j).name ≡ u.name → u.name ≡ [])
    → HasUniqueNames s
    → HasUniqueNames (set_slot s k u)
set_slot-HasUniqueNames s k u sh r fresh uniq i j ri rj e ne = ground (
  arith,
  slot-set_slot s k i u sh r,
  slot-set_slot s k j u sh r,
  fresh i ri,
  fresh j rj,
  uniq i j ri rj,
)

get_or-replicate : (n j : ℕ) → get_or (replicate n free_slot) j free_slot ≡ free_slot
get_or-replicate zero j = refl
get_or-replicate (suc n) zero = refl
get_or-replicate (suc n) (suc j) = get_or-replicate n j

-- NewState has the shape, and its one named slot leaves the names unique.
pub new_state-IsWellFormed :
    (user pass : Bytes) → HasShape (new_state user pass) × HasUniqueNames (new_state user pass)
unfolding new_state
new_state-IsWellFormed user pass =
    let blank : State = record (new_state user pass) { users = replicate 16 free_slot } in
    let u = slot (new_state user pass) 2 in
    let unnamed : HasUniqueNames blank =
      λ i j ri rj e named. absurd (named (rw (get_or-replicate 16 i) refl)) in
    (
      record { slots = refl; channels = refl },
      set_slot-HasUniqueNames blank 2 u (record { slots = refl; channels = refl })
          (omega arith, omega arith) (λ j r ne e. sym e ∙ rw (get_or-replicate 16 j) refl) unnamed,
    )
