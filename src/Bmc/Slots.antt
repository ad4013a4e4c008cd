-- ===== src/Bmc/Slots.antt =====
-- internal/bmc/state.go: the `for i := first; i <= maxUsers; i++` loops over the user slots. A loop
-- recurs on the rounds left.
use qemu_bmc.Base.{
  ℕ, zero, suc, ◌+◌, ◌%◌, ◌≤◌, ◌<◌, ◌≡◌, refl, Bool, true, false, List, Option, none, some, get_or,
  if◌then◌else◌, arith, Bool-cases, inl, inr, ◌⊎◌,
}
use qemu_bmc.Bmc.State.{UserSlot, free_slot}

-- The first slot that passes a test, from slot `i` on, within `n` slots.
unfoldable pub first_slot : (UserSlot → Bool) → ℕ → ℕ → List UserSlot → Option ℕ
first_slot p zero i us = none
first_slot p (suc n) i us =
    let rest = first_slot p n (i + 1) us in if p (get_or us i free_slot) then some i else rest

-- The slots that pass a test, counted in a uint8.
unfoldable pub count_slots : (UserSlot → Bool) → ℕ → ℕ → ℕ → List UserSlot → ℕ
count_slots p zero i count us = count
count_slots p (suc n) i count us =
    count_slots p n (i + 1) (if p (get_or us i free_slot) then (count + 1) % 256 else count) us

-- What the search found is in range, passes the test, and nothing below it does.
pub record IsFirst (p : UserSlot → Bool) (n i : ℕ) (us : List UserSlot) (k : ℕ) : Type 0 where
  pub from : i ≤ k
  pub below : k < i + n
  pub passes : p (get_or us k free_slot) ≡ true
  pub least : (j : ℕ) → i ≤ j → j < k → p (get_or us j free_slot) ≡ false

later-least :
    (p : UserSlot → Bool) (i k : ℕ) (us : List UserSlot)
    → p (get_or us i free_slot) ≡ false
    → ((j : ℕ) → i + 1 ≤ j → j < k → p (get_or us j free_slot) ≡ false)
    → (j : ℕ) → i ≤ j
    → j < k
    → p (get_or us j free_slot) ≡ false
later-least p i k us here later j lo hi = grind (arith, later j)

pub first_slot-some :
    (p : UserSlot → Bool) (n i : ℕ) (us : List UserSlot) {k : ℕ}
    → first_slot p n i us ≡ some k
    → IsFirst p n i us k
unfolding first_slot
first_slot-some p zero i us e = cc
first_slot-some p (suc n) i us {k} e = elim (Bool-cases (p (get_or us i free_slot))) [
  | inl hit ↦
      let same : i ≡ k = ground arith in
      record {
        from = omega arith;
        below = omega arith;
        passes = ground arith;
        least = λ j lo hi. absurd (omega arith);
      }
  | inr miss ↦
      let later : IsFirst p n (i + 1) us k = first_slot-some p n (i + 1) us (ground arith) in
      record {
        from = omega (arith, later.from);
        below = omega (arith, later.below);
        passes = later.passes;
        least = later-least p i k us miss later.least;
      }
]

-- A search that fails has seen every slot fail.
pub first_slot-none :
    (p : UserSlot → Bool) (n i : ℕ) (us : List UserSlot)
    → first_slot p n i us ≡ none
    → (j : ℕ) → i ≤ j
    → j < i + n
    → p (get_or us j free_slot) ≡ false
unfolding first_slot
first_slot-none p zero i us e j lo hi = absurd (omega arith)
first_slot-none p (suc n) i us e j lo hi = elim (Bool-cases (p (get_or us i free_slot))) [
  | inl hit ↦ ground arith
  | inr miss ↦
      later-least p i (i + suc n) us miss
        (λ m a b. first_slot-none p n (i + 1) us (ground arith) m a (omega arith)) j lo hi
]

-- The search finds a slot that passes and has no passing slot below it.
pub first_slot_hit :
    (p : UserSlot → Bool) (n i k : ℕ) (us : List UserSlot)
    → i ≤ k
    → k < i + n
    → p (get_or us k free_slot) ≡ true
    → ((j : ℕ) → i ≤ j → j < k → p (get_or us j free_slot) ≡ false)
    → first_slot p n i us ≡ some k
unfolding first_slot
first_slot_hit p zero i k us lo hi pass least = absurd (omega arith)
first_slot_hit p (suc n) i k us lo hi pass least = elim (Bool-cases (p (get_or us i free_slot))) [
  | inl hit ↦ elim (first_or_later i k lo) [
    | inl same ↦ rw hit (ap_some same)
    | inr later ↦ absurd (true_false hit (least i (omega arith) later))
  ]
  | inr miss ↦ elim (first_or_later i k lo) [
    | inl same ↦ absurd (true_false pass (rw (← same) miss))
    | inr later ↦ rw miss (
        first_slot_hit p n (i + 1) k us (omega arith) (omega arith) pass
          (λ j a b. least j (omega arith) b))
  ]
]
  where
    first_or_later : (a b : ℕ) → a ≤ b → (a ≡ b) ⊎ (a < b)
    first_or_later a b h = grind arith

    ap_some : {a b : ℕ} → a ≡ b → ◌≡◌ {A = Option ℕ} (some a) (some b)
    ap_some e = cc

    true_false : {b : Bool} → b ≡ true → b ≡ false → ⊥
    true_false e f = cc

-- The counter never passes the slots that it has seen.
pub count_slots-le :
    (p : UserSlot → Bool) (n i count : ℕ) (us : List UserSlot)
    → count_slots p n i count us ≤ count + n
unfolding count_slots
count_slots-le p zero i count us = omega arith
count_slots-le p (suc n) i count us =
    ground (
      arith,
      count_slots-le p n (i + 1) ((count + 1) % 256) us,
      count_slots-le p n (i + 1) count us,
    )

-- A search by a test that does not see the difference between two tables.
pub first_slot_same :
    (q : UserSlot → Bool) (n i : ℕ) (us vs : List UserSlot)
    → ((j : ℕ) → q (get_or us j free_slot) ≡ q (get_or vs j free_slot))
    → first_slot q n i us ≡ first_slot q n i vs
unfolding first_slot
first_slot_same q zero i us vs h = refl
first_slot_same q (suc n) i us vs h = rw (h i, first_slot_same q n (i + 1) us vs h)
