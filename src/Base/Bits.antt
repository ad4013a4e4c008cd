-- ===== src/Base/Bits.antt =====
-- The masks of the wire formats as arithmetic on one byte. Each is a table of 256 entries at most,
-- checked by evaluation.
use Prim.Native.Nat.{ℕ, zero, suc, ◌+◌, ◌*◌, ◌/◌, ◌%◌, ◌<◌, bit_or}
use mathlib.Core.Path.{◌≡◌, refl}
use mathlib.Core.Bool.{Bool, true, false}
use mathlib.Core.Logic.{inl, inr}
use native.Mathlib.Omega.{arith}
use qemu_bmc.Base.Tests.{◌==◌, ==_iff, Bool-cases, if◌then◌else◌}

-- Whether two functions agree on all numbers below a bound.
unfoldable pub agree : (f g : ℕ → ℕ) (bound : ℕ) → Bool
agree f g zero = true
agree f g (suc bound) = let below = agree f g bound in if f bound == g bound then below else false

pub agree_below :
    (bound : ℕ) (f g : ℕ → ℕ) → agree f g bound ≡ true → (x : ℕ) → x < bound → f x ≡ g x
unfolding agree
agree_below zero f g all x lt = absurd (omega arith)
agree_below (suc bound) f g all x lt = elim (Bool-cases (f bound == g bound)) [
  | inl same ↦ elim (Bool-cases (x == bound)) [
    | inl top ↦ rw ((==_iff x bound).0 top) ((==_iff _ _).0 same)
    | inr under ↦ agree_below bound f g (ground (arith, same, all)) x (ground (arith, under, lt))
  ]
  | inr differ ↦ absurd (ground (arith, differ, all))
]

-- Setting a bit above all bits that are set adds it.
pub or_0x10 : (x : ℕ) → x < 16 → bit_or x 0x10 ≡ x + 16
unfolding agree
or_0x10 = agree_below 16 _ _ refl

pub or_0x20 : (x : ℕ) → x < 32 → bit_or x 0x20 ≡ x + 32
unfolding agree
or_0x20 = agree_below 32 _ _ refl

pub or_0x40 : (x : ℕ) → x < 64 → bit_or x 0x40 ≡ x + 64
unfolding agree
or_0x40 = agree_below 64 _ _ refl

pub or_0x80 : (x : ℕ) → x < 128 → bit_or x 0x80 ≡ x + 128
unfolding agree
or_0x80 = agree_below 128 _ _ refl

-- The response bit of a network function.
pub or_0x01 : (x : ℕ) → x < 256 → bit_or x 0x01 ≡ x / 2 * 2 + 1
unfolding agree
or_0x01 = agree_below 256 _ _ refl

or_low_two : (v : ℕ) → v < 256 → bit_or (v / 4 * 4) (v % 4) ≡ v
unfolding agree
or_low_two = agree_below 256 _ _ refl

-- A network function above the two bits of the unit number.
pub or_lun : (x lun : ℕ) → x < 64 → lun < 4 → bit_or (x * 4) lun ≡ x * 4 + lun
or_lun x lun hx hl =
    let top : (x * 4 + lun) / 4 * 4 ≡ x * 4 = omega arith in
    let low : (x * 4 + lun) % 4 ≡ lun = omega arith in
    rw (top, low) at (or_low_two (x * 4 + lun) (omega arith))
