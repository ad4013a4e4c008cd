-- ===== src/Base/Decimal.antt =====
-- strconv on unsigned numbers, as the Redfish handlers use it: Itoa and ParseUint in base 10.
use Prim.Native.Char.{code}
use Prim.Native.String.{String, [] as []ₛ, ◌∷◌ as ◌∷ₛ◌}
use Prim.Native.Nat.{ℕ, zero, suc, ◌+◌, ◌-◌, ◌*◌, ◌/◌, ◌%◌, ◌≤◌, ◌<◌}
use mathlib.Core.Path.{◌≡◌, refl}
use mathlib.Core.Logic.{◌≢◌, inl, inr}
use mathlib.Core.Bool.{◌&&◌}
use mathlib.Core.List.{[], ◌∷◌, ◌++◌}
use mathlib.Core.Option.{Option, none, some}
use native.Mathlib.Omega.{arith}
use qemu_bmc.Base.Tests.{Bool-cases, ltb, leb, if◌then◌else◌}
use qemu_bmc.Base.Words.{Bytes}

-- The bytes of a string of ASCII characters.
abbrev pub ascii : String → Bytes
ascii []ₛ = []
ascii (c ∷ₛ s) = code c ∷ ascii s

abbrev pub digit : ℕ → ℕ
digit d = 48 + d

-- The digits of a number, with a round for each of them.
unfoldable pub itoa_rounds : ℕ → ℕ → Bytes
itoa_rounds zero n = []
itoa_rounds (suc k) n =
    let front = itoa_rounds k (n / 10) in
    if ltb n 10 then digit n ∷ [] else front ++ digit (n % 10) ∷ []

-- A number has fewer digits than it is large, but for zero.
unfoldable pub itoa : ℕ → Bytes
itoa n = itoa_rounds (suc n) n

-- The number that a text of digits goes on with, behind those read already.
unfoldable pub parse_digits : ℕ → Bytes → Option ℕ
parse_digits acc [] = some acc
parse_digits acc (c ∷ cs) =
    let rest = parse_digits (acc * 10 + (c - 48)) cs in if leb 48 c && leb c 57 then rest else none

-- ParseUint(s, 10, 8): an empty text, a byte that is no digit and a number above 255 are errors.
unfoldable pub parse_uint8 : Bytes → Option ℕ
parse_uint8 [] = none
parse_uint8 (c ∷ cs) = elim (parse_digits 0 (c ∷ cs)) [
  | none ↦ none
  | some n ↦ if leb n 255 then some n else none
]

-- One more digit at the end.
parse_digits-append :
    (acc n d : ℕ) (xs : Bytes)
    → parse_digits acc xs ≡ some n
    → d < 10
    → parse_digits acc (xs ++ digit d ∷ []) ≡ some (n * 10 + d)
unfolding parse_digits
parse_digits-append acc n d [] e lt = ground arith
parse_digits-append acc n d (x ∷ xs) e lt =
    ground (arith, parse_digits-append (acc * 10 + (x - 48)) n d xs)

parse-itoa_rounds : (k n : ℕ) → n < k → parse_digits 0 (itoa_rounds k n) ≡ some n
unfolding parse_digits itoa_rounds
parse-itoa_rounds zero n lt = absurd (omega arith)
parse-itoa_rounds (suc k) n lt = ground (
  arith,
  parse-itoa_rounds k (n / 10),
  parse_digits-append 0 (n / 10) (n % 10) (itoa_rounds k (n / 10)),
)

pub parse_digits-itoa : (n : ℕ) → parse_digits 0 (itoa n) ≡ some n
unfolding itoa
parse_digits-itoa n = parse-itoa_rounds (suc n) n (omega arith)

-- A number that has digits has a first one.
parse_uint8-some :
    (n : ℕ) (bs : Bytes) → bs ≢ [] → n ≤ 255 → parse_digits 0 bs ≡ some n → parse_uint8 bs ≡ some n
unfolding parse_uint8
parse_uint8-some n [] given small e = absurd (given refl)
parse_uint8-some n (c ∷ cs) given small e = ground arith

itoa_rounds_given : (k n : ℕ) → itoa_rounds (suc k) n ≢ []
unfolding itoa_rounds
itoa_rounds_given k n = elim (Bool-cases (ltb n 10)) [
  | inl one ↦ rw (one) (λ e. cc)
  | inr more ↦ rw (more) (append_given (itoa_rounds k (n / 10)) _)
]
  where
    append_given : (xs : Bytes) (y : ℕ) → (xs ++ y ∷ []) ≢ []
    append_given [] y e = cc
    append_given (x ∷ xs) y e = cc

-- The decimal text of a number up to 255 is read as that number.
pub parse_uint8-itoa : (n : ℕ) → n ≤ 255 → parse_uint8 (itoa n) ≡ some n
unfolding itoa
parse_uint8-itoa n small =
    parse_uint8-some n (itoa n) (itoa_rounds_given n n) small (parse_digits-itoa n)

-- Itoa gives different numbers different texts.
pub itoa_injective : (m n : ℕ) → itoa m ≡ itoa n → m ≡ n
itoa_injective m n e = grind (arith, parse_digits-itoa m, parse_digits-itoa n, e)
