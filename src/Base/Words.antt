-- ===== src/Base/Words.antt =====
-- Byte strings: lists of numbers below 256, the little-endian words that encoding/binary writes,
-- and the checksum sums. A Go string is the list of its bytes.
use Prim.Native.Nat.{ℕ, ◌+◌, ◌-◌, ◌*◌, ◌/◌, ◌%◌, ◌^◌, ◌<◌}
use mathlib.Core.Path.{◌≡◌, refl}
use mathlib.Core.Logic.{◌↔◌}
use mathlib.Core.Bool.{Bool, true, false, ◌&&◌}
use mathlib.Core.List.{List, [], ◌∷◌, ◌++◌}
use mathlib.Core.Option.{Option, none, some}
use native.Mathlib.Omega.{arith}
use qemu_bmc.Base.Tests.{◌==◌, if◌then◌else◌}
use qemu_bmc.Base.Lists.{get_or, All}

abbrev pub Bytes : Type 0
Bytes = List ℕ

abbrev pub IsByte : ℕ → Type 0
IsByte b = b < 256

abbrev pub AreBytes : Bytes → Type 0
AreBytes = All IsByte

-- `b[i]` on a slice, behind a length check of the code.
abbrev pub byte_at : Bytes → ℕ → ℕ
byte_at bs i = get_or bs i 0

-- `==` on Go strings, bytes.Equal, hmac.Equal and subtle.ConstantTimeCompare.
unfoldable pub bytes_eq : Bytes → Bytes → Bool
bytes_eq [] [] = true
bytes_eq [] (y ∷ ys) = false
bytes_eq (x ∷ xs) [] = false
bytes_eq (x ∷ xs) (y ∷ ys) = x == y && bytes_eq xs ys

pub bytes_eq_refl : (xs : Bytes) → bytes_eq xs xs ≡ true
unfolding bytes_eq
bytes_eq_refl [] = refl
bytes_eq_refl (x ∷ xs) = ground (arith, bytes_eq_refl xs)

pub bytes_eq→eq : (xs ys : Bytes) → bytes_eq xs ys ≡ true → xs ≡ ys
unfolding bytes_eq
bytes_eq→eq [] [] h = refl
bytes_eq→eq [] (y ∷ ys) h = cc
bytes_eq→eq (x ∷ xs) [] h = cc
bytes_eq→eq (x ∷ xs) (y ∷ ys) h = ground (arith, bytes_eq→eq xs ys)

pub bytes_eq_iff : (xs ys : Bytes) → (bytes_eq xs ys ≡ true) ↔ (xs ≡ ys)
bytes_eq_iff xs ys = (bytes_eq→eq xs ys, λ e. rw e (bytes_eq_refl ys))

-- `x & (2 ^ k - 1)` is `x % 2 ^ k`, `x >> k` is `x / 2 ^ k`, and `x & 2 ^ k != 0` is this test.
abbrev pub bit_set : ℕ → ℕ → Bool
bit_set x k = x / 2 ^ k % 2 == 1

-- `x << k` on a uint8.
abbrev pub shl8 : ℕ → ℕ → ℕ
shl8 x k = x * 2 ^ k % 256

-- `uint8(0x100 - (sum & 0xFF))`
abbrev pub negate8 : ℕ → ℕ
negate8 sum = (0x100 - sum % 256) % 256

-- binary.LittleEndian: two and four bytes of a number, lowest first.
abbrev pub le16 : ℕ → Bytes
le16 n = n % 256 ∷ n / 256 % 256 ∷ []

abbrev pub le32 : ℕ → Bytes
le32 n = n % 256 ∷ n / 256 % 256 ∷ n / 65536 % 256 ∷ n / 16777216 % 256 ∷ []

-- The number that four bytes from an index on stand for.
abbrev pub read_le16 : Bytes → ℕ → ℕ
read_le16 bs i = byte_at bs i + byte_at bs (i + 1) * 256

abbrev pub read_le32 : Bytes → ℕ → ℕ
read_le32 bs i =
    byte_at bs i
    + byte_at bs (i + 1) * 256
    + byte_at bs (i + 2) * 65536
    + byte_at bs (i + 3) * 16777216

abbrev pub IsU32 : ℕ → Type 0
IsU32 n = n < 2 ^ 32

-- `sum += uint32(b)` over a slice.
abbrev pub sum_bytes : ℕ → Bytes → ℕ
sum_bytes acc [] = acc
sum_bytes acc (b ∷ bs) = sum_bytes ((acc + b) % 2 ^ 32) bs

-- The plain sum, which the wrapping one equals as far as its lowest byte goes.
abbrev pub total : Bytes → ℕ
total [] = 0
total (b ∷ bs) = b + total bs

pub sum_bytes-total : (bs : Bytes) (acc : ℕ) → sum_bytes acc bs % 256 ≡ (acc + total bs) % 256
sum_bytes-total [] acc = omega arith
sum_bytes-total (b ∷ bs) acc = omega (arith, sum_bytes-total bs ((acc + b) % 2 ^ 32))

pub total-append : (xs ys : Bytes) → total (xs ++ ys) ≡ total xs + total ys
total-append [] ys = omega arith
total-append (x ∷ xs) ys = omega (arith, total-append xs ys)

-- A map with numbers for keys, as an association list whose first entry for a key counts.
module _ {ℓ} {V : Type ℓ} where
  unfoldable pub lookup : ℕ → List (ℕ × V) → Option V
  lookup key [] = none
  lookup key (entry ∷ rest) =
      let later = lookup key rest in if entry.0 == key then some entry.1 else later

  unfoldable pub insert : ℕ → V → List (ℕ × V) → List (ℕ × V)
  insert key value [] = (key, value) ∷ []
  insert key value (entry ∷ rest) =
      let later = insert key value rest in
      if entry.0 == key then (key, value) ∷ rest else entry ∷ later

  unfoldable pub erase : ℕ → List (ℕ × V) → List (ℕ × V)
  erase key [] = []
  erase key (entry ∷ rest) =
      let later = erase key rest in if entry.0 == key then later else entry ∷ later

  pub lookup-insert :
      (key asked : ℕ) (value : V) (entries : List (ℕ × V))
      → lookup asked (insert key value entries)
        ≡ (if key == asked then some value else lookup asked entries)
  unfolding lookup insert
  lookup-insert key asked value [] = refl
  lookup-insert key asked value (entry ∷ rest) = ground (arith, lookup-insert key asked value rest)

  pub lookup-erase :
      (key asked : ℕ) (entries : List (ℕ × V))
      → lookup asked (erase key entries) ≡ (if key == asked then none else lookup asked entries)
  unfolding lookup erase
  lookup-erase key asked [] = ground arith
  lookup-erase key asked (entry ∷ rest) = ground (arith, lookup-erase key asked rest)
