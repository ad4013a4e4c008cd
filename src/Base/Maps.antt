-- ===== src/Base/Maps.antt =====
-- A Go map with strings as keys, as a list of entries of which the first for a key counts.
use mathlib.Core.Path.{◌≡◌, refl, sym, ◌∙◌}
use mathlib.Core.Logic.{inl, inr}
use mathlib.Core.Bool.{true, false}
use mathlib.Core.List.{List, [], ◌∷◌}
use mathlib.Core.Option.{Option, none, some}
use qemu_bmc.Base.Tests.{if◌then◌else◌, Bool-cases}
use qemu_bmc.Base.Words.{Bytes, bytes_eq, bytes_eq_iff, bytes_eq→eq}

abbrev pub Map : Type 0 → Type 0
Map V = List (Bytes × V)

abbrev pub or_else {ℓ} : {A : Type ℓ} → Option A → Option A → Option A
or_else (some a) b = some a
or_else none b = b

-- A text that equals a third one is not the text that differs from it.
bytes_eq-flip : (a b c : Bytes) → bytes_eq a c ≡ true → bytes_eq b c ≡ false → bytes_eq a b ≡ false
bytes_eq-flip a b c h n = elim (Bool-cases (bytes_eq a b)) [
  | inr other ↦ other
  | inl same ↦
      let p : b ≡ c = sym (bytes_eq→eq a b same) ∙ bytes_eq→eq a c h in
      let q : bytes_eq b c ≡ true = (bytes_eq_iff b c).1 p in cc
]

module _ {V : Type 0} where
  -- `m[key]`
  unfoldable pub get : Bytes → Map V → Option V
  get key [] = none
  get key ((k, v) ∷ m) = let rest = get key m in if bytes_eq key k then some v else rest

  -- `m[key] = value`, which keeps one entry for a key.
  unfoldable pub put : Bytes → V → Map V → Map V
  put key v [] = (key, v) ∷ []
  put key v ((k, w) ∷ m) =
      let rest = put key v m in if bytes_eq key k then (key, v) ∷ m else (k, w) ∷ rest

  -- delete(m, key)
  unfoldable pub remove : Bytes → Map V → Map V
  remove key [] = []
  remove key ((k, w) ∷ m) =
      let rest = remove key m in if bytes_eq key k then rest else (k, w) ∷ rest

  -- maps.Copy(into, from)
  unfoldable pub copy : Map V → Map V → Map V
  copy [] into = into
  copy ((k, v) ∷ from) into = put k v (copy from into)

  pub get-put :
      (key asked : Bytes) (v : V) (m : Map V)
      → get asked (put key v m) ≡ (if bytes_eq asked key then some v else get asked m)
  unfolding get put
  get-put key asked v [] = refl
  get-put key asked v ((k, w) ∷ m) = elim (Bool-cases (bytes_eq key k)) [
    | inl same ↦
        let e : key ≡ k = bytes_eq→eq key k same in
        elim (Bool-cases (bytes_eq asked key)) [
          | inl hit ↦ rw (same, hit)
          | inr miss ↦
              let other : bytes_eq asked k ≡ false = rw (← e) miss in rw (same, miss, other)
        ]
    | inr differ ↦ elim (Bool-cases (bytes_eq asked k)) [
      | inl here ↦ rw (differ, here, bytes_eq-flip asked key k here differ)
      | inr there ↦ rw (differ, there, get-put key asked v m)
    ]
  ]

  pub get-remove :
      (key asked : Bytes) (m : Map V)
      → get asked (remove key m) ≡ (if bytes_eq asked key then none else get asked m)
  unfolding get remove
  get-remove key asked [] = elim (Bool-cases (bytes_eq asked key)) [ inl e ↦ rw e | inr e ↦ rw e ]
  get-remove key asked ((k, w) ∷ m) = elim (Bool-cases (bytes_eq key k)) [
    | inl same ↦
        let e : key ≡ k = bytes_eq→eq key k same in
        elim (Bool-cases (bytes_eq asked key)) [
          | inl hit ↦ rw (same, get-remove key asked m, hit)
          | inr miss ↦
              let other : bytes_eq asked k ≡ false = rw (← e) miss in
              rw (same, get-remove key asked m, miss, other)
        ]
    | inr differ ↦ elim (Bool-cases (bytes_eq asked k)) [
      | inl here ↦ rw (differ, here, bytes_eq-flip asked key k here differ)
      | inr there ↦ rw (differ, there, get-remove key asked m)
    ]
  ]

  pub get-copy :
      (asked : Bytes) (from into : Map V)
      → get asked (copy from into) ≡ or_else (get asked from) (get asked into)
  unfolding get copy
  get-copy asked [] into = refl
  get-copy asked ((k, v) ∷ from) into = elim (Bool-cases (bytes_eq asked k)) [
    | inl here ↦ rw (get-put k asked v (copy from into), here)
    | inr there ↦ rw (get-put k asked v (copy from into), there) (get-copy asked from into)
  ]
