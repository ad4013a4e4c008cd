-- ===== src/Qemu/Boot/Override.antt =====
-- The loop of ApplyBootOverride.
use Prim.Native.String.{String}
use text.Mathlib.Text.{◌==◌ as str_eq}
use qemu_bmc.Base.{
  ◌≡◌, refl, ap, false, List, [], ◌∷◌, All, length, arith, Bool-cases, inl, inr, if◌then◌else◌,
}
use qemu_bmc.Qemu.Boot.{replace_boot}

-- The values that QEMU reads behind -boot flags.
pub boot_values : List String → List String
boot_values [] = []
boot_values (a ∷ []) = []
boot_values (a ∷ b ∷ rest) =
    let skipped = boot_values rest in
    let next = boot_values (b ∷ rest) in if str_eq a "-boot" then b ∷ skipped else next

boot_values-skip :
    (a : String) (xs : List String)
    → str_eq a "-boot" ≡ false
    → boot_values (a ∷ xs) ≡ boot_values xs
unfolding boot_values
boot_values-skip a [] h = refl
boot_values-skip a (x ∷ xs) h = rw h refl

-- The loop sets the value behind every -boot flag to the one asked for and keeps the number of
-- arguments; when it reports that it replaced none, there was no value behind a -boot flag, and the
-- arguments are as before.
pub replace_boot_lem :
    (val : String) (args : List String)
    → let (out, replaced) = replace_boot val args in
      All (λ v. v ≡ val) (boot_values out)
      × (length out ≡ length args)
      × (replaced ≡ false → (out ≡ args) × (boot_values args ≡ []))
unfolding replace_boot boot_values
replace_boot_lem val [] = (tt, refl, λ h. (refl, refl))
replace_boot_lem val (a ∷ []) = (tt, refl, λ h. (refl, refl))
replace_boot_lem val (a ∷ b ∷ rest) =
    let (all_skipped, len_skipped, _) = replace_boot_lem val rest in
    let (all_kept, len_kept, same) = replace_boot_lem val (b ∷ rest) in
    elim (Bool-cases (str_eq a "-boot")) [
      | inl boot ↦
          rw (replace_boot, boot) ((refl, all_skipped), omega (arith, len_skipped), λ h. absurd cc)
      | inr other ↦
          rw (replace_boot, other)
            (
              rw (boot_values-skip a (replace_boot val (b ∷ rest)).0 other) all_kept,
              omega (arith, len_kept),
              λ h. (ap (λ (t : List String). a ∷ t) (same h).0, (same h).1),
            )
    ]
