-- ===== src/Qemu/Boot.antt =====
-- ApplyBootOverride of internal/qemu/args.go and applyMedia of internal/qemu/process.go: what a
-- cold start changes in the arguments.
pub mod Override
use Prim.Native.String.{String}
use Prim.Native.String
use text.Mathlib.Text.{◌==◌ as str_eq}
use qemu_bmc.Base.{
  Bool, true, false, ◌&&◌, not, List, [], ◌∷◌, ◌++◌, Option, none, some, if◌then◌else◌,
}
use qemu_bmc.Qemu.Args.{contains}

-- bootTargetToQEMU; `none` is a missing key.
unfoldable pub boot_target_to_qemu : String → Option String
boot_target_to_qemu target =
    if str_eq target "Pxe"
    then some "n"
    else if str_eq target "Hdd"
    then some "c"
    else if str_eq target "Cd"
    then some "d"
    else if str_eq target "BiosSetup"
    then some "menu=on"
    else none

-- The loop: the arguments with the value of every -boot replaced, and whether there was one.
unfoldable pub replace_boot : String → List String → List String × Bool
replace_boot val [] = ([], false)
replace_boot val (a ∷ []) = (a ∷ [], false)
replace_boot val (a ∷ b ∷ rest) =
    let (skipped, _) = replace_boot val rest in
    let (kept, replaced) = replace_boot val (b ∷ rest) in
    if str_eq a "-boot" then ("-boot" ∷ val ∷ skipped, true) else (a ∷ kept, replaced)

unfoldable pub apply_boot_override : List String → String → List String
apply_boot_override args target = elim (boot_target_to_qemu target) [
  | none ↦ args
  | some val ↦
      let (result, replaced) = replace_boot val args in
      if not replaced then result ++ ("-boot" ∷ val ∷ []) else result
]

-- The first cdrom drive without a file gets the image; the loop ends there.
unfoldable pub attach_media : String → List String → List String
attach_media media [] = []
attach_media media (a ∷ rest) =
    let later = attach_media media rest in
    if contains a "media=cdrom" && not (contains a "file=")
    then String.◌++◌ a (String.◌++◌ ",file=" media) ∷ rest
    else a ∷ later

unfoldable pub apply_media : List String → String → List String
apply_media args media = if str_eq media "" then args else attach_media media args
