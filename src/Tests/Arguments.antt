-- ===== src/Tests/Arguments.antt =====
-- QEMU arguments of a user.
use Prim.Native.String.{String}
use qemu_bmc.Base.{◌≡◌, List, [], ◌∷◌, none}
use qemu_bmc.Qemu.Args.{validate_args}
use qemu_bmc.Qemu.Args.Validation.{Allowed, validate_args_iff}

abbrev args : List String
args = "-m" ∷ "4096" ∷ "-boot" ∷ "c" ∷ "-serial" ∷ []

validate_args_iff_example :
    (validate_args args ≡ none → Allowed args) × (Allowed args → validate_args args ≡ none)
validate_args_iff_example = validate_args_iff args
