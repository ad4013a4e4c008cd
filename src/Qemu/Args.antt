-- ===== src/Qemu/Args.antt =====
-- internal/qemu/args.go: validation, defaults and the arguments that qemu-bmc adds itself.
pub mod Validation
pub mod Defaults
use Prim.Native.String.{String}
use Prim.Native.String
use text.Mathlib.Text.{◌==◌ as str_eq, find?, char_at?}
use qemu_bmc.Base.{
  ℕ, Bool, true, false, ◌||◌, ◌&&◌, not, List, [], ◌∷◌, ◌++◌, Option, none, some, if◌then◌else◌,
  Result, ok, err,
}

-- strings.Contains
abbrev pub contains : String → String → Bool
contains s t = elim (find? s t) [ none ↦ false | some i ↦ true ]

-- The elements of forbiddenArgs.
abbrev pub is_forbidden_arg : String → Bool
is_forbidden_arg arg = str_eq arg "-qmp" || str_eq arg "-daemonize"

-- forbiddenArgValues: what the checker of a flag says of the next argument.
unfoldable pub is_forbidden_value : String → String → Bool
is_forbidden_value arg val =
    if str_eq arg "-serial"
    then true
    else if str_eq arg "-chardev"
    then contains val "id=serial0"
    else str_eq arg "-monitor" && str_eq val "stdio"

-- The error names the argument, and the value where there is one.
pub data ArgsError : Type 0 where
  managed_arg : String → ArgsError
  managed_value : String → String → ArgsError
  bad_serial_address : String → ArgsError

-- `i+1 < len(args)`, and the checker refuses the value there.
abbrev pub refuses_next : String → List String → Bool
refuses_next arg [] = false
refuses_next arg (val ∷ rest) = is_forbidden_value arg val

abbrev pub next_or : List String → String → String
next_or [] d = d
next_or (val ∷ rest) d = val

-- The loop of ValidateArgs; `none` is nil.
unfoldable pub validate_args : List String → Option ArgsError
validate_args [] = none
validate_args (arg ∷ rest) =
    let later = validate_args rest in
    if is_forbidden_arg arg
    then some (managed_arg arg)
    else if refuses_next arg rest
    then some (managed_value arg (next_or rest ""))
    else later

abbrev pub present : String → List String → Bool
present flag [] = false
present flag (a ∷ args) = str_eq a flag || present flag args

-- defaultArgs: each flag with its value.
abbrev pub default_args : List (String × String)
default_args = ("-machine", "q35") ∷ ("-m", "2048") ∷ ("-smp", "2") ∷ ("-vga", "std") ∷ []

-- The defaults whose flag the user's arguments do not hold.
unfoldable pub missing_defaults : List String → List (String × String) → List String
missing_defaults args [] = []
missing_defaults args ((flag, value) ∷ rest) =
    let later = missing_defaults args rest in
    if not (present flag args) then flag ∷ value ∷ later else later

unfoldable pub apply_defaults : List String → List String
apply_defaults args = args ++ missing_defaults args default_args

pub record BuildOptions : Type 0 where
  pub qmp_socket_path : String
  pub serial_addr : String
  pub serial_log_file : String

-- strings.Cut at a colon: the parts in front of and behind the first one.
unfoldable pub cut_colon : String → Option (String × String)
cut_colon String.[] = none
cut_colon (String.◌∷◌ c s) =
    let rest = cut_colon s in
    if str_eq (String.◌∷◌ c String.[]) ":"
    then some (String.[], s)
    else elim rest [ none ↦ none | some (before, after) ↦ some (String.◌∷◌ c before, after) ]

infixr 65 ◌<+>◌
abbrev ◌<+>◌ : String → String → String
a <+> b = String.◌++◌ a b

unfoldable pub serial_chardev : String → String → String → String
serial_chardev host port log_file =
    let chardev =
      "socket,id=serial0,host=" <+> host <+> ",port=" <+> port <+> ",server=on,wait=off" in
    if str_eq log_file "" then chardev else chardev <+> ",logfile=" <+> log_file <+> ",logappend=on"

unfoldable pub serial_args : BuildOptions → Result ArgsError (List String)
unfolding serial_chardev
serial_args opts = if str_eq opts.serial_addr "" then ok [] else elim (cut_colon opts.serial_addr) [
  | none ↦ err (bad_serial_address opts.serial_addr)
  | some (host, port) ↦ ok (
      "-chardev"
      ∷ serial_chardev host port opts.serial_log_file
      ∷ "-serial"
      ∷ "chardev:serial0"
      ∷ [])
]

unfoldable pub build_command_line : List String → BuildOptions → Result ArgsError (List String)
build_command_line user_args opts = elim (validate_args user_args) [
  | some e ↦ err e
  | none ↦ elim (serial_args opts) [
    | err e ↦ err e
    | ok serial ↦ ok (
        apply_defaults user_args
        ++ ("-qmp"
            ∷ ("unix:" <+> opts.qmp_socket_path <+> ",server,nowait")
            ∷ "-display"
            ∷ "none"
            ∷ serial))
  ]
]
