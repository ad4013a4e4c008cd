-- ===== src/Config/Fallback.antt =====
-- Settings of internal/config/config.go that are set to a text that cannot be read.
use Prim.Native.String.{String}
use text.Mathlib.Text.{◌==◌ as str_eq}
use qemu_bmc.Base.{◌≡◌, ◌≢◌, refl, Bool, Bool-cases, Option, none, inl, inr}
use qemu_bmc.Base.Texts.{text_differs}
use qemu_bmc.Config.{ℤ, get_parsed_env, get_bool_env}

-- A text that the parser refuses counts as an unset variable.
unread_counts_as_unset :
    (getenv : String → String) (parse : String → Option ℤ) (key : String) (d : ℤ)
    → parse (getenv key) ≡ none
    → get_parsed_env getenv parse key d ≡ get_parsed_env (λ _. "") parse key d
unfolding get_parsed_env
unread_counts_as_unset getenv parse key d unread = elim (Bool-cases (str_eq (getenv key) "")) [
  | inl unset ↦ rw (get_parsed_env, unset) refl
  | inr given ↦ rw (get_parsed_env, given, unread) refl
]

-- A Boolean setting that is none of the six words counts as an unset variable.
other_word_counts_as_unset :
    (getenv : String → String) (key : String) (d : Bool)
    → getenv key ≢ "true"
    → getenv key ≢ "1"
    → getenv key ≢ "yes"
    → getenv key ≢ "false"
    → getenv key ≢ "0"
    → getenv key ≢ "no"
    → get_bool_env getenv key d ≡ get_bool_env (λ _. "") key d
unfolding get_bool_env
other_word_counts_as_unset getenv key d n1 n2 n3 n4 n5 n6 =
    let word = getenv key in
    rw
      (
        get_bool_env,
        text_differs word "true" n1,
        text_differs word "1" n2,
        text_differs word "yes" n3,
        text_differs word "false" n4,
        text_differs word "0" n5,
        text_differs word "no" n6,
      )
      refl
