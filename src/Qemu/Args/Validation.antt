-- ===== src/Qemu/Args/Validation.antt =====
-- ValidateArgs against an independent description of the arguments it lets pass.
use Prim.Native.String.{String}
use text.Mathlib.Text.{◌==◌ as str_eq}
use text.Mathlib.TextEquality.{eq_iff}
use qemu_bmc.Base.{
  ◌≡◌, refl, sym, ap, ◌∙◌, true, false, List, [], ◌∷◌, ◌++◌, none, Bool-cases, inl, inr,
}
use qemu_bmc.Qemu.Args.{contains, is_forbidden_arg, is_forbidden_value, refuses_next, validate_args}

-- The flags that qemu-bmc manages, and the flags that it manages with a certain value behind them.
pub data IsManaged : String → Type 0 where
  qmp : IsManaged "-qmp"
  daemonize : IsManaged "-daemonize"

pub data IsManagedWith : String → String → Type 0 where
  serial : (val : String) → IsManagedWith "-serial" val
  chardev : (val : String) → contains val "id=serial0" ≡ true → IsManagedWith "-chardev" val
  monitor : IsManagedWith "-monitor" "stdio"

-- No argument is a managed flag, and no two in a row are a flag and a value that is managed with it.
pub record Allowed (args : List String) : Type 0 where
  pub flags :
      (front back : List String) (arg : String) → args ≡ front ++ (arg ∷ back) → ¬ (IsManaged arg)
  pub values :
      (front back : List String) (arg val : String)
      → args ≡ front ++ (arg ∷ val ∷ back)
      → ¬ (IsManagedWith arg val)

managed_forbidden : (arg : String) → IsManaged arg → is_forbidden_arg arg ≡ true
managed_forbidden _ qmp = refl
managed_forbidden _ daemonize = refl

forbidden-IsManaged : (arg : String) → is_forbidden_arg arg ≡ true → IsManaged arg
forbidden-IsManaged arg h = elim (Bool-cases (str_eq arg "-qmp")) [
  | inl a ↦ rw ((eq_iff arg "-qmp").0 a) qmp
  | inr na ↦ elim (Bool-cases (str_eq arg "-daemonize")) [
    | inl b ↦ rw ((eq_iff arg "-daemonize").0 b) daemonize
    | inr nb ↦ let p = rw (na, nb) at h in cc
  ]
]

managed_value : (arg val : String) → IsManagedWith arg val → is_forbidden_value arg val ≡ true
unfolding is_forbidden_value
managed_value _ _ (serial val) = refl
managed_value _ _ (chardev val has) = has
managed_value _ _ monitor = refl

value_managed : (arg val : String) → is_forbidden_value arg val ≡ true → IsManagedWith arg val
unfolding is_forbidden_value
value_managed arg val h = elim (Bool-cases (str_eq arg "-serial")) [
  | inl a ↦ rw ((eq_iff arg "-serial").0 a) (serial val)
  | inr na ↦ elim (Bool-cases (str_eq arg "-chardev")) [
    | inl b ↦ rw ((eq_iff arg "-chardev").0 b) (chardev val (rw (is_forbidden_value, na, b) at h))
    | inr nb ↦ elim (Bool-cases (str_eq arg "-monitor")) [
      | inr nc ↦ let p = rw (is_forbidden_value, na, nb, nc) at h in cc
      | inl c ↦
          let d : str_eq val "stdio" ≡ true = rw (is_forbidden_value, na, nb, c) at h in
          rw ((eq_iff arg "-monitor").0 c, (eq_iff val "stdio").0 d) monitor
    ]
  ]
]

tail-Allowed : (arg : String) (rest : List String) → Allowed (arg ∷ rest) → Allowed rest
tail-Allowed arg rest all = record {
  flags = λ front back x e. all.flags (arg ∷ front) back x (ap (λ xs. arg ∷ xs) e);
  values = λ front back x v e. all.values (arg ∷ front) back x v (ap (λ xs. arg ∷ xs) e);
}

complete : (args : List String) → Allowed args → validate_args args ≡ none
unfolding validate_args
complete [] all = refl
complete (arg ∷ rest) all = elim (Bool-cases (is_forbidden_arg arg)) [
  | inl bad ↦ absurd (all.flags [] rest arg refl (forbidden-IsManaged arg bad))
  | inr good ↦ elim (Bool-cases (refuses_next arg rest)) [
    | inl bad ↦ absurd (refused rest all bad)
    | inr fine ↦ rw (validate_args, good, fine) (complete rest (tail-Allowed arg rest all))
  ]
]
  where
    refused : (back : List String) → Allowed (arg ∷ back) → refuses_next arg back ≡ true → ⊥
    refused [] all bad = cc
    refused (val ∷ back) all bad = all.values [] back arg val refl (value_managed arg val bad)

-- What a passed list says of its head.
passed_head :
    (arg : String) (rest : List String)
    → validate_args (arg ∷ rest) ≡ none
    → (is_forbidden_arg arg ≡ false) × (refuses_next arg rest ≡ false) × (validate_args rest ≡ none)
unfolding validate_args
passed_head arg rest h = elim (Bool-cases (is_forbidden_arg arg)) [
  | inl bad ↦ let p = rw (validate_args, bad) at h in cc
  | inr good ↦ elim (Bool-cases (refuses_next arg rest)) [
    | inl bad ↦ let p = rw (validate_args, good, bad) at h in cc
    | inr fine ↦ (good, fine, rw (validate_args, good, fine) at h)
  ]
]

no_flag :
    (front back : List String) (arg : String)
    → validate_args (front ++ (arg ∷ back)) ≡ none
    → ¬ (IsManaged arg)
no_flag [] back arg h m =
    let (good, fine, later) = passed_head arg back h in let bad = managed_forbidden arg m in cc
no_flag (x ∷ front) back arg h m = no_flag front back arg (passed_head x _ h).2 m

no_value :
    (front back : List String) (arg val : String)
    → validate_args (front ++ (arg ∷ val ∷ back)) ≡ none
    → ¬ (IsManagedWith arg val)
no_value [] back arg val h m =
    let (good, fine, later) = passed_head arg (val ∷ back) h in
    let bad = managed_value arg val m in cc
no_value (x ∷ front) back arg val h m = no_value front back arg val (passed_head x _ h).2 m

-- ValidateArgs returns nil for exactly the arguments among which -qmp and -daemonize do not occur,
-- -serial has no argument behind it, -monitor is not followed by stdio, and -chardev not by a value
-- that contains id=serial0.
pub validate_args_iff :
    (args : List String)
    → (validate_args args ≡ none → Allowed args) × (Allowed args → validate_args args ≡ none)
validate_args_iff args = (
  λ h. record {
    flags = λ front back arg e. no_flag front back arg (ap validate_args (sym e) ∙ h);
    values = λ front back arg val e. no_value front back arg val (ap validate_args (sym e) ∙ h);
  },
  complete args,
)
