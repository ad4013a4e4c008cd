-- ===== src/Qemu/Args/Defaults.antt =====
-- ApplyDefaults: the flags that are there afterwards.
use Prim.Native.String.{String}
use text.Mathlib.TextPositions.{eq_refl}
use qemu_bmc.Base.{
  ◌≡◌, ◌∙◌, sym, refl, true, false, ◌||◌, List, [], ◌∷◌, ◌++◌, All, arith, Bool-cases, inl, inr,
}
use mathlib.Core.List.{append-nil}
use mathlib.Core.Path.{subst}
use qemu_bmc.Qemu.Args.{present, default_args, missing_defaults, apply_defaults}

present-append :
    (flag : String) (xs ys : List String)
    → present flag (xs ++ ys) ≡ (present flag xs || present flag ys)
present-append flag [] ys = refl
present-append flag (x ∷ xs) ys = ground (arith, present-append flag xs ys)

-- Flags found in the arguments or among the defaults stay found when a default is put in front.
All-later :
    (args : List String) (flag value : String) (later : List String) (ds : List (String × String))
    → All (λ d. (present d.0 args || present d.0 later) ≡ true) ds
    → All (λ d. (present d.0 args || present d.0 (flag ∷ value ∷ later)) ≡ true) ds
All-later args flag value later [] h = tt
All-later args flag value later (d ∷ ds) h =
    (ground (arith, h.0), All-later args flag value later ds h.1)

missing_defaults-there :
    (args : List String) (flag value : String) (ds : List (String × String))
    → present flag args ≡ true
    → missing_defaults args ((flag, value) ∷ ds) ≡ missing_defaults args ds
unfolding missing_defaults
missing_defaults-there args flag value ds there = rw there refl

missing_defaults-absent :
    (args : List String) (flag value : String) (ds : List (String × String))
    → present flag args ≡ false
    → missing_defaults args ((flag, value) ∷ ds) ≡ flag ∷ value ∷ missing_defaults args ds
unfolding missing_defaults
missing_defaults-absent args flag value ds absent = rw absent refl

found :
    (args : List String) (ds : List (String × String))
    → All (λ d. (present d.0 args || present d.0 (missing_defaults args ds)) ≡ true) ds
unfolding missing_defaults
found args [] = tt
found args ((flag, value) ∷ ds) = elim (Bool-cases (present flag args)) [
  | inl there ↦ (
    ground (arith, there),
    subst (λ l. All (λ d. (present d.0 args || present d.0 l) ≡ true) ds)
        (sym (missing_defaults-there args flag value ds there)) (found args ds),
  )
  | inr absent ↦
      let later = missing_defaults args ds in
      subst (λ l. All (λ d. (present d.0 args || present d.0 l) ≡ true) ((flag, value) ∷ ds))
        (sym (missing_defaults-absent args flag value ds absent))
        (ground (arith, absent, eq_refl flag), All-later args flag value later ds (found args ds))
]

none_missing :
    (args : List String) (ds : List (String × String))
    → All (λ d. present d.0 args ≡ true) ds
    → missing_defaults args ds ≡ []
unfolding missing_defaults
none_missing args [] h = refl
none_missing args ((flag, value) ∷ ds) h = rw h.0 (none_missing args ds h.1)

All-present :
    (args : List String) (later : List String) (ds : List (String × String))
    → All (λ d. (present d.0 args || present d.0 later) ≡ true) ds
    → All (λ d. present d.0 (args ++ later) ≡ true) ds
All-present args later [] h = tt
All-present args later (d ∷ ds) h =
    (present-append d.0 args later ∙ h.0, All-present args later ds h.1)

-- After ApplyDefaults each of the four flags stands in the arguments, and applying the defaults once
-- more changes nothing.
pub apply_defaults_complete :
    (args : List String)
    → All (λ d. present d.0 (apply_defaults args) ≡ true) default_args
      × (apply_defaults (apply_defaults args) ≡ apply_defaults args)
unfolding apply_defaults
apply_defaults_complete args =
    let every : All (λ d. present d.0 (apply_defaults args) ≡ true) default_args =
      All-present args (missing_defaults args default_args) default_args
        (found args default_args) in
    (every, rw (none_missing (apply_defaults args) default_args every) (append-nil _))
