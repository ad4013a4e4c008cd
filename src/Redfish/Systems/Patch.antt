-- ===== src/Redfish/Systems/Patch.antt =====
-- What a PATCH of the system shows afterwards, and what the ETag misses.
use Prim.Native.String.{String, ◌++◌ as append}
use text.Mathlib.Text.{◌==◌ as str_eq}
use text.Mathlib.TextEquality.{eq_iff}
use qemu_bmc.Base.{
  ◌≡◌, ◌≢◌, refl, sym, ap, ◌∙◌, List, [], ◌∷◌, Option, none, some, ◌⊎◌, Bool-cases, Option-cases,
  Result-cases, inl, inr,
}
use qemu_bmc.Base.Texts.{text_differs}
use qemu_bmc.Machine.Types.{BootOverride, Status}
use qemu_bmc.Redfish.Http.{document}
use qemu_bmc.Redfish.Machine.{MachineLaws}
use qemu_bmc.Redfish.Server.{Server, MachineInterface, set_boot_order}
use qemu_bmc.Redfish.Systems.{
  ComputerSystem, PatchBoot, PatchSystemRequest, merge_override, given_or, etag_of, etag_text,
  system_document, handle_get_system, patch_boot, patch_led, patch_system, handle_patch_system,
  is_empty_patch_system,
}

order_cases : (xs : List String) → (xs ≡ []) ⊎ ((x : String) × (ys : List String) × (xs ≡ x ∷ ys))
order_cases [] = inl refl
order_cases (x ∷ xs) = inr (x, xs, refl)

-- A text after a request: the new one, or the old one where the request leaves it empty.
pub record Becomes (new old shown : String) : Type 0 where
  pub given : new ≢ "" → shown ≡ new
  pub left_out : new ≡ "" → shown ≡ old

given_or-Becomes : (new old : String) → Becomes new old (given_or new old)
given_or-Becomes new old = record {
  given = λ ne. rw (text_differs new "" ne) refl;
  left_out = λ e. rw ((eq_iff new "").1 e) refl;
}

-- The override, the order and the LED that a request asks for.
abbrev pub OverrideBecomes : Option PatchBoot → BootOverride → BootOverride → Type 0
OverrideBecomes none old shown = shown ≡ old
OverrideBecomes (some b) old shown =
    (b.boot_order ≢ [] → shown ≡ old)
    × (b.boot_order ≡ []
        → Becomes b.override_enabled old.enabled shown.enabled
          × Becomes b.override_target old.target shown.target
          × Becomes b.override_mode old.mode shown.mode)

abbrev wanted_override : Option PatchBoot → BootOverride → BootOverride
wanted_override none old = old
wanted_override (some b) old = elim (b.boot_order) [ [] ↦ merge_override b old | x ∷ xs ↦ old ]

wanted_override-Becomes :
    (b : Option PatchBoot) (old : BootOverride) → OverrideBecomes b old (wanted_override b old)
unfolding merge_override
wanted_override-Becomes none old = refl
wanted_override-Becomes (some b) old = elim (order_cases b.boot_order) [
  | inl nothing ↦ (
    λ ne. absurd (ne nothing),
    λ e. rw (nothing) (
      given_or-Becomes b.override_enabled old.enabled,
      given_or-Becomes b.override_target old.target,
      given_or-Becomes b.override_mode old.mode,
    ),
  )
  | inr (x, xs, given) ↦ (λ ne. rw (given) refl, λ e. absurd (let p = sym given ∙ e in cc))
]

abbrev pub wanted_order : Option PatchBoot → List String → List String
wanted_order none old = old
wanted_order (some b) old = elim (b.boot_order) [ [] ↦ old | x ∷ xs ↦ x ∷ xs ]

abbrev pub wanted_led : Option String → String → String
wanted_led none old = old
wanted_led (some led) old = led

module _ {M V : Type 0} (mi : MachineInterface M) (laws : MachineLaws mi) where
  patched_boot :
      (b : Option PatchBoot) (s : Server M V)
      → (patch_boot mi b s).1 ≡ none
      → (mi.get_boot_override (patch_boot mi b s).0.machine
          ≡ wanted_override b (mi.get_boot_override s.machine))
        × ((patch_boot mi b s).0.boot_order ≡ wanted_order b s.boot_order)
        × ((patch_boot mi b s).0.indicator_led ≡ s.indicator_led)
  unfolding patch_boot
  patched_boot none s e = (refl, refl, refl)
  patched_boot (some b) s e = elim (order_cases b.boot_order) [
    | inl nothing ↦ (
      rw (patch_boot, nothing) (laws.set_shows _ s.machine (rw (patch_boot, nothing) at e)),
      rw (patch_boot, nothing),
      rw (patch_boot, nothing),
    )
    | inr (x, xs, given) ↦ (rw (patch_boot, given), rw (patch_boot, given), rw (patch_boot, given))
  ]

  led_keeps :
      (led : Option String) (s : Server M V)
      → ((patch_led led s).machine ≡ s.machine)
        × ((patch_led led s).boot_order ≡ s.boot_order)
        × ((patch_led led s).indicator_led ≡ wanted_led led s.indicator_led)
  unfolding patch_led
  led_keeps none s = (refl, refl, refl)
  led_keeps (some led) s = (refl, refl, refl)

module _ {M V : Type 0} (hash : String → String) (mi : MachineInterface M)
    (laws : MachineLaws mi) where
  -- A document that shows the state of the server.
  get_system_shows :
      (s s' : Server M V) (d : ComputerSystem)
      → handle_get_system hash mi s ≡ (s', document 200 d)
      → (d.boot ≡ mi.get_boot_override s.machine)
        × (d.boot_order ≡ s.boot_order)
        × (d.indicator_led ≡ s.indicator_led)
  unfolding handle_get_system
  get_system_shows s s' d e = elim (Result-cases (mi.get_qmp_status s.machine).1) [
    | inl (x, bad) ↦ let p = rw (handle_get_system, bad) at e in cc
    | inr (status, good) ↦
        let p = rw (handle_get_system, good) at e in
        let doc : system_document hash mi status
              (record s { machine = (mi.get_qmp_status s.machine).0 })
            ≡ d =
          cc in
        (rw (← doc) (laws.status_keeps s.machine), rw (← doc), rw (← doc))
  ]

  shows :
      (req : PatchSystemRequest) (s s' : Server M V) (d : ComputerSystem)
      → patch_system hash mi (some req) s ≡ (s', document 200 d)
      → OverrideBecomes req.boot (mi.get_boot_override s.machine) d.boot
        × (d.boot_order ≡ wanted_order req.boot s.boot_order)
        × (d.indicator_led ≡ wanted_led req.indicator_led s.indicator_led)
  unfolding patch_system
  shows req s s' d e = elim (Bool-cases (is_empty_patch_system req)) [
    | inl empty ↦ let p = rw (patch_system, empty) at e in cc
    | inr given ↦ elim (Option-cases (patch_boot mi req.boot s).1) [
      | inr (x, bad) ↦ let p = rw (patch_system, given, bad) at e in cc
      | inl good ↦
          let p = rw (patch_system, given, good) at e in
          let s1 = (patch_boot mi req.boot s).0 in
          let (boot, order, led) = patched_boot mi laws req.boot s good in
          let (m, o, l) = led_keeps mi laws req.indicator_led s1 in
          let (db, dord, dl) = get_system_shows (patch_led req.indicator_led s1) s' d p in
          let shown : d.boot ≡ wanted_override req.boot (mi.get_boot_override s.machine) =
            db ∙ ap mi.get_boot_override m ∙ boot in
          (
            rw shown (wanted_override-Becomes req.boot (mi.get_boot_override s.machine)),
            dord ∙ o ∙ order,
            dl ∙ l ∙ rw (led) refl,
          )
    ]
  ]

  -- A PATCH of the system that is answered with a document shows in it what was asked for: the given
  -- parts of the override over the current one, unless a boot order is given, which is stored
  -- instead; the given LED; and the old values of what was not given. This holds with and without an
  -- If-Match header.
  pub patch_system_shows :
      (tag : String) (req : PatchSystemRequest) (s s' : Server M V) (d : ComputerSystem)
      → handle_patch_system hash mi tag (some req) s ≡ (s', document 200 d)
      → OverrideBecomes req.boot (mi.get_boot_override s.machine) d.boot
        × (d.boot_order ≡ wanted_order req.boot s.boot_order)
        × (d.indicator_led ≡ wanted_led req.indicator_led s.indicator_led)
  unfolding handle_patch_system
  patch_system_shows tag req s s' d e = elim (Bool-cases (str_eq tag "")) [
    | inl absent ↦ shows req s s' d (rw (handle_patch_system, absent) at e)
    | inr present ↦ elim (Result-cases (mi.get_qmp_status s.machine).1) [
      | inl (x, bad) ↦ let p = rw (handle_patch_system, present, bad) at e in cc
      | inr (status, good) ↦
          let s0 : Server M V = record s { machine = (mi.get_qmp_status s.machine).0 } in
          elim (Bool-cases (str_eq tag (etag_of hash mi status s0))) [
            | inr stale ↦ let p = rw (handle_patch_system, present, good, stale) at e in cc
            | inl current ↦
                let (boot, order, led) =
                  shows req s0 s' d (rw (handle_patch_system, present, good, current) at e) in
                (rw (← laws.status_keeps s.machine) boot, order, led)
          ]
    ]
  ]

  -- The ETag does not tell a boot order of two entries from the order whose one entry is their text
  -- with a comma between them.
  pub etag_joins_order :
      (status : Status) (s : Server M V) (x y : String)
      → etag_of hash mi status (set_boot_order (x ∷ y ∷ []) s)
        ≡ etag_of hash mi status (set_boot_order (append x (append "," y) ∷ []) s)
  unfolding etag_text
  etag_joins_order status s x y = refl
