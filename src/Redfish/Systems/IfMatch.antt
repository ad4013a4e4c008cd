-- ===== src/Redfish/Systems/IfMatch.antt =====
-- The precondition of a PATCH: with an If-Match header, only the current ETag lets a change through.
use Prim.Native.String.{String}
use text.Mathlib.Text.{◌==◌ as str_eq}
use text.Mathlib.TextEquality.{eq_iff}
use qemu_bmc.Base.{ok, ◌≡◌, ◌≢◌, ◌⊎◌, refl, ap, ◌∙◌, Option, Bool-cases, Result-cases, inl, inr}
use qemu_bmc.Base.Texts.{text_differs}
use qemu_bmc.Machine.Types.{Status}
use qemu_bmc.Redfish.Machine.{MachineLaws}
use qemu_bmc.Redfish.Server.{Server, MachineInterface}
use qemu_bmc.Redfish.Systems.{
  PatchSystemRequest, etag_of, etag_text, map_qmp_status_to_redfish, handle_patch_system,
}

module _ {M V : Type 0} (hash : String → String) (mi : MachineInterface M)
    (laws : MachineLaws mi) where
  -- The fields that a PATCH of the system may change.
  pub record Unpatched (s s' : Server M V) : Type 0 where
    pub override : mi.get_boot_override s'.machine ≡ mi.get_boot_override s.machine
    pub order : s'.boot_order ≡ s.boot_order
    pub led : s'.indicator_led ≡ s.indicator_led

  queried : Server M V → Server M V
  queried s = record s { machine = (mi.get_qmp_status s.machine).0 }

  queried-Unpatched : (s : Server M V) → Unpatched s (queried s)
  unfolding queried
  queried-Unpatched s = record { override = laws.status_keeps s.machine; order = refl; led = refl }

  -- The query of the status does not change the ETag.
  queried_etag :
      (status : Status) (s : Server M V)
      → etag_of hash mi status (queried s) ≡ etag_of hash mi status s
  unfolding queried
  queried_etag status s =
      ap (λ o. hash (etag_text (map_qmp_status_to_redfish status) o s.boot_order))
        (laws.status_keeps s.machine)

  -- A PATCH with an If-Match header leaves the override, the boot order and the LED as they are,
  -- unless the header is the ETag of the system as it is: a client that holds another one changes
  -- none of them.
  pub if_match_guards :
      (tag : String) (body : Option PatchSystemRequest) (s : Server M V)
      → tag ≢ ""
      → Unpatched s (handle_patch_system hash mi tag body s).0
        ⊎ ((status : Status) × ((mi.get_qmp_status s.machine).1 ≡ ok status)
            × (tag ≡ etag_of hash mi status s))
  unfolding handle_patch_system queried
  if_match_guards tag body s given = elim (Result-cases (mi.get_qmp_status s.machine).1) [
    | inl (e, bad) ↦
        inl (rw (handle_patch_system, text_differs tag "" given, bad) (queried-Unpatched s))
    | inr (status, good) ↦ elim (Bool-cases (str_eq tag (etag_of hash mi status (queried s)))) [
      | inl same ↦ inr (status, good, (eq_iff tag _).0 same ∙ queried_etag status s)
      | inr stale ↦
          inl
            (rw (handle_patch_system, text_differs tag "" given, good, stale) (queried-Unpatched s))
    ]
  ]
