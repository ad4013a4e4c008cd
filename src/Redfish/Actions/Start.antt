-- ===== src/Redfish/Actions/Start.antt =====
-- What a reset applies that leaves the machine running, and what every other reset leaves alone.
use Prim.Native.String.{String}
use qemu_bmc.Base.{
  ◌≡◌, ap, ◌∙◌, Bytes, Bool, true, [], ◌∷◌, Option, none, some, Option-cases, inl, inr, arith,
}
use qemu_bmc.Base.Maps.{Map, get, copy, or_else}
use qemu_bmc.Firmware.{bios}
use qemu_bmc.Redfish.Actions.{
  handle_reset_action, is_power_on_reset, is_valid_reset, on_system_power_on_reset,
}
use qemu_bmc.Redfish.Bios.{patch_bios, handle_patch_bios_settings}
use qemu_bmc.Redfish.Bios.Applied.{
  ArePending, patched-applied, set_all_lem, activate_keeps_attrs, activate_keeps_pending,
}
use qemu_bmc.Redfish.Http.{no_content}
use qemu_bmc.Redfish.Server.{
  Server, MachineInterface, apply_pending_bios_settings, activate_staged_firmware, version_of,
}

power_on_valid : (kind : String) → is_power_on_reset kind ≡ true → is_valid_reset kind ≡ true
unfolding is_power_on_reset is_valid_reset
power_on_valid kind h = ground arith

module _ {M V : Type 0} where
  -- A reset that succeeded and leaves the machine on.
  reset_started :
      (mi : MachineInterface M) (kind : String) (s : Server M V)
      → is_power_on_reset kind ≡ true
      → (mi.reset kind s.machine).1 ≡ none
      → handle_reset_action mi (some kind) s ≡ (
        on_system_power_on_reset (record s { machine = (mi.reset kind s.machine).0 }),
        no_content,
      )
  unfolding handle_reset_action
  reset_started mi kind s on ok = rw (power_on_valid kind on, ok, on)

  activated :
      (s : Server M V)
      → (version_of bios (activate_staged_firmware bios s).firmware_versions
          ≡ or_else (version_of bios s.staged_firmware) (version_of bios s.firmware_versions))
        × (version_of bios (activate_staged_firmware bios s).staged_firmware ≡ none)
  unfolding activate_staged_firmware
  activated s = elim (Option-cases s.staged_firmware.of_bios) [
    | inl nothing ↦ (rw (nothing), rw (nothing))
    | inr (v, staged) ↦ (rw (staged), rw (staged))
  ]

  -- A system reset that succeeds and leaves the machine running makes the pending BIOS settings
  -- live over the old ones and clears them, and activates a staged BIOS version once.
  pub start_applies :
      (mi : MachineInterface M) (kind : String) (s : Server M V)
      → is_power_on_reset kind ≡ true
      → (mi.reset kind s.machine).1 ≡ none
      → let s' = (handle_reset_action mi (some kind) s).0 in
        (s'.bios_attrs ≡ copy s.bios_pending_attrs s.bios_attrs)
        × (s'.bios_pending_attrs ≡ [])
        × (version_of bios s'.firmware_versions
            ≡ or_else (version_of bios s.staged_firmware) (version_of bios s.firmware_versions))
        × (version_of bios s'.staged_firmware ≡ none)
  unfolding on_system_power_on_reset apply_pending_bios_settings
  start_applies mi kind s on ok =
      let m = (mi.reset kind s.machine).0 in
      let p = apply_pending_bios_settings (record s { machine = m }) in
      rw (reset_started mi kind s on ok) (
        activate_keeps_attrs bios p,
        activate_keeps_pending bios p,
        (activated p).0,
        (activated p).1,
      )

  patched_machine :
      (reset_required : Bytes → Option Bool) (attrs : Map V) (s : Server M V)
      → (patch_bios reset_required attrs s).machine ≡ s.machine
  unfolding patch_bios
  patched_machine reset_required attrs s = ap (λ (q : Server M V). q.machine) (set_all_lem _ s)

  -- In a server where no setting is pending that takes effect at once: after a PATCH of BIOS settings
  -- and a successful reset of a type that leaves the machine running, every
  -- attribute of the PATCH has its new value, whether its registry entry asks for a reset or not;
  -- the others have the value that was pending before, or else the live one; nothing is pending.
  pub patch-start :
      (mi : MachineInterface M) (reset_required : Bytes → Option Bool) (kind : String)
      (name : Bytes) (value : V) (attrs : Map V) (s : Server M V) (k : Bytes)
      → ArePending reset_required s
      → is_power_on_reset kind ≡ true
      → (mi.reset kind s.machine).1 ≡ none
      → let all = (name, value) ∷ attrs in
        let s1 = (handle_patch_bios_settings reset_required (some all) s).0 in
        let s2 = (handle_reset_action mi (some kind) s1).0 in
        (get k s2.bios_attrs
          ≡ or_else (get k all) (or_else (get k s.bios_pending_attrs) (get k s.bios_attrs)))
        × (s2.bios_pending_attrs ≡ [])
  unfolding handle_patch_bios_settings
  patch-start mi reset_required kind name value attrs s k inv on ok =
      let all : Map V = (name, value) ∷ attrs in
      let p = patch_bios reset_required all s in
      let same = patched_machine reset_required all s in
      let started = start_applies mi kind p on (rw (same) ok) in
      (ap (get k) started.0 ∙ patched-applied reset_required all s k inv, started.1)
