-- ===== src/Redfish/Machine.antt =====
-- The machine of internal/machine behind the interface of the Redfish handlers, as
-- cmd/qemu-bmc/main.go passes it, and what the handlers rely on.
use qemu_bmc.Base.{◌≡◌, Bool-cases, inl, inr, none, arith}
use qemu_bmc.Machine.Boot.{get_boot_override, set_boot_override, is_valid_target, is_valid_enabled}
use qemu_bmc.Machine.Host.{Host, Machine}
use qemu_bmc.Machine.Media.{insert_media, eject_media}
use qemu_bmc.Machine.Power.{get_power_state, get_qmp_status}
use qemu_bmc.Machine.Reset.{reset}
use qemu_bmc.Machine.Types.{BootOverride}
use qemu_bmc.Redfish.Server.{MachineInterface}

-- Reading the status leaves the override, and SetBootOverride stores it or fails without a change.
pub record MachineLaws {M : Type 0} (mi : MachineInterface M) : Type 0 where
  pub status_keeps : (m : M) → mi.get_boot_override (mi.get_qmp_status m).0 ≡ mi.get_boot_override m
  pub set_shows :
      (o : BootOverride) (m : M)
      → (mi.set_boot_override o m).1 ≡ none
      → mi.get_boot_override (mi.set_boot_override o m).0 ≡ o

abbrev pub redfish_machine : {W : Type 0} → Host W → MachineInterface (Machine W)
redfish_machine h = record {
  get_power_state = get_power_state h;
  get_qmp_status = get_qmp_status h;
  reset = reset h;
  get_boot_override = get_boot_override;
  set_boot_override = set_boot_override;
  insert_media = insert_media h;
  eject_media = eject_media h;
}

pub redfish_machine-Laws : {W : Type 0} (h : Host W) → MachineLaws (redfish_machine h)
unfolding get_boot_override get_qmp_status set_boot_override
redfish_machine-Laws h = record {
  status_keeps = λ m. ground arith;
  set_shows = λ o m e. elim (Bool-cases (is_valid_target o.target)) [
    | inr bad ↦ let p = rw (bad) at e in cc
    | inl target ↦ elim (Bool-cases (is_valid_enabled o.enabled)) [
      | inr bad ↦ let p = rw (target, bad) at e in cc
      | inl enabled ↦ rw (target, enabled)
    ]
  ];
}
