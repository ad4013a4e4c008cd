-- ===== src/Machine/Interface.antt =====
-- *machine.Machine as the MachineInterface that internal/ipmi/types.go asks for.
use qemu_bmc.Ipmi.Env.{MachineInterface}
use qemu_bmc.Machine.Boot.{get_boot_override, set_boot_override}
use qemu_bmc.Machine.Host.{Host, Machine}
use qemu_bmc.Machine.Power.{get_power_state}
use qemu_bmc.Machine.Reset.{reset}

abbrev pub machine_interface : {W : Type 0} → Host W → MachineInterface (Machine W)
machine_interface h = record {
  get_power_state = get_power_state h;
  reset = reset h;
  get_boot_override = get_boot_override;
  set_boot_override = set_boot_override;
}
