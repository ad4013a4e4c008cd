-- ===== src/Ipmi/Dispatch.antt =====
-- handleIPMICommand of internal/ipmi/rmcp_plus.go: the dispatcher that the RMCP, RMCP+ and in-band
-- servers share.
use qemu_bmc.Base.{[], ◌==◌, if◌then◌else◌}
use qemu_bmc.Ipmi.Env.{Platform, MachineInterface, Ctx, Reply, reply}
use qemu_bmc.Ipmi.App.{handle_app_command, on_bmc}
use qemu_bmc.Ipmi.Chassis.{handle_chassis_command}
use qemu_bmc.Ipmi.Lan.{handle_transport_command}
use qemu_bmc.Ipmi.Types.NetFn
use qemu_bmc.Ipmi.Types.Code
use qemu_bmc.Ipmi.Wire.{IpmiMessage, get_net_fn}

-- A handler that works on the machine alone, run in the whole context.
abbrev pub on_machine : {M : Type 0} → (M → M × Reply) → Ctx M → Ctx M × Reply
on_machine f c = let (m, r) = f c.machine in (record c { machine = m }, r)

module _ {M : Type 0} (mi : MachineInterface M) (p : Platform) where
  unfoldable pub handle_ipmi_command : IpmiMessage → Ctx M → Ctx M × Reply
  handle_ipmi_command msg c =
      let net_fn = get_net_fn msg in
      if net_fn == NetFn.app
      then handle_app_command p msg c
      else if net_fn == NetFn.chassis
      then on_machine (handle_chassis_command mi msg) c
      else if net_fn == NetFn.transport
      then on_bmc (handle_transport_command msg) c
      else (c, reply Code.invalid_command [])
