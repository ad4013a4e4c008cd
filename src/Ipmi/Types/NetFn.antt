-- ===== src/Ipmi/Types/NetFn.antt =====
-- internal/ipmi/types.go: the network functions that have handlers.
use qemu_bmc.Base.{ℕ}

abbrev pub chassis : ℕ
chassis = 0x00

abbrev pub app : ℕ
app = 0x06

abbrev pub transport : ℕ
transport = 0x0C
