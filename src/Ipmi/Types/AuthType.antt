-- ===== src/Ipmi/Types/AuthType.antt =====
-- internal/ipmi/types.go: the authentication types of a session header.
use qemu_bmc.Base.{ℕ}

abbrev pub none : ℕ
none = 0x00

abbrev pub md5 : ℕ
md5 = 0x02

abbrev pub rmcp_plus : ℕ
rmcp_plus = 0x06
