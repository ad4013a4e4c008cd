-- ===== src/Ipmi/Types/OpenStatus.antt =====
-- internal/ipmi/types.go: the status codes of an Open Session response.
use qemu_bmc.Base.{ℕ}

abbrev pub success : ℕ
success = 0x00

abbrev pub invalid_auth_algorithm : ℕ
invalid_auth_algorithm = 0x11

abbrev pub invalid_integrity_algorithm : ℕ
invalid_integrity_algorithm = 0x12

abbrev pub invalid_conf_algorithm : ℕ
invalid_conf_algorithm = 0x18
