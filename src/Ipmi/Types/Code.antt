-- ===== src/Ipmi/Types/Code.antt =====
-- internal/ipmi/types.go: the completion codes, `CompletionCode uint8`.
use qemu_bmc.Base.{ℕ}

abbrev pub ok : ℕ
ok = 0x00

abbrev pub invalid_command : ℕ
invalid_command = 0xC1

abbrev pub parameter_out_of_range : ℕ
parameter_out_of_range = 0xC9

abbrev pub invalid_field : ℕ
invalid_field = 0xCC

abbrev pub unspecified : ℕ
unspecified = 0xFF
