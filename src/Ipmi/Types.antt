-- ===== src/Ipmi/Types.antt =====
-- internal/ipmi/types.go: the constants of the protocol, and the results of the handlers.
pub mod AuthType
pub mod NetFn
pub mod Code
pub mod Payload
pub mod OpenStatus
use qemu_bmc.Base.{ℕ}

abbrev pub rmcp_version_1 : ℕ
rmcp_version_1 = 0x06

abbrev pub rmcp_class_asf : ℕ
rmcp_class_asf = 0x06

abbrev pub rmcp_class_ipmi : ℕ
rmcp_class_ipmi = 0x07

-- Cipher suite 3, the one that is supported.
abbrev pub auth_hmac_sha1 : ℕ
auth_hmac_sha1 = 0x01

abbrev pub integrity_hmac_sha1_96 : ℕ
integrity_hmac_sha1_96 = 0x01

abbrev pub conf_aes_cbc_128 : ℕ
conf_aes_cbc_128 = 0x01

-- The errors of the package, without the texts that are only logged.
pub data IpmiError : Type 0 where
  too_short bad_version bad_class truncated not_parsed bad_asf_type : IpmiError
  checksum_mismatch trailing_escape empty_command : IpmiError
  bad_payload_type session_not_found random_failed : IpmiError
  misaligned bad_padding read_failed : IpmiError

-- What a Go call ends with: a value, an error, or a run-time panic.
pub data Outcome (A : Type 0) : Type 0 where
  ok : A → Outcome A
  err : IpmiError → Outcome A
  panic : Outcome A

infixl 5 ◌>>=◌
abbrev pub ◌>>=◌ : {A B : Type 0} → Outcome A → (A → Outcome B) → Outcome B
ok a >>= f = f a
err e >>= f = err e
panic >>= f = panic
