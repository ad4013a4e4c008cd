-- ===== src/Ipmi/Types/Payload.antt =====
-- internal/ipmi/types.go: the RMCP+ payload types.
use qemu_bmc.Base.{ℕ}

abbrev pub ipmi : ℕ
ipmi = 0x00

abbrev pub open_session_request : ℕ
open_session_request = 0x10

abbrev pub open_session_response : ℕ
open_session_response = 0x11

abbrev pub rakp_message_1 : ℕ
rakp_message_1 = 0x12

abbrev pub rakp_message_2 : ℕ
rakp_message_2 = 0x13

abbrev pub rakp_message_3 : ℕ
rakp_message_3 = 0x14

abbrev pub rakp_message_4 : ℕ
rakp_message_4 = 0x15
