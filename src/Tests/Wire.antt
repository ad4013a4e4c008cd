-- ===== src/Tests/Wire.antt =====
-- The frames and codecs on short messages.
use qemu_bmc.Base.{ℕ, ◌≡◌, ◌≢◌, refl, Bytes, [], ◌∷◌, ◌++◌, arith}
use qemu_bmc.Ipmi.Padding.{pad_payload, encrypt_aes_cbc, decrypt_aes_cbc}
use qemu_bmc.Ipmi.Padding.RoundTrip.{decrypt-encrypt_aes_cbc}
use qemu_bmc.Ipmi.Types.{ok}
use qemu_bmc.Ipmi.VmProtocol.{message, read_message, vm_escape_bytes}
use qemu_bmc.Ipmi.VmProtocol.Escape.{read_message-escape}
use qemu_bmc.Ipmi.VmServer.{VmState, handle_connection, out_of_fuel}
use qemu_bmc.Ipmi.VmServer.Connection.{handle_connection-ends}
use qemu_bmc.Machine.Host.{Machine}
use qemu_bmc.Tests.Fixtures.{platform, platform-Laws, mi, ctx}

-- A message with each of the three special bytes.
abbrev specials : Bytes
specials = 0x01 ∷ 0xA0 ∷ 0xA1 ∷ 0xAA ∷ 0x02 ∷ []

abbrev peer : VmState (Machine ℕ)
peer = record { ctx = ctx; vm_caps = 0 }

abbrev vector : Bytes
vector = 7 ∷ 7 ∷ 7 ∷ 7 ∷ 7 ∷ 7 ∷ 7 ∷ 7 ∷ 7 ∷ 7 ∷ 7 ∷ 7 ∷ 7 ∷ 7 ∷ 7 ∷ 7 ∷ []

read_message-escape_example :
    read_message [] (vm_escape_bytes specials ++ (0xA0 ∷ 0x55 ∷ []))
    ≡ message 0xA0 specials (0x55 ∷ [])
read_message-escape_example = read_message-escape specials 0xA0 (0x55 ∷ []) refl

handle_connection-ends_example :
    (handle_connection mi platform 8 (0xA1 ∷ 0x01 ∷ 0xAA ∷ 0xA0 ∷ 0x03 ∷ []) peer).2 ≢ out_of_fuel
handle_connection-ends_example =
    handle_connection-ends mi platform 8 (0xA1 ∷ 0x01 ∷ 0xAA ∷ 0xA0 ∷ 0x03 ∷ []) peer (omega arith)

decrypt-encrypt_aes_cbc_example :
    decrypt_aes_cbc platform vector (vector ++ pad_payload specials) ≡ ok specials
unfolding encrypt_aes_cbc
decrypt-encrypt_aes_cbc_example =
    decrypt-encrypt_aes_cbc platform platform-Laws vector specials (vector ++ pad_payload specials)
      ctx (omega arith) refl
