-- ===== src/Ipmi/Wire/Frames.antt =====
-- Frames and messages that the BMC writes, read back by its own parsers.
use qemu_bmc.Base.{
  ℕ, suc, ◌+◌, ◌-◌, ◌≡◌, ◌<◌, refl, Bytes, [], ◌∷◌, ◌++◌, arith, take, length, length-append,
  ltb-false, ltb-true, take-length_append, shl8, byte_at,
}
use qemu_bmc.Ipmi.Types.{ok}
use qemu_bmc.Ipmi.Wire.{
  IpmiMessage, parse_rmcp_message, serialize_rmcp_message, parse_ipmi_message_bytes,
  build_ipmi_response_message_with_seq, get_net_fn,
}

-- A frame that was written is read back with its class and its payload.
pub parse-serialize_rmcp_message :
    (class : ℕ) (payload : Bytes)
    → parse_rmcp_message (serialize_rmcp_message class payload)
      ≡ ok (record { version = 0x06; reserved = 0x00; sequence = 0xFF; class = class }, payload)
unfolding parse_rmcp_message serialize_rmcp_message
parse-serialize_rmcp_message class payload = ground arith

-- All but the last byte of what follows the command.
body_of_message :
    (code : ℕ) (payload : Bytes) (sum n : ℕ)
    → n ≡ length payload + 1
    → take n (code ∷ (payload ++ (sum ∷ []))) ≡ code ∷ payload
body_of_message code payload sum n h =
    take-length_append n (code ∷ payload) (sum ∷ []) (omega arith)

-- The parser on a message whose bytes are known.
pub parse_message_body :
    (a b c d e f g : ℕ) (payload : Bytes) (sum : ℕ)
    → parse_ipmi_message_bytes (a ∷ b ∷ c ∷ d ∷ e ∷ f ∷ g ∷ (payload ++ (sum ∷ [])))
      ≡ ok (record {
        target_address = a;
        target_lun = b;
        checksum = c;
        source_address = d;
        source_lun = e;
        command = f;
        payload = g ∷ payload;
      })
unfolding parse_ipmi_message_bytes
parse_message_body a b c d e f g payload sum =
    let n = length (payload ++ (sum ∷ [])) in
    let count : n ≡ length payload + 1 = length-append payload (sum ∷ []) in
    let minus : suc (suc (suc (suc (suc (suc (suc n)))))) - 7 ≡ n = omega arith in
    rw (
      ltb-false (suc (suc (suc (suc (suc (suc (suc n))))))) 7 (omega arith),
      ltb-true 7 (suc (suc (suc (suc (suc (suc (suc n))))))) (omega arith),
      minus,
      body_of_message g payload sum n count,
    )

-- A message of the BMC is read back, whatever its network function.
pub parse_answer :
    (net_fn cmd code : ℕ) (payload : Bytes) (seq_lun : ℕ)
    → (m : IpmiMessage) × (parse_ipmi_message_bytes
          (build_ipmi_response_message_with_seq net_fn cmd code payload seq_lun)
        ≡ ok m)
      × (m.target_lun ≡ shl8 net_fn 2)
      × (m.command ≡ cmd)
      × (m.source_lun ≡ seq_lun)
      × (m.payload ≡ code ∷ payload)
unfolding build_ipmi_response_message_with_seq
parse_answer net_fn cmd code payload seq_lun =
    let msg = build_ipmi_response_message_with_seq net_fn cmd code payload seq_lun in
    (
      record {
        target_address = 0x81;
        target_lun = shl8 net_fn 2;
        checksum = byte_at msg 2;
        source_address = 0x20;
        source_lun = seq_lun;
        command = cmd;
        payload = code ∷ payload;
      },
      parse_message_body 0x81 _ _ 0x20 seq_lun cmd code payload _,
      refl,
      refl,
      refl,
      refl,
    )

-- What the parser of messages reads in a message of the BMC: the network function, the command,
-- the echoed sequence number, and the completion code followed by the data.
pub parse-build_response :
    (net_fn cmd code : ℕ) (payload : Bytes) (seq_lun : ℕ)
    → net_fn < 64
    → let msg = build_ipmi_response_message_with_seq net_fn cmd code payload seq_lun in
      (m : IpmiMessage) × (parse_ipmi_message_bytes msg ≡ ok m)
      × (get_net_fn m ≡ net_fn)
      × (m.command ≡ cmd)
      × (m.source_lun ≡ seq_lun)
      × (m.payload ≡ code ∷ payload)
parse-build_response net_fn cmd code payload seq_lun h =
    let (m, parsed, lun, command, seq, held) = parse_answer net_fn cmd code payload seq_lun in
    (m, parsed, omega (arith, lun), command, seq, held)
