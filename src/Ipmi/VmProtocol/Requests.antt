-- ===== src/Ipmi/VmProtocol/Requests.antt =====
-- The in-band messages: checksums, and responses read back.
use qemu_bmc.Base.{
  ℕ, suc, ◌+◌, ◌-◌, ◌*◌, ◌/◌, ◌%◌, ◌≡◌, ◌<◌, ◌∙◌, Bytes, [], ◌∷◌, ◌++◌, arith, length,
  length-append, total-append, sum_bytes, sum_bytes-total, negate8, shl8, bit_or, ltb-false,
  ltb-true, take-length_append,
}
use qemu_bmc.Base.Bits.{or_lun}
use qemu_bmc.Ipmi.Types.{ok}
use qemu_bmc.Ipmi.VmProtocol.{vm_checksum, vm_parse_ipmi_request, vm_build_ipmi_response}

sum_with_checksum : (bs : Bytes) → sum_bytes 0 (bs ++ (vm_checksum bs ∷ [])) % 256 ≡ 0
unfolding vm_checksum
sum_with_checksum bs = omega (
  arith,
  sum_bytes-total (bs ++ (negate8 (sum_bytes 0 bs) ∷ [])) 0,
  total-append bs (negate8 (sum_bytes 0 bs) ∷ []),
  sum_bytes-total bs 0,
)

-- The parser of requests on a message with a good checksum.
parse_request_body :
    (a b c d : ℕ) (payload : Bytes) (sum : ℕ)
    → sum_bytes 0 (a ∷ b ∷ c ∷ d ∷ (payload ++ (sum ∷ []))) % 256 ≡ 0
    → vm_parse_ipmi_request (a ∷ b ∷ c ∷ d ∷ (payload ++ (sum ∷ [])))
      ≡ ok (record { seq = a; net_fn = b / 4 % 64; lun = b % 4; cmd = c; payload = d ∷ payload })
unfolding vm_parse_ipmi_request
parse_request_body a b c d payload sum good =
    let n = length (payload ++ (sum ∷ [])) in
    let count : n ≡ length payload + 1 = length-append payload (sum ∷ []) in
    let minus : suc (suc (suc (suc n))) - 4 ≡ n = omega arith in
    rw (
      ltb-false (suc (suc (suc (suc n)))) 4 (omega arith),
      good,
      ltb-true 4 (suc (suc (suc (suc n)))) (omega arith),
      minus,
      take-length_append n (d ∷ payload) (sum ∷ []) (omega arith),
    )

-- A response that the BMC builds has a good checksum and the layout that the parser expects: the
-- parser reads back the sequence number, the network function, the unit and the command, and then
-- the completion code with the data.
pub vm_parse-vm_build :
    (seq net_fn lun cmd cc : ℕ) (payload : Bytes)
    → net_fn < 64
    → lun < 4
    → vm_parse_ipmi_request (vm_build_ipmi_response seq net_fn lun cmd cc payload)
      ≡ ok (record { seq = seq; net_fn = net_fn; lun = lun; cmd = cmd; payload = cc ∷ payload })
unfolding vm_build_ipmi_response
vm_parse-vm_build seq net_fn lun cmd cc payload hn hl =
    let second = bit_or (shl8 net_fn 2) (lun % 4) in
    let shifted : shl8 net_fn 2 ≡ net_fn * 4 = omega arith in
    let low : lun % 4 ≡ lun = omega arith in
    let joined : second ≡ net_fn * 4 + lun = rw (shifted, low) (or_lun net_fn lun hn hl) in
    let fn : second / 4 % 64 ≡ net_fn = omega arith in
    let unit : second % 4 ≡ lun = omega arith in
    parse_request_body seq second cmd cc payload _
      (sum_with_checksum (seq ∷ second ∷ cmd ∷ cc ∷ payload))
    ∙ rw (fn, unit)
