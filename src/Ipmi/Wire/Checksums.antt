-- ===== src/Ipmi/Wire/Checksums.antt =====
-- The two checksums of an IPMI message that the BMC builds.
use qemu_bmc.Base.{
  ℕ, ◌+◌, ◌%◌, ◌^◌, ◌≡◌, Bytes, [], ◌∷◌, ◌++◌, arith, take, drop, total, total-append, sum_bytes,
  sum_bytes-total, negate8,
}
use qemu_bmc.Ipmi.Wire.{build_ipmi_response_message_with_seq, checksum}

-- The header checksum makes the first three bytes of a response add up to 0 modulo 256, and the
-- data checksum does so for all bytes from the fourth on.
pub response_checksums :
    (net_fn cmd code : ℕ) (payload : Bytes) (seq_lun : ℕ)
    → let msg = build_ipmi_response_message_with_seq net_fn cmd code payload seq_lun in
      (total (take 3 msg) % 256 ≡ 0) × (total (drop 3 msg) % 256 ≡ 0)
unfolding build_ipmi_response_message_with_seq
response_checksums net_fn cmd code payload seq_lun =
    let start = (0x20 + seq_lun + cmd + code) % 2 ^ 32 in
    (
      omega arith,
      omega (
        arith,
        total-append payload (negate8 (sum_bytes start payload) ∷ []),
        sum_bytes-total payload start,
      ),
    )

-- Checksum appended to its input makes the sum 0 modulo 256.
pub checksum_cancels : (bs : Bytes) → total (bs ++ (checksum bs ∷ [])) % 256 ≡ 0
unfolding checksum
checksum_cancels bs =
    omega (arith, total-append bs (negate8 (sum_bytes 0 bs) ∷ []), sum_bytes-total bs 0)
