-- ===== src/Ipmi/Padding.antt =====
-- internal/ipmi/rmcp_plus.go: the confidentiality trailer and AES-CBC-128 around it.
pub mod RoundTrip
use qemu_bmc.Base.{
  ℕ, zero, suc, ◌+◌, ◌-◌, ◌%◌, Bytes, Bool, [], ◌∷◌, ◌++◌, Option, none, some, ltb, leb, ◌==◌, not,
  length, take, drop, byte_at, if◌then◌else◌,
}
use qemu_bmc.Ipmi.Env.{Platform, Ctx, rand_read}
use qemu_bmc.Ipmi.Types.{Outcome, ok, err, panic, too_short, misaligned, bad_padding, random_failed}

-- `padding[i] = byte(i + 1)` for the bytes in front of the last, which are n in number; `i` counts up.
unfoldable pub count_up : ℕ → ℕ → Bytes
count_up zero i = []
count_up (suc n) i = (i % 256) ∷ count_up n (i + 1)

-- padSize - 1 counting bytes, and the byte that says how many they are.
unfoldable pub padding : ℕ → Bytes
padding pad_size = count_up (pad_size - 1) 1 ++ ((pad_size - 1) % 256 ∷ [])

unfoldable pub pad_payload : Bytes → Bytes
unfolding padding
pad_payload bs = bs ++ padding (16 - length bs % 16)

unfoldable pub unpad_payload : Bytes → Outcome Bytes
unpad_payload bs =
    let pad_len = byte_at bs (length bs - 1) in
    if length bs == 0
    then err too_short
    else if leb (length bs) pad_len
    then err bad_padding
    else ok (take (length bs - pad_len - 1) bs)

-- `key[:16]` is a run-time panic on a key shorter than 16 bytes, such as the nil key of a session
-- that is not authenticated yet.
module _ (p : Platform) where
  unfoldable pub decrypt_aes_cbc : Bytes → Bytes → Outcome Bytes
  decrypt_aes_cbc key bs =
      if ltb (length bs) 16
      then err too_short
      else if ltb (length key) 16
      then panic
      else if not (length (drop 16 bs) % 16 == 0)
      then err misaligned
      else unpad_payload (p.aes_cbc_decrypt (take 16 key) (take 16 bs) (drop 16 bs))

  unfoldable pub encrypt_aes_cbc : {M : Type 0} → Bytes → Bytes → Ctx M → Ctx M × Outcome Bytes
  unfolding rand_read
  encrypt_aes_cbc key plaintext c =
      let (c1, drawn) = rand_read p 16 c in
      if ltb (length key) 16 then (c, panic) else elim drawn [
        | none ↦ (c1, err random_failed)
        | some iv ↦ (c1, ok (iv ++ p.aes_cbc_encrypt (take 16 key) iv (pad_payload plaintext)))
      ]
