-- ===== src/Ipmi/Padding/RoundTrip.antt =====
-- The confidentiality trailer is removed exactly, and encryption is undone by decryption.
use qemu_bmc.Base.{
  ℕ, zero, suc, ◌+◌, ◌-◌, ◌%◌, ◌≡◌, ◌≤◌, ◌<◌, refl, sym, ap, ◌∙◌, Bytes, [], ◌∷◌, ◌++◌, arith,
  length, length-append, take, get_or, ltb-false, Option-cases, inl, inr, take-length_append,
  drop-length_append,
}
use mathlib.Core.List.{append_assoc}
use qemu_bmc.Ipmi.Env.{Platform, PlatformLaws, Ctx}
use qemu_bmc.Ipmi.Padding.{count_up, pad_payload, unpad_payload, decrypt_aes_cbc, encrypt_aes_cbc}
use qemu_bmc.Ipmi.Types.{ok}

length-count_up : (n i : ℕ) → length (count_up n i) ≡ n
unfolding count_up
length-count_up zero i = refl
length-count_up (suc n) i = ap suc (length-count_up n (i + 1))

last-append : (xs : Bytes) (y : ℕ) → get_or (xs ++ (y ∷ [])) (length xs) 0 ≡ y
last-append [] y = refl
last-append (x ∷ xs) y = last-append xs y

pub pad_size_bounds : (n : ℕ) → (1 ≤ 16 - n % 16) × (16 - n % 16 ≤ 16)
pad_size_bounds n = omega arith

-- The padded text as what is in front of the count byte, and the count byte.
pad_payload_parts :
    (bs : Bytes)
    → let k = 16 - length bs % 16 in
      pad_payload bs ≡ (bs ++ count_up (k - 1) 1) ++ ((k - 1) % 256 ∷ [])
unfolding pad_payload
pad_payload_parts bs = sym (append_assoc bs _ _)

length_front :
    (bs : Bytes)
    → let k = 16 - length bs % 16 in length (bs ++ count_up (k - 1) 1) ≡ length bs + (k - 1)
length_front bs =
    let k = 16 - length bs % 16 in
    omega (arith, length-append bs (count_up (k - 1) 1), length-count_up (k - 1) 1)

-- Padding fills up to whole blocks of 16 bytes and adds 1 to 16 bytes.
pub length-pad_payload :
    (bs : Bytes)
    → (length (pad_payload bs) % 16 ≡ 0)
      × (length bs < length (pad_payload bs))
      × (length (pad_payload bs) ≤ length bs + 16)
length-pad_payload bs =
    let k = 16 - length bs % 16 in
    let size : length (pad_payload bs) ≡ length bs + k = rw (pad_payload_parts bs) (
      omega
        (arith, length-append (bs ++ count_up (k - 1) 1) ((k - 1) % 256 ∷ []), length_front bs)) in
    rw size (omega arith)

-- What was padded is read back, for a payload of any length.
pub unpad-pad : (bs : Bytes) → unpad_payload (pad_payload bs) ≡ ok bs
unfolding unpad_payload
unpad-pad bs =
    let k = 16 - length bs % 16 in
    let front = bs ++ count_up (k - 1) 1 in
    let count = (k - 1) % 256 in
    let size : length (front ++ (count ∷ [])) ≡ length front + 1 =
      length-append front (count ∷ []) in
    let last : get_or (front ++ (count ∷ [])) (length (front ++ (count ∷ [])) - 1) 0 ≡ count =
      rw size (rw (plus_minus (length front)) (last-append front count)) in
    let cut : length (front ++ (count ∷ [])) - count - 1 ≡ length bs =
      omega (arith, length_front bs) in
    let body : take (length bs) (front ++ (count ∷ [])) ≡ bs =
      rw (append_assoc bs (count_up (k - 1) 1) (count ∷ []))
        (take-length_append (length bs) bs _ refl) in
    rw (pad_payload_parts bs)
      (unpad_at front count bs size last cut body (omega (arith, length_front bs)))
  where
    plus_minus : (n : ℕ) → n + 1 - 1 ≡ n
    plus_minus n = omega arith

    unpad_at :
        (front : Bytes) (count : ℕ) (bs : Bytes)
        → length (front ++ (count ∷ [])) ≡ length front + 1
        → get_or (front ++ (count ∷ [])) (length (front ++ (count ∷ [])) - 1) 0 ≡ count
        → length (front ++ (count ∷ [])) - count - 1 ≡ length bs
        → take (length bs) (front ++ (count ∷ [])) ≡ bs
        → count < length front + 1
        → unpad_payload (front ++ (count ∷ [])) ≡ ok bs
    unpad_at front count bs size last cut body small = ground arith

decrypt_parts :
    (p : Platform) (key iv cipher : Bytes)
    → 16 ≤ length key
    → length iv ≡ 16
    → length cipher % 16 ≡ 0
    → decrypt_aes_cbc p key (iv ++ cipher)
      ≡ unpad_payload (p.aes_cbc_decrypt (take 16 key) iv cipher)
unfolding decrypt_aes_cbc
decrypt_parts p key iv cipher long block whole = rw (
  ltb-false (length (iv ++ cipher)) 16 (omega (arith, length-append iv cipher)),
  ltb-false (length key) 16 long,
  drop-length_append 16 iv cipher block,
  whole,
  take-length_append 16 iv cipher block,
)

-- A message that was encrypted with a drawn vector is decrypted to itself under the same key,
-- given the laws of the platform and a key of at least 16 bytes.
pub decrypt-encrypt_aes_cbc :
    {M : Type 0} (p : Platform) (laws : PlatformLaws p) (key bs sealed : Bytes) (c : Ctx M)
    → 16 ≤ length key
    → (encrypt_aes_cbc p key bs c).1 ≡ ok sealed
    → decrypt_aes_cbc p key sealed ≡ ok bs
unfolding encrypt_aes_cbc
decrypt-encrypt_aes_cbc p laws key bs sealed c long e = elim (Option-cases (p.random c.draws 16)) [
  | inl failed ↦ ground arith
  | inr (iv, drawn) ↦
      let cipher : Bytes = p.aes_cbc_encrypt (take 16 key) iv (pad_payload bs) in
      let whole : length (pad_payload bs) % 16 ≡ 0 = (length-pad_payload bs).0 in
      let size : length cipher ≡ length (pad_payload bs) =
        laws.length-aes_cbc_encrypt (take 16 key) iv (pad_payload bs) whole in
      let same : sealed ≡ iv ++ cipher = ground arith in
      rw same (
        decrypt_parts p key iv cipher long (laws.length-random c.draws 16 iv drawn) (rw size whole)
        ∙ rw (laws.decrypt-encrypt (take 16 key) iv (pad_payload bs) whole) (unpad-pad bs))
]
