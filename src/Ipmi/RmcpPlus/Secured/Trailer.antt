-- ===== src/Ipmi/RmcpPlus/Secured/Trailer.antt =====
-- The trailer of an authenticated response, and the outbound sequence number.
use qemu_bmc.Base.{
  ℕ, ◌<◌, le16, le32, ◌+◌, ◌%◌, ◌^◌, ◌≡◌, refl, ◌∙◌, ap, Bytes, true, [], ◌∷◌, ◌++◌, arith, length,
  length-append, length-replicate, length-take, take, replicate,
}
use qemu_bmc.Ipmi.Env.{Platform, PlatformLaws}
use qemu_bmc.Ipmi.RmcpPlus.Secured.{pad_needed, integrity_signed, with_integrity, secured_response}
use qemu_bmc.Ipmi.RmcpPlus.Wrap.{build_rmcp_plus_encrypted_response, wrap_rmcp_plus_response}
use qemu_bmc.Ipmi.Session.{Session}

-- Pad, pad length and next header fill what is signed up to a multiple of four bytes.
pub length-integrity_signed :
    (resp : Bytes)
    → (length (integrity_signed resp) % 4 ≡ 0)
      × (length (integrity_signed resp) ≡ length resp + pad_needed (length resp) + 2)
unfolding integrity_signed
length-integrity_signed resp =
    let pad = pad_needed (length resp) in
    let size : length (integrity_signed resp) ≡ length resp + pad + 2 = omega (
      arith,
      length-append resp (replicate pad 0xFF ++ (pad % 256 ∷ 0x07 ∷ [])),
      length-append (replicate pad 0xFF) (pad % 256 ∷ 0x07 ∷ []),
      length-replicate {A = ℕ} pad 0xFF,
    ) in
    (unfold pad_needed in rw size (omega arith), size)

length-mac :
    (p : Platform) (laws : PlatformLaws p) (key msg : Bytes)
    → length (take 12 (p.hmac_sha1 key msg)) ≡ 12
length-mac p laws key msg =
    omega (arith, length-take 12 (p.hmac_sha1 key msg), laws.length-hmac_sha1 key msg)

pub length-wrap :
    (kind id seq : ℕ) (payload : Bytes)
    → length (wrap_rmcp_plus_response kind id seq payload) ≡ 12 + length payload
unfolding wrap_rmcp_plus_response
length-wrap kind id seq payload = omega arith

-- An answer with the authentication bit advances the session's outbound number by one modulo 2^32
-- and changes nothing else in the session. The message with that number is filled up by fewer than
-- four bytes 0xFF, their number and the next header 0x07 to a multiple of four bytes, and the first 12
-- bytes of the HMAC of all of this under the session's integrity key follow.
pub secured_response_authenticated :
    (p : Platform) (laws : PlatformLaws p) (kind : ℕ) (payload : Bytes) (s : Session)
    → let (s', out) = secured_response p true kind payload s in
      let seq = (s.outbound_sequence_number + 1) % 2 ^ 32 in
      let message =
        0x06
        ∷ kind
        ∷ (le32 s.remote_console_session_id ++ (le32 seq ++ (le16 (length payload) ++ payload))) in
      (s' ≡ record s { outbound_sequence_number = seq })
      × ((k : ℕ) × (signed : Bytes) × (k < 4)
          × (signed ≡ message ++ (replicate k 0xFF ++ (k ∷ 0x07 ∷ [])))
          × (length signed % 4 ≡ 0)
          × (out ≡ signed ++ take 12 (p.hmac_sha1 s.integrity_key signed))
          × (length out ≡ length signed + 12))
unfolding secured_response with_integrity
secured_response_authenticated p laws kind payload s =
    let (s', resp) = build_rmcp_plus_encrypted_response s kind payload in
    let k = pad_needed (length resp) in
    let small : k < 4 = unfold pad_needed in omega arith in
    let same : k % 256 ≡ k = omega (arith, small) in
    let mac = take 12 (p.hmac_sha1 s.integrity_key (integrity_signed resp)) in
    unfold build_rmcp_plus_encrypted_response in
    (
      refl,
      (
        k,
        integrity_signed resp,
        small,
        unfold integrity_signed wrap_rmcp_plus_response in rw (same) refl,
        (length-integrity_signed resp).0,
        refl,
        length-append (integrity_signed resp) mac
            ∙ ap (λ n. length (integrity_signed resp) + n)
                (length-mac p laws s.integrity_key (integrity_signed resp)),
      ),
    )
