-- ===== src/Ipmi/VmProtocol/Escape.antt =====
-- Escaping is undone by unescaping, hides the terminators, and so frames a message.
use qemu_bmc.Base.{
  ℕ, ◌≡◌, refl, ◌∙◌, ◌⊎◌, inl, inr, Bytes, Bool, true, false, [], ◌∷◌, ◌++◌, ◌==◌, ◌||◌, Bool-cases,
  All, bit_or, bit_and, arith,
}
use mathlib.Core.List.{append_assoc, append-nil}
use qemu_bmc.Ipmi.Types.{ok, ◌>>=◌}
use qemu_bmc.Ipmi.VmProtocol.{
  msg_char, cmd_char, escape_char, is_special, vm_escape_bytes, vm_unescape_bytes, message,
  finish_message, read_message,
}

special_cases :
    (b : ℕ) → is_special b ≡ true → (b ≡ msg_char) ⊎ ((b ≡ cmd_char) ⊎ (b ≡ escape_char))
unfolding is_special
special_cases b h = ground arith

abbrev pub is_terminator : ℕ → Bool
is_terminator b = b == msg_char || b == cmd_char

-- Both bytes that stand for a special byte are no terminators, and bit 4 is all that was set.
escaped_special :
    (b : ℕ)
    → is_special b ≡ true
    → (bit_and (bit_or b 0x10) 0xEF ≡ b) × (is_terminator (bit_or b 0x10) ≡ false)
escaped_special b h = elim (special_cases b h) [
  | inl e ↦ rw e (refl, refl)
  | inr (inl e) ↦ rw e (refl, refl)
  | inr (inr e) ↦ rw e (refl, refl)
]

plain_byte :
    (b : ℕ) → is_special b ≡ false → ((b == escape_char) ≡ false) × (is_terminator b ≡ false)
unfolding is_special
plain_byte b h = ground arith

unescape_plain :
    (b : ℕ) (bs : Bytes)
    → (b == escape_char) ≡ false
    → vm_unescape_bytes (b ∷ bs) ≡ (vm_unescape_bytes bs >>= λ r. ok (b ∷ r))
unfolding vm_unescape_bytes
unescape_plain b [] h = rw h
unescape_plain b (c ∷ cs) h = rw (h, vm_unescape_bytes)

unescape_pair :
    (c : ℕ) (cs : Bytes)
    → vm_unescape_bytes (escape_char ∷ c ∷ cs)
      ≡ (vm_unescape_bytes cs >>= λ r. ok (bit_and c 0xEF ∷ r))
unfolding vm_unescape_bytes
unescape_pair c cs = refl

-- Unescaping an escaped byte string gives it back.
pub unescape-escape : (bs : Bytes) → vm_unescape_bytes (vm_escape_bytes bs) ≡ ok bs
unfolding vm_escape_bytes
unescape-escape [] = unfold vm_unescape_bytes in refl
unescape-escape (b ∷ bs) = elim (Bool-cases (is_special b)) [
  | inl special ↦ rw special (
      unescape_pair (bit_or b 0x10) (vm_escape_bytes bs)
      ∙ rw (unescape-escape bs, (escaped_special b special).0))
  | inr plain ↦
      rw plain
        (unescape_plain b (vm_escape_bytes bs) (plain_byte b plain).0 ∙ rw (unescape-escape bs))
]

-- No terminator stands in an escaped byte string.
pub escape_hides : (bs : Bytes) → All (λ b. is_terminator b ≡ false) (vm_escape_bytes bs)
unfolding vm_escape_bytes
escape_hides [] = tt
escape_hides (b ∷ bs) = elim (Bool-cases (is_special b)) [
  | inl special ↦ rw special (refl, ((escaped_special b special).1, escape_hides bs))
  | inr plain ↦ rw plain ((plain_byte b plain).1, escape_hides bs)
]

read_message_skips :
    (xs : Bytes) (buf : Bytes) (t : ℕ) (rest : Bytes)
    → All (λ b. is_terminator b ≡ false) xs
    → is_terminator t ≡ true
    → read_message buf (xs ++ (t ∷ rest)) ≡ finish_message t (buf ++ xs) rest
unfolding read_message
read_message_skips [] buf t rest h term = rw (term, append-nil)
read_message_skips (x ∷ xs) buf t rest h term =
    rw h.0 (read_message_skips xs (buf ++ (x ∷ [])) t rest h.1 term ∙ rw append_assoc)

-- A byte string that is escaped and ended by a terminator is read as one message with exactly its
-- bytes, and the reader stops right behind the terminator.
pub read_message-escape :
    (bs : Bytes) (t : ℕ) (rest : Bytes)
    → is_terminator t ≡ true
    → read_message [] (vm_escape_bytes bs ++ (t ∷ rest)) ≡ message t bs rest
read_message-escape bs t rest term =
    read_message_skips (vm_escape_bytes bs) [] t rest (escape_hides bs) term
    ∙ rw (unescape-escape bs, finish_message)
