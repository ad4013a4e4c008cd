-- ===== src/Ipmi/User/Names.antt =====
-- Get User Name after Set User Name.
use qemu_bmc.Base.{
  ℕ, zero, suc, ◌%◌, ◌≡◌, ◌≤◌, ◌<◌, refl, sym, ap, ◌∙◌, Bytes, [], ◌∷◌, ◌++◌, arith, length,
  length-take, length-drop, take, drop, byte_at, ◌==◌, ltb-false, replicate, Bool-cases, inl, inr,
}
use qemu_bmc.Bmc.State.{State, UserSlot, slot, set_slot}
use qemu_bmc.Bmc.Invariant.{HasShape, InRange, slot-set_slot_self}
use qemu_bmc.Bmc.Users.Passwords.{set_user_name_at, get_user_name_at}
use qemu_bmc.Ipmi.Env.{reply}
use qemu_bmc.Ipmi.Types.Code
use qemu_bmc.Ipmi.User.{trim_right_nul, handle_set_user_name, handle_get_user_name}

-- A field of zero bytes.
abbrev zeros : ℕ → Bytes
zeros n = replicate n 0

take-zeros : (k m : ℕ) → k ≤ m → take k (zeros m) ≡ zeros k
take-zeros zero m h = refl
take-zeros (suc k) zero h = absurd (omega arith)
take-zeros (suc k) (suc m) h = ap (λ (t : Bytes). 0 ∷ t) (take-zeros k m (omega arith))

-- One byte in front of a field whose trimmed rest is known.
pad_trim_step :
    (b : ℕ) (bs trimmed : Bytes) (k m : ℕ)
    → trim_right_nul bs ≡ trimmed
    → k < m
    → take k (trimmed ++ zeros m) ≡ bs
    → take (suc k) (trim_right_nul (b ∷ bs) ++ zeros m) ≡ b ∷ bs
pad_trim_step b bs [] k m e h ih = elim (Bool-cases (b == 0)) [
  | inl nul ↦
      let is_zero : b ≡ 0 = ground arith in
      rw (e, nul, is_zero)
        (take-zeros (suc k) m h
          ∙ ap (λ (t : Bytes). 0 ∷ t) (sym (take-zeros k m (omega arith)) ∙ ih))
  | inr other ↦ rw (e, other, ih)
]
pad_trim_step b bs (x ∷ xs) k m e h ih = rw e (ap (λ (t : Bytes). b ∷ t) ih)

-- Trimming the trailing zeros and padding with zeros gives the field back.
pub pad_trim :
    (bs : Bytes) (k m : ℕ) → length bs ≡ k → k ≤ m → take k (trim_right_nul bs ++ zeros m) ≡ bs
pad_trim [] zero m e h = refl
pad_trim [] (suc k) m e h = absurd (omega arith)
pad_trim (b ∷ bs) zero m e h = absurd (omega arith)
pad_trim (b ∷ bs) (suc k) m e h =
    pad_trim_step b bs (trim_right_nul bs) k m refl h (pad_trim bs k m (omega arith) (omega arith))

length_field : (req : Bytes) → 17 ≤ length req → length (take 16 (drop 1 req)) ≡ 16
length_field req h = omega (arith, length-take 16 (drop 1 req), length-drop 1 req)

-- Set User Name with 17 bytes or more for a slot from 1 to 15 succeeds, and Get User Name for that
-- slot then answers exactly the 16 bytes of the name field.
pub get-set_user_name :
    (req ask : Bytes) (s : State)
    → HasShape s
    → 17 ≤ length req
    → 1 ≤ length ask
    → InRange (byte_at req 0 % 64)
    → byte_at ask 0 % 64 ≡ byte_at req 0 % 64
    → let (s', r) = handle_set_user_name req s in
      (r ≡ reply Code.ok []) × (handle_get_user_name ask s' ≡ reply Code.ok (take 16 (drop 1 req)))
unfolding handle_set_user_name handle_get_user_name
get-set_user_name req ask s sh long some_ask r same =
    let id = byte_at req 0 % 64 in
    let u : UserSlot = record (slot s id) { name = trim_right_nul (take 16 (drop 1 req)) } in
    rw
      (
        ltb-false (length req) 17 long,
        set_user_name_at s id (trim_right_nul (take 16 (drop 1 req))) r,
      )
      (
        refl,
        rw (
          ltb-false (length ask) 1 some_ask,
          same,
          get_user_name_at (set_slot s id u) id r,
          slot-set_slot_self s id u sh r,
          pad_trim (take 16 (drop 1 req)) 16 16 (length_field req long) (omega arith),
        ),
      )
