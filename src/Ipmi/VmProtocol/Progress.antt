-- ===== src/Ipmi/VmProtocol/Progress.antt =====
-- Reading a message uses up input.
use qemu_bmc.Base.{
  ℕ, ◌<◌, ◌≤◌, ◌==◌, ◌||◌, ◌++◌, Bytes, [], ◌∷◌, length, arith, Bool-cases, inl, inr,
}
use qemu_bmc.Ipmi.Types.{ok, err, panic, read_failed}
use qemu_bmc.Ipmi.VmProtocol.{
  msg_char, cmd_char, Read, message, closed, failed, finish_message, read_message,
  vm_unescape_bytes,
}

-- What is left behind a message is shorter than the input.
abbrev pub Shorter : ℕ → Read → Type 0
Shorter n (message t bs rest) = length rest < n
Shorter n closed = Unit {0}
Shorter n (failed e) = Unit {0}

finish-Shorter :
    (n t : ℕ) (buf rest : Bytes) → length rest < n → Shorter n (finish_message t buf rest)
finish-Shorter n t buf rest h =
    elim (vm_unescape_bytes buf)
      as (λ r.
        Shorter n
          (elim r [ ok bs ↦ message t bs rest | err e ↦ failed e | panic ↦ failed read_failed ])) [
            | ok bs ↦ h
            | err e ↦ tt
            | panic ↦ tt
          ]

pub read_message-Shorter :
    (n : ℕ) (buf input : Bytes) → length input ≤ n → Shorter n (read_message buf input)
unfolding read_message
read_message-Shorter n buf [] h = tt
read_message-Shorter n buf (b ∷ rest) h = elim (Bool-cases (b == msg_char || b == cmd_char)) [
  | inl end ↦ rw end (finish-Shorter n b buf rest (omega arith))
  | inr more ↦ rw more (read_message-Shorter n (buf ++ (b ∷ [])) rest (omega arith))
]
