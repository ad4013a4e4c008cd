-- ===== src/Ipmi/VmServer/Connection.antt =====
-- The loop of HandleConnection: it ends, and it answers one message after the other.
use qemu_bmc.Base.{ℕ, zero, suc, ◌<◌, ◌≡◌, ◌≢◌, refl, Bytes, [], ◌∷◌, ◌++◌, length, arith}
use qemu_bmc.Ipmi.Env.{Platform, MachineInterface}
use qemu_bmc.Ipmi.VmProtocol.{
  msg_char, vm_escape_bytes, Read, message, closed, failed, read_message,
}
use qemu_bmc.Ipmi.VmProtocol.Escape.{read_message-escape}
use qemu_bmc.Ipmi.VmProtocol.Progress.{Shorter, read_message-Shorter}
use qemu_bmc.Ipmi.VmServer.{VmState, handle_frame, handle_connection, out_of_fuel, handle_ipmi_msg}

module _ {M : Type 0} (mi : MachineInterface M) (p : Platform) where
  -- HandleConnection's loop ends on every input: with a round for each byte and one more, the model
  -- never runs out of fuel.
  pub handle_connection-ends :
      (fuel : ℕ) (input : Bytes) (vs : VmState M)
      → length input < fuel
      → (handle_connection mi p fuel input vs).2 ≢ out_of_fuel
  unfolding handle_connection
  handle_connection-ends zero input vs h = absurd (omega arith)
  handle_connection-ends (suc fuel) input vs h =
      elim (read_message [] input)
          as (λ (r : Read).
            read_message [] input ≡ r
            → Shorter (length input) r
            → (handle_connection mi p (suc fuel) input vs).2 ≢ out_of_fuel) [
              | closed ↦ λ e s. rw (handle_connection, e) (λ x. cc)
              | failed f ↦ λ e s. rw (handle_connection, e) (λ x. cc)
              | message terminator bs rest ↦ λ e s.
                  rw (handle_connection, e)
                    (handle_connection-ends fuel rest (handle_frame mi p terminator bs vs).0
                      (omega arith))
            ]
        refl (read_message-Shorter (length input) [] input (omega arith))

  -- A message that is escaped and ended by 0xA0 is handled as one request, and the connection goes
  -- on with what stands behind it: the answers are written one after the other.
  pub handle_connection-frame :
      (fuel : ℕ) (bs rest : Bytes) (vs : VmState M)
      → handle_connection mi p (suc fuel) (vm_escape_bytes bs ++ (msg_char ∷ rest)) vs ≡ (
          let (vs', out) = handle_ipmi_msg mi p bs vs in
          let (vs'', more, ended) = handle_connection mi p fuel rest vs' in
          (vs'', out ++ more, ended))
  unfolding handle_connection
  handle_connection-frame fuel bs rest vs =
      rw (handle_connection, read_message-escape bs msg_char rest refl)
        (unfold handle_frame in refl)
