-- ===== src/Ipmi/Server/Datagrams.antt =====
-- The loop of the LAN server: it goes on behind every datagram that does not end the process.
use qemu_bmc.Base.{ℕ, ◌≡◌, refl, Bytes, false, List, [], ◌∷◌, ◌++◌, take, arith}
use qemu_bmc.Ipmi.Env.{Platform, MachineInterface}
use qemu_bmc.Ipmi.RmcpPlus.Wrap.{ServerState}
use qemu_bmc.Ipmi.Server.{handle_message, serve}

module _ {M : Type 0} (mi : MachineInterface M) (p : Platform) (user pass : Bytes) where
  -- If no datagram of a first group ends the process, the server handles a second group from the
  -- state that the first one left, and its answers come behind those to the first.
  pub serve-append :
      (xs ys : List (ℕ × Bytes)) (st : ServerState M)
      → (serve mi p user pass xs st).1 ≡ false
      → let (st', _, sent) = serve mi p user pass xs st in
        let (st'', crashed, more) = serve mi p user pass ys st' in
        serve mi p user pass (xs ++ ys) st ≡ (st'', crashed, sent ++ more)
  unfolding serve
  serve-append [] ys st alive = refl
  serve-append ((addr, bs) ∷ xs) ys st alive =
      let st' = (handle_message mi p user pass (take 1024 bs) st).0 in
      ground (arith, serve-append xs ys st')
