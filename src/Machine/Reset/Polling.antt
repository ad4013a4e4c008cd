-- ===== src/Machine/Reset/Polling.antt =====
-- waitForQMP always comes to an end: its deadline is over before the rounds are.
use qemu_bmc.Base.{ℕ, zero, suc, ◌+◌, ◌*◌, ◌<◌, ◌≤◌, ◌≡◌, ◌≢◌, ◌⊎◌, refl, inl, inr, arith}
use qemu_bmc.Machine.Host.{Host, ClockLaws, blocks}
use qemu_bmc.Machine.Reset.{
  Poll, connected, timed_out, blocked, out_of_fuel, poll_qmp, wait_for_qmp,
}

module _ {W : Type 0} (h : Host W) (laws : ClockLaws h) where
  poll_qmp-ends :
      (fuel deadline : ℕ) (w : W)
      → ((v : W) → (h.qmp.connect v).1 ≢ blocks)
      → deadline < h.now w + 100 * fuel
      → let r = (poll_qmp h (suc fuel) deadline w).1 in (r ≢ out_of_fuel) × (r ≢ blocked)
  unfolding poll_qmp
  poll_qmp-ends zero deadline w back within = ground (arith, laws.connect_monotone w, back w)
  poll_qmp-ends (suc fuel) deadline w back within =
      let w1 = (h.qmp.connect w).0 in
      ground (
        arith,
        laws.connect_monotone w,
        back w,
        poll_qmp-ends fuel deadline (h.sleep 100 w1) back
            (omega (arith, laws.connect_monotone w, laws.sleep_advances 100 w1)),
      )

  end_of : (r : Poll) → (r ≢ out_of_fuel) × (r ≢ blocked) → (r ≡ connected) ⊎ (r ≡ timed_out)
  end_of connected left = inl refl
  end_of timed_out left = inr refl
  end_of blocked left = absurd (left.1 refl)
  end_of out_of_fuel left = absurd (left.0 refl)

  -- waitForQMP returns for every timeout of at most 30 s, by a connection or by the timeout, when
  -- every call of Connect returns, time.Sleep sleeps and the clock does not run backwards.
  pub wait_for_qmp-ends :
      (timeout : ℕ) (w : W)
      → timeout ≤ 30000
      → ((v : W) → (h.qmp.connect v).1 ≢ blocks)
      → let r = (wait_for_qmp h timeout w).1 in (r ≡ connected) ⊎ (r ≡ timed_out)
  unfolding wait_for_qmp
  wait_for_qmp-ends timeout w short back =
      end_of _ (poll_qmp-ends 301 (h.now w + timeout) w back (omega arith))
