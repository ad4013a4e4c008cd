-- ===== src/Firmware/Progress.antt =====
-- The progress that a firmware update reports.
use qemu_bmc.Base.{
  Result, ok, err, ℕ, ◌≤◌, List, [], ◌∷◌, arith, Bool-cases, Result-cases, inl, inr, take,
}
use qemu_bmc.Firmware.{
  Client, Package, FirmwareError, UpdateRequest, fetch, parse, flash, install, run, applies_to,
}

-- The percentages in the order in which they are reported.
abbrev pub reports : List ℕ
reports = 10 ∷ 30 ∷ 50 ∷ 70 ∷ []

module _ {W T : Type 0} (client : Client W) (progress : ℕ → T → T) where
  abbrev pub apply_reports : List ℕ → T → T
  apply_reports [] t = t
  apply_reports (p ∷ ps) t = apply_reports ps (progress p t)

  -- A run that made the first `n` reports, all four of them if it succeeded.
  pub data Reported (t : T) : W × T × Result FirmwareError Package → Type 0 where
    failed_after :
        (n : ℕ) (w : W) (e : FirmwareError)
        → n ≤ 4
        → Reported t (w, apply_reports (take n reports) t, err e)
    installed : (w : W) (pkg : Package) → Reported t (w, apply_reports reports t, ok pkg)

  install-Reported :
      (req : UpdateRequest) (pkg : Package) (w : W) (t : T)
      → Reported t (install client progress req pkg w t)
  unfolding install flash
  install-Reported req pkg w t =
      let w1 = (client.wait_step w).0 in
      let w2 = (client.wait_step w1).0 in
      let w3 = (client.wait_step w2).0 in
      elim (Bool-cases (applies_to req.targets pkg.component)) [
        | inr other ↦ rw (install, other) (failed_after 0 w _ (omega arith))
        | inl fits ↦ elim (Bool-cases (client.wait_step w).1) [
          | inl d1 ↦ rw (install, fits, flash, d1) (failed_after 1 _ _ (omega arith))
          | inr g1 ↦ elim (Bool-cases (client.wait_step w1).1) [
            | inl d2 ↦ rw (install, fits, flash, g1, d2) (failed_after 2 _ _ (omega arith))
            | inr g2 ↦ elim (Bool-cases (client.wait_step w2).1) [
              | inl d3 ↦ rw (install, fits, flash, g1, g2, d3) (failed_after 3 _ _ (omega arith))
              | inr g3 ↦ elim (Bool-cases (client.wait_step w3).1) [
                | inl d4 ↦
                    rw (install, fits, flash, g1, g2, g3, d4) (failed_after 4 _ _ (omega arith))
                | inr g4 ↦ rw (install, fits, flash, g1, g2, g3, g4) (installed _ pkg)
              ]
            ]
          ]
        ]
      ]

  -- A firmware update reports 10, 30, 50 and 70 percent in this order and nothing else: all four
  -- when it succeeds, and the first few, or none, when it fails.
  pub run-Reported :
      (req : UpdateRequest) (w : W) (t : T) → Reported t (run client progress req w t)
  unfolding run
  run-Reported req w t = elim (Result-cases (fetch client req w).1) [
    | inl (e, bad) ↦ rw (run, bad) (failed_after 0 _ e (omega arith))
    | inr (bytes, good) ↦ elim (Result-cases (parse (client.unmarshal bytes))) [
      | inl (e, bad) ↦ rw (run, good, bad) (failed_after 0 _ e (omega arith))
      | inr (pkg, valid) ↦ rw (run, good, valid) (install-Reported req pkg (fetch client req w).0 t)
    ]
  ]
