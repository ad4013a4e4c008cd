-- ===== src/Firmware/Download.antt =====
-- The package that an update installs is the one that was downloaded.
use Prim.Native.String.{String}
use text.Mathlib.Text.{◌==◌ as str_eq}
use text.Mathlib.TextEquality.{eq_iff}
use qemu_bmc.Base.{
  ok, ℕ, zero, suc, ◌+◌, ◌*◌, ◌/◌, ◌==◌, ◌≤◌, ◌≡◌, refl, ap, [], ◌∷◌, length-take, if◌then◌else◌,
  sym, ◌∙◌, Bytes, ltb, length, ◌⊎◌, Option, some, arith, Bool-cases, Option-cases, Result-cases,
  inl, inr, take,
}
use qemu_bmc.Firmware.{
  Client, Component, bios, bmc, Package, RawPackage, UpdateRequest, Response, basic_auth,
  component_of, parse, read_limited, read_response, fetch, flash, install, run, applies_to,
  max_package_size, flash_steps,
}

-- A package that the server of a request answers with: a 200 response whose body is read whole, and
-- the version and the component that stand in it.
pub record IsDownloaded {W : Type 0} (client : Client W) (req : UpdateRequest) (w : W)
    (pkg : Package) : Type 0 where
  pub body : Bytes
  pub raw : RawPackage
  pub answer :
      (client.do_get req.image_uri (basic_auth req) w).1
      ≡ some (record { status = 200; body = some body })
  pub fits : length body ≤ 65536
  pub decoded : client.unmarshal body ≡ some raw
  pub version : pkg.version ≡ raw.version
  pub component :
      ((pkg.component ≡ bios) × (raw.component ≡ "BIOS"))
      ⊎ ((pkg.component ≡ bmc) × (raw.component ≡ "BMC"))

component-inverts :
    (c : String) (k : Component)
    → component_of c ≡ some k
    → ((k ≡ bios) × (c ≡ "BIOS")) ⊎ ((k ≡ bmc) × (c ≡ "BMC"))
component-inverts c k e = elim (Bool-cases (str_eq c "BIOS")) [
  | inl b ↦ let p = rw (b) at e in inl (cc, (eq_iff c "BIOS").0 b)
  | inr nb ↦ elim (Bool-cases (str_eq c "BMC")) [
    | inl m ↦ let p = rw (nb, m) at e in inr (cc, (eq_iff c "BMC").0 m)
    | inr nm ↦ let p = rw (nb, nm) at e in cc
  ]
]

-- A package that Parse makes has the fields of what was decoded.
parse-inverts :
    (o : Option RawPackage) (pkg : Package)
    → parse o ≡ ok pkg
    → (raw : RawPackage) × (o ≡ some raw)
      × (component_of raw.component ≡ some pkg.component)
      × (pkg.version ≡ raw.version)
unfolding parse
parse-inverts o pkg e = elim (Option-cases o) [
  | inl nothing ↦ let p = rw (nothing) at e in cc
  | inr (raw, given) ↦ elim (Option-cases (component_of raw.component)) [
    | inl unknown ↦ let p = rw (given, parse, unknown) at e in cc
    | inr (c, known) ↦ elim (Bool-cases (str_eq raw.version "")) [
      | inl empty ↦ let p = rw (given, parse, known, empty) at e in cc
      | inr full ↦ let p = rw (given, parse, known, full) at e in (raw, given, known ∙ cc, cc)
    ]
  ]
]

take_all : (n : ℕ) (xs : Bytes) → length xs ≤ n → take n xs ≡ xs
take_all zero [] h = refl
take_all zero (x ∷ xs) h = absurd (omega arith)
take_all (suc n) [] h = refl
take_all (suc n) (x ∷ xs) h = ap (λ ys. x ∷ ys) (take_all n xs (omega arith))

-- A response that is read is a 200 whose body is no longer than a package may be.
read-inverts :
    (r : Option Response) (bytes : Bytes)
    → read_response r ≡ ok bytes
    → (r ≡ some (record { status = 200; body = some bytes })) × (length bytes ≤ 65536)
unfolding read_response read_limited
read-inverts r bytes e = elim (Option-cases r) [
  | inl lost ↦ let p = rw (lost) at e in cc
  | inr (resp, got) ↦ elim (Bool-cases (resp.status == 200)) [
    | inr bad ↦ let p = rw (got, read_response, bad) at e in cc
    | inl good ↦ elim (Option-cases resp.body) [
      | inl broken ↦ let p = rw (got, read_response, good, broken) at e in cc
      | inr (whole, read) ↦
          elim (Bool-cases (ltb max_package_size (length (take (max_package_size + 1) whole)))) [
            | inl long ↦ let p = rw (got, read_response, good, read, read_limited, long) at e in cc
            | inr short ↦
                let p = rw (got, read_response, good, read, read_limited, short) at e in
                let status : resp.status ≡ 200 = ground arith in
                let small : length whole ≤ 65536 =
                  ground (arith, length-take (max_package_size + 1) whole) in
                let same : whole ≡ bytes =
                  let q : take (max_package_size + 1) whole ≡ bytes = cc in
                  sym (take_all (max_package_size + 1) whole (omega (arith, small))) ∙ q in
                (
                  got
                      ∙ ap (λ n. some (record { status = n; body = resp.body })) status
                      ∙ ap (λ b. some (record { status = 200; body = b })) (read ∙ ap some same),
                  rw (← same) small,
                )
          ]
    ]
  ]
]

module _ {W T : Type 0} (client : Client W) (progress : ℕ → T → T) where
  flash_same :
      (rounds i : ℕ) (pkg p : Package) (w : W) (t : T)
      → (flash client rounds i progress pkg w t).2 ≡ ok p
      → pkg ≡ p
  unfolding flash
  flash_same zero i pkg p w t e = cc
  flash_same (suc rounds) i pkg p w t e =
      let w' = (client.wait_step w).0 in
      let t' = if ltb i flash_steps then progress (10 + i * 80 / flash_steps) t else t in
      elim (Bool-cases (client.wait_step w).1) [
        | inl is_done ↦ let q = rw (flash, is_done) at e in cc
        | inr goes_on ↦ flash_same rounds (i + 1) pkg p w' t' (rw (flash, goes_on) at e)
      ]

  -- The package that an update succeeds with is the one in the first answer of the image's server: a
  -- 200 response, a body of at most 65536 bytes that is decoded, and the version and the component
  -- BIOS or BMC that stand in it.
  pub run-IsDownloaded :
      (req : UpdateRequest) (w : W) (t : T) (pkg : Package)
      → (run client progress req w t).2 ≡ ok pkg
      → IsDownloaded client req w pkg
  unfolding run install fetch
  run-IsDownloaded req w t pkg e = elim (Result-cases (fetch client req w).1) [
    | inl (x, bad) ↦ let p = rw (run, bad) at e in cc
    | inr (bytes, good) ↦ elim (Result-cases (parse (client.unmarshal bytes))) [
      | inl (x, bad) ↦ let p = rw (run, good, bad) at e in cc
      | inr (found, valid) ↦ elim (Bool-cases (applies_to req.targets found.component)) [
        | inr other ↦ let p = rw (run, good, valid, install, other) at e in cc
        | inl fits ↦
            let p = rw (run, good, valid, install, fits) at e in
            let same : found ≡ pkg = flash_same 4 1 found pkg _ _ p in
            let (raw, decoded, component, version) = parse-inverts _ pkg (valid ∙ ap ok same) in
            elim (Bool-cases (client.is_valid_uri req.image_uri)) [
              | inr malformed ↦ let q = rw (fetch, malformed) at good in cc
              | inl uri ↦
                  let (answer, small) =
                    read-inverts (client.do_get req.image_uri (basic_auth req) w).1 bytes
                      (rw (fetch, uri) at good) in
                  record {
                    body = bytes;
                    raw = raw;
                    answer = answer;
                    fits = small;
                    decoded = decoded;
                    version = version;
                    component = component-inverts raw.component pkg.component component;
                  }
            ]
      ]
    ]
  ]
