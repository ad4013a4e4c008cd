-- ===== src/Firmware.antt =====
-- internal/firmware/firmware.go: packages, their download and the simulated flash. The HTTP client,
-- json.Unmarshal and the select on the flash timer are operations over the outside world `W`; the
-- progress callback acts on a state `T` of the caller.
pub mod Progress
pub mod Download
use Prim.Native.String.{String}
use text.Mathlib.Text.{◌==◌ as str_eq}
use qemu_bmc.Base.{
  Result, ok, err, ℕ, zero, suc, ◌+◌, ◌*◌, ◌/◌, Bytes, Bool, true, false, List, [], ◌∷◌, Option,
  none, some, not, ltb, ◌==◌, length, take, if◌then◌else◌, ◌||◌, ◌&&◌,
}

pub data Component : Type 0 where
  bios bmc : Component

-- What json.Unmarshal reads, and the package that passed the checks.
pub record RawPackage : Type 0 where
  pub component : String
  pub version : String

pub record Package : Type 0 where
  pub component : Component
  pub version : String

pub data FirmwareError : Type 0 where
  invalid_json unsupported_component version_required : FirmwareError
  target_mismatch context_done invalid_uri download_failed : FirmwareError
  bad_status : ℕ → FirmwareError
  too_large : FirmwareError

pub record UpdateRequest : Type 0 where
  pub image_uri : String
  pub username : String
  pub password : String
  pub targets : List Component

-- The status of a response, and its body, `none` when reading fails.
pub record Response : Type 0 where
  pub status : ℕ
  pub body : Option Bytes

pub record Client (W : Type 0) : Type 0 where
  pub is_valid_uri : String → Bool
  pub do_get : String → Option (String × String) → W → W × Option Response
  pub unmarshal : Bytes → Option RawPackage
  -- The select of one flash step: `true` when the context is done first.
  pub wait_step : W → W × Bool

abbrev pub max_package_size : ℕ
max_package_size = 65536

abbrev pub flash_steps : ℕ
flash_steps = 4

abbrev pub component_of : String → Option Component
component_of c = if str_eq c "BIOS" then some bios else if str_eq c "BMC" then some bmc else none

-- Parse, behind the decoding.
unfoldable pub parse : Option RawPackage → Result FirmwareError Package
parse none = err invalid_json
parse (some raw) = elim (component_of raw.component) [
  | none ↦ err unsupported_component
  | some c ↦
      if str_eq raw.version ""
      then err version_required
      else ok (record { component = c; version = raw.version })
]

abbrev pub same_component : Component → Component → Bool
same_component bios bios = true
same_component bios bmc = false
same_component bmc bios = false
same_component bmc bmc = true

abbrev pub has_component : List Component → Component → Bool
has_component [] c = false
has_component (t ∷ ts) c = same_component t c || has_component ts c

-- Empty targets leave the choice to the package.
abbrev pub applies_to : List Component → Component → Bool
applies_to [] c = true
applies_to (t ∷ ts) c = has_component (t ∷ ts) c

abbrev pub basic_auth : UpdateRequest → Option (String × String)
basic_auth req =
    if not (str_eq req.username "") || not (str_eq req.password "")
    then some (req.username, req.password)
    else none

-- io.ReadAll behind a LimitReader of one byte more than a package may have.
unfoldable pub read_limited : Option Bytes → Result FirmwareError Bytes
read_limited none = err download_failed
read_limited (some body) =
    let data_read = take (max_package_size + 1) body in
    if ltb max_package_size (length data_read) then err too_large else ok data_read

unfoldable pub read_response : Option Response → Result FirmwareError Bytes
read_response none = err download_failed
read_response (some r) =
    if not (r.status == 200) then err (bad_status r.status) else read_limited r.body

module _ {W : Type 0} (client : Client W) where
  unfoldable pub fetch : UpdateRequest → W → W × Result FirmwareError Bytes
  fetch req w =
      let (w', response) = client.do_get req.image_uri (basic_auth req) w in
      if client.is_valid_uri req.image_uri
      then (w', read_response response)
      else (w, err invalid_uri)

module _ {W T : Type 0} (client : Client W) where
  -- The flash loop from step `i` on: a report after each step but the last.
  unfoldable pub flash :
      ℕ → ℕ → (ℕ → T → T) → Package → W → T → W × T × Result FirmwareError Package
  flash zero i progress pkg w t = (w, t, ok pkg)
  flash (suc rounds) i progress pkg w t =
      let (w', is_done) = client.wait_step w in
      let t' = if ltb i flash_steps then progress (10 + i * 80 / flash_steps) t else t in
      let rest = flash rounds (i + 1) progress pkg w' t' in
      if is_done then (w', t, err context_done) else rest

  unfoldable pub install :
      (ℕ → T → T) → UpdateRequest → Package → W → T → W × T × Result FirmwareError Package
  install progress req pkg w t =
      if not (applies_to req.targets pkg.component)
      then (w, t, err target_mismatch)
      else flash flash_steps 1 progress pkg w (progress 10 t)

  unfoldable pub run : (ℕ → T → T) → UpdateRequest → W → T → W × T × Result FirmwareError Package
  run progress req w t =
      let (w', fetched) = fetch client req w in
      elim fetched [
        | err e ↦ (w', t, err e)
        | ok bytes ↦ elim (parse (client.unmarshal bytes)) [
          | err e ↦ (w', t, err e)
          | ok pkg ↦ install progress req pkg w' t
        ]
      ]
