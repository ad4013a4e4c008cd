-- ===== src/Ipmi/Chassis/BootOptions.antt =====
-- Set and Get System Boot Options on the machine of internal/machine/machine.go.
use qemu_bmc.Base.{
  ℕ, ◌/◌, ◌%◌, ◌≤◌, ◌≡◌, refl, ap, inl, inr, Bytes, true, false, [], ◌∷◌, none, ltb, ltb-false,
  length, byte_at, bit_set, shl8, Bool-cases, if◌then◌else◌, arith,
}
use qemu_bmc.Ipmi.Channel.{or_flag}
use qemu_bmc.Ipmi.Chassis.{
  device_target, target_device, requested_override, boot_flags_reply, handle_set_boot_options,
  handle_get_boot_options,
}
use qemu_bmc.Ipmi.Env.{reply}
use qemu_bmc.Ipmi.Types.Code
use qemu_bmc.Machine.Boot.{is_valid_target, is_valid_enabled, set_boot_override, get_boot_override}
use qemu_bmc.Machine.Host.{Host, Machine}
use qemu_bmc.Machine.Interface.{machine_interface}

-- The device numbers that stand for a boot target.
pub data IsDevice : ℕ → Type 0 where
  no_device : IsDevice 0x00
  pxe : IsDevice 0x01
  hdd : IsDevice 0x02
  cd : IsDevice 0x05
  bios_setup : IsDevice 0x06

-- The boot flags that the request asks for: valid bit, UEFI bit and device.
pub flags_of : Bytes → Bytes
flags_of req =
    0x01
    ∷ 0x85
    ∷ or_flag (bit_set (byte_at req 1) 5) 0x20 (if bit_set (byte_at req 1) 7 then 0x80 else 0)
    ∷ shl8 (byte_at req 2 / 4 % 16) 2
    ∷ 0
    ∷ 0
    ∷ 0
    ∷ []

device-round : (dev : ℕ) → IsDevice dev → target_device (device_target dev) ≡ dev
unfolding target_device device_target
device-round _ no_device = refl
device-round _ pxe = refl
device-round _ hdd = refl
device-round _ cd = refl
device-round _ bios_setup = refl

flags-round :
    (req : Bytes)
    → IsDevice (byte_at req 2 / 4 % 16)
    → boot_flags_reply (requested_override req) ≡ flags_of req
unfolding boot_flags_reply requested_override flags_of
flags-round req device = elim (Bool-cases (bit_set (byte_at req 1) 7)) [
  | inl b7 ↦ elim (Bool-cases (bit_set (byte_at req 1) 5)) [
    | inl b5 ↦ rw (b7, b5, device-round _ device) refl
    | inr b5 ↦ rw (b7, b5, device-round _ device) refl
  ]
  | inr b7 ↦ elim (Bool-cases (bit_set (byte_at req 1) 5)) [
    | inl b5 ↦ rw (b7, b5, device-round _ device) refl
    | inr b5 ↦ rw (b7, b5, device-round _ device) refl
  ]
]

valid_device : (dev : ℕ) → IsDevice dev → is_valid_target (device_target dev) ≡ true
unfolding device_target
valid_device _ no_device = refl
valid_device _ pxe = refl
valid_device _ hdd = refl
valid_device _ cd = refl
valid_device _ bios_setup = refl

valid_request : (req : Bytes) → is_valid_enabled (requested_override req).enabled ≡ true
unfolding requested_override
valid_request req = elim (Bool-cases (bit_set (byte_at req 1) 7)) [
  | inl b7 ↦ rw b7 refl
  | inr b7 ↦ rw b7 refl
]

stores :
    {W : Type 0} (req : Bytes) (m : Machine W)
    → IsDevice (byte_at req 2 / 4 % 16)
    → set_boot_override (requested_override req) m
      ≡ (record m { boot_override = requested_override req }, none)
unfolding set_boot_override requested_override
stores req m device = rw (valid_device _ device, valid_request req) refl

module _ {W : Type 0} (h : Host W) where
  get_stored :
      (req rest : Bytes) (m : Machine W)
      → IsDevice (byte_at req 2 / 4 % 16)
      → handle_get_boot_options
          (machine_interface h)
          (5 ∷ rest)
          (record m { boot_override = requested_override req })
        ≡ reply Code.ok (flags_of req)
  unfolding handle_get_boot_options get_boot_override
  get_stored req rest m device =
      let asked : ltb (length (5 ∷ rest)) 1 ≡ false = ground arith in
      rw asked (ap (reply Code.ok) (flags-round req device))

  -- Boot flags for one of the five devices are stored and read back: Set answers OK, and Get of
  -- parameter 5 then answers the valid bit, the UEFI bit and the device of the request.
  pub get-set_boot_options :
      (req rest : Bytes) (m : Machine W)
      → 6 ≤ length req
      → byte_at req 0 % 128 ≡ 5
      → IsDevice (byte_at req 2 / 4 % 16)
      → let (m', r) = handle_set_boot_options (machine_interface h) req m in
        (r ≡ reply Code.ok [])
        × (handle_get_boot_options (machine_interface h) (5 ∷ rest) m'
            ≡ reply Code.ok (flags_of req))
  unfolding handle_set_boot_options
  get-set_boot_options req rest m long five device =
      rw
        (
          ltb-false (length req) 1 (omega arith),
          five,
          ltb-false (length req) 6 long,
          stores req m device,
        )
        (refl, get_stored req rest m device)
