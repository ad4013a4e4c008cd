-- ===== src/Machine/Validity.antt =====
-- The boot override over the life of a machine: whatever is called, it stays one that
-- SetBootOverride would accept.
use Prim.Native.String.{String}
use qemu_bmc.Base.{ℕ, ◌≡◌, refl, true, none, arith, Bool-cases, inl, inr, Option}
use qemu_bmc.Machine.Boot.{
  is_valid_target, is_valid_enabled, new_machine, set_boot_override, consume_boot_once,
}
use qemu_bmc.Machine.Host.{Host, Machine, set_graceful_shutdown_timeout}
use qemu_bmc.Machine.Media.{insert_media, eject_media}
use qemu_bmc.Machine.Power.{get_power_state, get_qmp_status}
use qemu_bmc.Machine.Reset.{reset}
use qemu_bmc.Machine.Reset.Override.{Keeps, kept, used_up, used, reset-Keeps, consume-Keeps}
use qemu_bmc.Machine.Types.{BootOverride, MachineError}

abbrev pub IsValid : BootOverride → Type 0
IsValid o = (is_valid_target o.target ≡ true) × (is_valid_enabled o.enabled ≡ true)

-- The machines that calls of the exported methods lead to, from a new one; the host holds the
-- timeout that SetGracefulShutdownTimeout sets.
pub data Reached {W : Type 0} : Host W → Machine W → Type 0 where
  created : (h : Host W) (w : W) → Reached h (new_machine w)
  by_timeout :
      {h : Host W} {m : Machine W} (d : ℕ)
      → Reached h m
      → Reached (set_graceful_shutdown_timeout d h) m
  by_set :
      {h : Host W} {m : Machine W} (o : BootOverride)
      → Reached h m
      → Reached h (set_boot_override o m).0
  by_consume : {h : Host W} {m : Machine W} → Reached h m → Reached h (consume_boot_once m)
  by_reset :
      {h : Host W} {m : Machine W} (kind : String) → Reached h m → Reached h (reset h kind m).0
  by_power_state : {h : Host W} {m : Machine W} → Reached h m → Reached h (get_power_state h m).0
  by_status : {h : Host W} {m : Machine W} → Reached h m → Reached h (get_qmp_status h m).0
  by_insert :
      {h : Host W} {m : Machine W} (image : String)
      → Reached h m
      → Reached h (insert_media h image m).0
  by_eject : {h : Host W} {m : Machine W} → Reached h m → Reached h (eject_media h m).0

module _ {W : Type 0} (h : Host W) where
  set-IsValid :
      (o : BootOverride) (m : Machine W)
      → IsValid m.boot_override
      → IsValid (set_boot_override o m).0.boot_override
  unfolding set_boot_override
  set-IsValid o m valid = elim (Bool-cases (is_valid_target o.target)) [
    | inl target ↦ elim (Bool-cases (is_valid_enabled o.enabled)) [
      | inl enabled ↦ rw (target, enabled) (target, enabled)
      | inr bad ↦ rw (target, bad) valid
    ]
    | inr bad ↦ rw bad valid
  ]

  Keeps-IsValid :
      (o : BootOverride) (r : Machine W × Option MachineError)
      → Keeps o r
      → IsValid o
      → IsValid r.0.boot_override
  Keeps-IsValid o r (kept e) valid = rw e valid
  Keeps-IsValid o r (used_up done once e) valid = rw e (unfold used in (refl, refl))

  power_state_override : (m : Machine W) → (get_power_state h m).0.boot_override ≡ m.boot_override
  unfolding get_power_state
  power_state_override m = ground arith

  status_override : (m : Machine W) → (get_qmp_status h m).0.boot_override ≡ m.boot_override
  unfolding get_qmp_status
  status_override m = ground arith

  insert_override :
      (image : String) (m : Machine W) → (insert_media h image m).0.boot_override ≡ m.boot_override
  unfolding insert_media
  insert_override image m = ground arith

  eject_override : (m : Machine W) → (eject_media h m).0.boot_override ≡ m.boot_override
  unfolding eject_media
  eject_override m = refl

-- Every machine that was created by New or NewWithProcess and used through its exported methods has
-- a boot override with a valid target and a valid enabled value.
pub Reached-IsValid :
    {W : Type 0} {h : Host W} {m : Machine W} → Reached h m → IsValid m.boot_override
Reached-IsValid (created h w) = unfold new_machine in (refl, refl)
Reached-IsValid (by_timeout d r) = Reached-IsValid r
Reached-IsValid (by_set {h} {m} o r) = set-IsValid h o m (Reached-IsValid r)
Reached-IsValid (by_consume {h} {m} r) =
    Keeps-IsValid h m.boot_override (consume_boot_once m, none) (consume-Keeps m)
      (Reached-IsValid r)
Reached-IsValid (by_reset {h} {m} kind r) =
    Keeps-IsValid h m.boot_override (reset h kind m) (reset-Keeps h kind m) (Reached-IsValid r)
Reached-IsValid (by_power_state {h} {m} r) = rw (power_state_override h m) (Reached-IsValid r)
Reached-IsValid (by_status {h} {m} r) = rw (status_override h m) (Reached-IsValid r)
Reached-IsValid (by_insert {h} {m} image r) = rw (insert_override h image m) (Reached-IsValid r)
Reached-IsValid (by_eject {h} {m} r) = rw (eject_override h m) (Reached-IsValid r)
