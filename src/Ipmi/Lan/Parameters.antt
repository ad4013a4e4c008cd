-- ===== src/Ipmi/Lan/Parameters.antt =====
-- Set and Get LAN Configuration Parameters: which parameters may be written, and what is read then.
use qemu_bmc.Base.{
  ℕ, ◌≡◌, ◌≤◌, ap, Bytes, Bool, true, false, [], ◌∷◌, some, arith, length, drop, byte_at, ◌==◌,
  ◌||◌, ◌&&◌, if◌then◌else◌, not, lookup-insert, Bool-cases, inl, inr, ◌⊎◌,
}
use qemu_bmc.Bmc.State.{State}
use qemu_bmc.Bmc.Config.{get_lan_config, set_lan_config}
use qemu_bmc.Ipmi.Env.{Reply, reply}
use qemu_bmc.Ipmi.Lan.{
  contains, supported_lan_params, read_only_lan_params, lan_config_revision,
  handle_get_lan_config_params, handle_set_lan_config_params,
}
use qemu_bmc.Ipmi.Types.Code

-- A parameter that may be written: supported, not the Set In Progress flag, and not read-only.
abbrev pub is_writable : ℕ → Bool
is_writable param =
    not (param == 0 || contains read_only_lan_params param) && contains supported_lan_params param

get-set_lan_config_state :
    (s : State) (param other : ℕ) (value : Bytes)
    → get_lan_config (set_lan_config param value s) other
      ≡ (if param == other then some value else get_lan_config s other)
unfolding get_lan_config set_lan_config
get-set_lan_config_state s param other value = lookup-insert param other value s.lan_config

set_refused :
    (req : Bytes) (s : State)
    → is_writable (byte_at req 1) ≡ false
    → (handle_set_lan_config_params req s).0 ≡ s
unfolding handle_set_lan_config_params
set_refused req s h = ground arith

set_accepted :
    (req : Bytes) (s : State)
    → 2 ≤ length req
    → is_writable (byte_at req 1) ≡ true
    → handle_set_lan_config_params req s
      ≡ (set_lan_config (byte_at req 1) (drop 2 req) s, reply Code.ok [])
unfolding handle_set_lan_config_params
set_accepted req s long h = ground arith

get_after_set :
    (ask value : Bytes) (param : ℕ) (s : State)
    → 4 ≤ length ask
    → is_writable param ≡ true
    → handle_get_lan_config_params ask (set_lan_config param value s) ≡ (
        if param == byte_at ask 1
        then reply Code.ok (lan_config_revision ∷ value)
        else handle_get_lan_config_params ask s)
unfolding handle_get_lan_config_params
get_after_set ask value param s long h =
    ground (arith, get-set_lan_config_state s param (byte_at ask 1) value)

-- Set LAN Configuration Parameters changes the state for a writable parameter alone. Get for it then
-- answers the revision and the bytes that were sent; Get for another parameter answers as before.
pub get-set_lan_config :
    (req ask : Bytes) (s : State)
    → 2 ≤ length req
    → 4 ≤ length ask
    → let (s', r) = handle_set_lan_config_params req s in
      ((is_writable (byte_at req 1) ≡ false) × (s' ≡ s))
      ⊎ ((is_writable (byte_at req 1) ≡ true)
          × (r ≡ reply Code.ok [])
          × (handle_get_lan_config_params ask s' ≡ (
              if byte_at req 1 == byte_at ask 1
              then reply Code.ok (lan_config_revision ∷ drop 2 req)
              else handle_get_lan_config_params ask s)))
get-set_lan_config req ask s long some_ask = elim (Bool-cases (is_writable (byte_at req 1))) [
  | inr refused ↦ inl (refused, set_refused req s refused)
  | inl writable ↦ inr (
    writable,
    ap (λ (q : State × Reply). q.1) (set_accepted req s long writable),
    rw (set_accepted req s long writable)
        (get_after_set ask (drop 2 req) (byte_at req 1) s some_ask writable),
  )
]
