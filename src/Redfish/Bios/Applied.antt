-- ===== src/Redfish/Bios/Applied.antt =====
-- Patched BIOS settings and the reset that applies them, together.
use qemu_bmc.Base.{
  ◌≡◌, refl, ap, Bytes, Bool, true, false, [], ◌∷◌, Option, none, some, Bool-cases, Option-cases,
  inl, inr, bytes_eq, bytes_eq→eq, if◌then◌else◌, arith,
}
use qemu_bmc.Base.Maps.{Map, get, copy, or_else, get-copy}
use qemu_bmc.Firmware.{Component}
use qemu_bmc.Redfish.Bios.{is_immediate, pending_of, immediate_of, set_all, patch_bios}
use qemu_bmc.Redfish.Server.{Server, activate_staged_firmware}

module _ (reset_required : Bytes → Option Bool) where
  same_immediate :
      (a b : Bytes)
      → bytes_eq a b ≡ true
      → is_immediate reset_required a ≡ is_immediate reset_required b
  same_immediate a b e = ap (is_immediate reset_required) (bytes_eq→eq a b e)

module _ {V : Type 0} (reset_required : Bytes → Option Bool) where
  get-pending_of :
      (k : Bytes) (attrs : Map V)
      → get k (pending_of reset_required attrs)
        ≡ (if is_immediate reset_required k then none else get k attrs)
  unfolding get pending_of
  get-pending_of k [] = elim (Bool-cases (is_immediate reset_required k)) [
    | inl now ↦ rw (now)
    | inr later ↦ rw (later)
  ]
  get-pending_of k ((name, v) ∷ attrs) =
      ground (arith, get-pending_of k attrs, same_immediate reset_required k name)

  get-immediate_of :
      (k : Bytes) (attrs : Map V)
      → get k (immediate_of reset_required attrs)
        ≡ (if is_immediate reset_required k then get k attrs else none)
  unfolding get immediate_of
  get-immediate_of k [] = elim (Bool-cases (is_immediate reset_required k)) [
    | inl now ↦ rw (now)
    | inr later ↦ rw (later)
  ]
  get-immediate_of k ((name, v) ∷ attrs) =
      ground (arith, get-immediate_of k attrs, same_immediate reset_required k name)

module _ {V : Type 0} where
  or_else_assoc : (a b c : Option V) → or_else (or_else a b) c ≡ or_else a (or_else b c)
  or_else_assoc none b c = refl
  or_else_assoc (some x) b c = refl

module _ {M V : Type 0} where
  -- The loop writes to the live attributes and to nothing else.
  pub set_all_lem :
      (attrs : Map V) (s : Server M V)
      → set_all attrs s ≡ record s { bios_attrs = copy attrs s.bios_attrs }
  unfolding set_all copy
  set_all_lem [] s = refl
  set_all_lem ((name, v) ∷ attrs) s = rw (set_all_lem attrs s) refl

  pub activate_keeps_attrs :
      (c : Component) (s : Server M V) → (activate_staged_firmware c s).bios_attrs ≡ s.bios_attrs
  unfolding activate_staged_firmware
  activate_keeps_attrs c s = ground arith

  pub activate_keeps_pending :
      (c : Component) (s : Server M V)
      → (activate_staged_firmware c s).bios_pending_attrs ≡ s.bios_pending_attrs
  unfolding activate_staged_firmware
  activate_keeps_pending c s = ground arith

module _ {M V : Type 0} (reset_required : Bytes → Option Bool) where
  -- A setting that takes effect at once is never pending.
  abbrev pub ArePending : Server M V → Type 0
  ArePending s =
      (k : Bytes) (v : V)
      → get k s.bios_pending_attrs ≡ some v
      → is_immediate reset_required k ≡ false

  immediate_not_pending :
      (s : Server M V) (k : Bytes)
      → ArePending s
      → is_immediate reset_required k ≡ true
      → get k s.bios_pending_attrs ≡ none
  immediate_not_pending s k inv now = elim (Option-cases (get k s.bios_pending_attrs)) [
    | inl free ↦ free
    | inr (v, e) ↦ let p = inv k v e in cc
  ]

  patched_attrs :
      (attrs : Map V) (s : Server M V)
      → (patch_bios reset_required attrs s).bios_attrs
        ≡ copy (immediate_of reset_required attrs) s.bios_attrs
  unfolding patch_bios
  patched_attrs attrs s =
      ap (λ (q : Server M V). q.bios_attrs) (set_all_lem (immediate_of reset_required attrs) s)

  patched_pending :
      (attrs : Map V) (s : Server M V)
      → (patch_bios reset_required attrs s).bios_pending_attrs
        ≡ copy (pending_of reset_required attrs) s.bios_pending_attrs
  unfolding patch_bios
  patched_pending attrs s =
      ap (λ (q : Server M V). copy (pending_of reset_required attrs) q.bios_pending_attrs)
        (set_all_lem (immediate_of reset_required attrs) s)

  -- Every attribute, once what is pending after a patch is copied over what is live.
  pub patched-applied :
      (attrs : Map V) (s : Server M V) (k : Bytes)
      → ArePending s
      → let p = patch_bios reset_required attrs s in
        get k (copy p.bios_pending_attrs p.bios_attrs)
        ≡ or_else (get k attrs) (or_else (get k s.bios_pending_attrs) (get k s.bios_attrs))
  patched-applied attrs s k inv = elim (Bool-cases (is_immediate reset_required k)) [
    | inl now ↦ rw (
      patched_pending attrs s,
      patched_attrs attrs s,
      get-copy k (copy (pending_of reset_required attrs) s.bios_pending_attrs)
          (copy (immediate_of reset_required attrs) s.bios_attrs),
      get-copy k (pending_of reset_required attrs) s.bios_pending_attrs,
      get-copy k (immediate_of reset_required attrs) s.bios_attrs,
      get-pending_of reset_required k attrs,
      get-immediate_of reset_required k attrs,
      now,
      immediate_not_pending s k inv now,
    )
    | inr later ↦
        rw
          (
            patched_pending attrs s,
            patched_attrs attrs s,
            get-copy k (copy (pending_of reset_required attrs) s.bios_pending_attrs)
                (copy (immediate_of reset_required attrs) s.bios_attrs),
            get-copy k (pending_of reset_required attrs) s.bios_pending_attrs,
            get-copy k (immediate_of reset_required attrs) s.bios_attrs,
            get-pending_of reset_required k attrs,
            get-immediate_of reset_required k attrs,
            later,
          )
          (or_else_assoc (get k attrs) (get k s.bios_pending_attrs) (get k s.bios_attrs))
  ]
