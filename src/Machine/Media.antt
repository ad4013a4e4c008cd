-- ===== src/Machine/Media.antt =====
-- InsertMedia and EjectMedia of internal/machine/machine.go.
use Prim.Native.String.{String}
use text.Mathlib.Text.{starts_with}
use qemu_bmc.Base.{Bool, ◌||◌, not, Option, none, some, if◌then◌else◌}
use qemu_bmc.Machine.Host.{Host, Machine}
use qemu_bmc.Machine.Types.{MachineError, fetch_error}

abbrev pub vmedia_local_path : String
vmedia_local_path = "/iso/vmedia.iso"

abbrev pub is_url : String → Bool
is_url image = starts_with image "http://" || starts_with image "https://"

module _ {W : Type 0} (h : Host W) where
  -- fetchMedia: a local path is returned as it is; an image of the web is downloaded.
  unfoldable pub fetch_media : String → W → W × Option MachineError × String
  fetch_media image w =
      let (w', e) = h.download image w in
      if not (is_url image)
      then (w, none, image)
      else elim e [ some x ↦ (w', some fetch_error, "") | none ↦ (w', none, vmedia_local_path) ]

  -- `if m.processManager != nil { m.processManager.SetMedia(image) }`
  unfoldable pub note_media : String → W → W
  note_media image w = elim h.process [ none ↦ w | some pm ↦ pm.set_media image w ]

  unfoldable pub insert_media : String → Machine W → Machine W × Option MachineError
  unfolding fetch_media note_media
  insert_media image m =
      let (w, failed, local) = fetch_media image m.world in
      let (w', e) = h.qmp.blockdev_change_medium "ide0-cd0" local (note_media local w) in
      elim failed [
        | some x ↦ (record m { world = w }, some x)
        | none ↦ (record m { world = w' }, e)
      ]

  unfoldable pub eject_media : Machine W → Machine W × Option MachineError
  unfolding note_media
  eject_media m =
      let w = h.remove_file vmedia_local_path (note_media "" m.world) in
      let (w', e) = h.qmp.blockdev_remove_medium "ide0-cd0" w in (record m { world = w' }, e)
