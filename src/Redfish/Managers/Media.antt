-- ===== src/Redfish/Managers/Media.antt =====
-- Virtual media as the manager shows it.
use Prim.Native.String.{String}
use qemu_bmc.Base.{◌≡◌, ◌≢◌, refl, true, false, some}
use qemu_bmc.Base.Texts.{text_differs}
use qemu_bmc.Redfish.Http.{document}
use qemu_bmc.Redfish.Managers.{
  done, handle_insert_media, handle_eject_media, handle_get_virtual_media,
}
use qemu_bmc.Redfish.Server.{Server, MachineInterface}

module _ {M V : Type 0} (mi : MachineInterface M) where
  -- After InsertMedia with an image the medium is shown as inserted from that URI, and after
  -- EjectMedia as not connected, whatever the machine answers to either.
  pub get-insert_media :
      (image : String) (s : Server M V)
      → image ≢ ""
      → let (s', r) = handle_insert_media mi (some image) s in
        (r ≡ document 200 done)
        × (handle_get_virtual_media s'
            ≡ document 200 (record { image = image; inserted = true; connected_via = "URI" }))
        × (handle_get_virtual_media (handle_eject_media mi s').0
            ≡ document 200
                (record { image = ""; inserted = false; connected_via = "NotConnected" }))
  unfolding handle_insert_media handle_get_virtual_media handle_eject_media
  get-insert_media image s given =
      let e = text_differs image "" given in
      (rw (handle_insert_media, e), rw (handle_insert_media, e, handle_get_virtual_media, e), refl)
