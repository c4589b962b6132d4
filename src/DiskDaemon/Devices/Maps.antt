-- ===== src/DiskDaemon/Devices/Maps.antt =====
-- The scan of the block devices keeps one entry for each name.
use pelagia.Prelude.{String, Bool, true, false, List, [], IsMap, insert-IsMap, ◌==◌}
use pelagia.Common.World.{Result, ok, err}
use pelagia.DiskDaemon.Devices.{
  LsblkDevice, Devices, no_more, device, Scanned, with_lvm, names_of, bind_result, wrap_error,
  scan_links, loop_over_devices, scan_lsblk, process_lsblk_info,
}

-- The result, if there is one, has each name once.
abbrev pub HasBlocks : Result Scanned → Type 0
HasBlocks (ok s) = IsMap s.block_info
HasBlocks (err e) = Unit

if-HasBlocks :
    (b : Bool) (r q : Result Scanned)
    → HasBlocks r
    → HasBlocks q
    → HasBlocks (elim b [ true ↦ r | false ↦ q ])
if-HasBlocks true r q h k = h
if-HasBlocks false r q h k = k

bind_result-HasBlocks :
    (r : Result Scanned) (f : Scanned → Result Scanned)
    → HasBlocks r
    → ((s : Scanned) → IsMap s.block_info → HasBlocks (f s))
    → HasBlocks (bind_result r f)
bind_result-HasBlocks (ok s) f h k = k s h
bind_result-HasBlocks (err e) f h k = tt

wrap_error-HasBlocks :
    (texts : List String) (r : Result Scanned) → HasBlocks r → HasBlocks (wrap_error texts r)
wrap_error-HasBlocks texts (ok s) h = h
wrap_error-HasBlocks texts (err e) h = tt

with_lvm-IsMap :
    (b : Bool) (d : LsblkDevice) (s : Scanned)
    → IsMap s.block_info
    → IsMap (with_lvm b d s).block_info
with_lvm-IsMap true d s h = h
with_lvm-IsMap false d s h = h

module _ (udevadm : String → Result String) where
  scan_links-HasBlocks :
      (d : LsblkDevice) (children : List String) (text : Result String) (s : Scanned)
      → IsMap s.block_info
      → HasBlocks (scan_links udevadm d children text s)
  unfolding scan_links
  scan_links-HasBlocks d children (ok text) s h =
      insert-IsMap d.name _ _ (with_lvm-IsMap (d.type == "lvm") d _ h)
  scan_links-HasBlocks d children (err e) s h = tt

  loop_over_devices-HasBlocks :
      (ds : Devices) (s : Scanned) → IsMap s.block_info → HasBlocks (loop_over_devices udevadm ds s)
  unfolding loop_over_devices
  loop_over_devices-HasBlocks no_more s h = h
  loop_over_devices-HasBlocks (device d children rest) s h =
      if-HasBlocks (d.type == "loop") _ _ (loop_over_devices-HasBlocks rest s h) (
        bind_result-HasBlocks (loop_over_devices udevadm children s) _
          (loop_over_devices-HasBlocks children s h)
          (λ s₁ h₁.
            bind_result-HasBlocks (scan_links udevadm d (names_of children) (udevadm d.name) s₁) _
              (scan_links-HasBlocks d (names_of children) (udevadm d.name) s₁ h₁)
              (λ s₂ h₂. loop_over_devices-HasBlocks rest s₂ h₂)))

  scan_lsblk-HasBlocks : (ds : Devices) → HasBlocks (scan_lsblk udevadm ds)
  unfolding scan_lsblk
  scan_lsblk-HasBlocks no_more = tt
  scan_lsblk-HasBlocks (device d children rest) = wrap_error-HasBlocks _ _ (
      loop_over_devices-HasBlocks (device d children rest)
        (record { block_info = []; aliases = []; lvms = [] }) tt)

  pub process_lsblk_info-HasBlocks : (r : Result Devices) → HasBlocks (process_lsblk_info udevadm r)
  unfolding process_lsblk_info
  process_lsblk_info-HasBlocks (ok ds) = scan_lsblk-HasBlocks ds
  process_lsblk_info-HasBlocks (err e) = tt
