-- ===== src/OsdRemove/Spec/Zap.antt =====
-- checkDeviceZapping of spec_handler.go.
pub mod Conditions
use pelagia.Prelude.{
  String, Bool, true, false, not, ◌&&◌, ◌||◌, ◌++◌, any, Option, none, some, List, [], ◌∷◌, Assoc,
  insert, lookup, lookup_or, drop_prefix, has_key, contains, has_prefix, is_empty, ◌==◌,
  if◌then◌else◌,
}
use pelagia.Task.{DeviceInfo, OsdMapping}
use pelagia.Common.Objects.{StorageNode, StorageDevice}
use pelagia.Common.Disks.{OsdDaemonInfo, OsdDevice, OsdPartition, path_dev_prepended}
use pelagia.Common.World.{Env}
use pelagia.OsdRemove.Jobs.Build.{is_lvm_rook_made, text_or}
use pelagia.OsdRemove.Spec.Metadata.{on_node}

-- The decision of `checkDeviceZapping` on a disk that is there, and its warnings.
module _ (host osd : String) (locked : List String) (allow : Bool) where
  abbrev parted_warning : DeviceInfo → String
  parted_warning info = on_node host (
      "found osd " ∷ info.type ∷ " partition '" ∷ info.partition ∷ "' for osd '" ∷ osd
      ∷ "', which is placed on top of another partition '" ∷ info.parted_by ∷ "', skipping disk zap"
      ∷ [])

  abbrev manual_warning : DeviceInfo → String
  manual_warning info = on_node host (
      "found osd " ∷ info.type ∷ " partition '" ∷ info.partition ∷ "' for osd '" ∷ osd
      ∷ "', which is created not by rook, skipping disk/partition zap" ∷ [])

  abbrev pub may_drop : DeviceInfo → Bool
  may_drop info = is_lvm_rook_made info.partition || allow

  unfoldable pub zap_device : String → DeviceInfo → DeviceInfo
  zap_device device info =
      if not info.alive
      then info
      else if info.raw
      then record info { zap = true }
      else if not (info.parted_by == "")
      then record info { zap = false }
      else if contains locked device
      then record info { zap = false }
      else record info { zap = may_drop info }

  unfoldable pub zap_warnings : DeviceInfo → List String
  zap_warnings info =
      if not info.alive || info.raw
      then []
      else if not (info.parted_by == "")
      then parted_warning info ∷ []
      else if may_drop info
      then []
      else manual_warning info ∷ []

  unfoldable pub zap_devices : Assoc DeviceInfo → Assoc DeviceInfo
  zap_devices [] = []
  zap_devices ((device, info) ∷ devices) = (device, zap_device device info) ∷ zap_devices devices

  unfoldable pub zap_all_warnings : Assoc DeviceInfo → List String
  zap_all_warnings [] = []
  zap_all_warnings ((device, info) ∷ devices) = zap_warnings info ++ zap_all_warnings devices

-- `checkDeviceZapping`: the new mapping and the warnings.
unfoldable pub check_device_zapping :
    String → Assoc OsdMapping → List String → Bool → Assoc OsdMapping × List String
check_device_zapping host [] locked allow = ([], [])
check_device_zapping host ((osd, m) ∷ osds) locked allow =
    let (rest, warnings) = check_device_zapping host osds locked allow in
    if m.skip_device_cleanup_job then ((osd, m) ∷ rest, warnings) else (
      (osd, record m { device_mapping = zap_devices host osd locked allow m.device_mapping })
          ∷ rest,
      zap_all_warnings host osd locked allow m.device_mapping ++ warnings,
    )
