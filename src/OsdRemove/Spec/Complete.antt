-- ===== src/OsdRemove/Spec/Complete.antt =====
-- verifyOsdsForCleanUp of spec_handler.go: the complete cleanup of a host, and that of its stray
-- partitions.
use pelagia.Prelude.{
  ℕ, String, Bool, true, false, ◌&&◌, ◌||◌, ◌++◌, none, some, List, [], ◌∷◌, Assoc, insert, ◌==◌,
  if◌then◌else◌,
}
use pelagia.Task.{DeviceInfo}
use pelagia.Common.Disks.{OsdDaemonInfo}
use pelagia.Common.World.{Env}
use pelagia.OsdRemove.Spec.Metadata.{ClusterOsds, uuid_of}
use pelagia.OsdRemove.Spec.Devices.{
  UsedDevices, InSpec, device_in_spec, get_devs_info_from_daemon_info,
}
use pelagia.OsdRemove.Spec.Hosts.{OsdHostInfo}
use pelagia.OsdRemove.Spec.Volumes.{
  known_mappings, check_from_crush, is_stray_in_crush, identified, volume_mapping, stray_key,
  stray_warning, add_volume, device_names, Scan, locked_with,
}

abbrev pub is_found : InSpec → Bool
is_found none = false
is_found (some _) = true

module _ (k : ClusterOsds) (host : String) where
  -- The volume of an OSD that is not the host's: a stray, no longer to be removed by its id.
  abbrev settle_stray : String → OsdDaemonInfo → Bool → Assoc Bool → Assoc Bool
  settle_stray osd vol stray strays =
      if stray || vol.osd_uuid == uuid_of k osd then insert osd false strays else strays

  -- A volume that is to be cleaned up, with its devices; `vol` is identified already.
  unfoldable pub plan_volume :
      Bool → Bool → Bool → Assoc DeviceInfo → String → OsdDaemonInfo → Scan → Scan
  plan_volume in_crush stray skip devices osd vol s =
      let key = if in_crush then osd else stray_key osd vol.osd_uuid in
      record s {
        warnings = if in_crush then s.warnings else s.warnings ++ stray_warning host osd vol ∷ [];
        strays = if in_crush then s.strays else settle_stray osd vol stray s.strays;
        osds =
            add_volume key devices (volume_mapping k vol (stray || in_crush) skip devices) s.osds;
      }

  module _ (env : Env) (h : OsdHostInfo) (used : UsedDevices) (stray_mode : Bool)
      (known : Assoc ℕ) where
    unfoldable pub complete_volume : String → OsdDaemonInfo → Scan → Scan
    complete_volume osd vol s =
        let in_crush = check_from_crush k known osd vol in
        let stray = is_stray_in_crush k s.strays osd vol in
        if stray_mode && in_crush
        then (if h.in_spec && is_found (device_in_spec env vol used "")
            then locked_with (device_names vol) s
            else s)
        else plan_volume in_crush stray false (get_devs_info_from_daemon_info vol) osd
            (identified k (stray || in_crush) osd vol) s

    unfoldable pub complete_volumes : String → List OsdDaemonInfo → Scan → Scan
    complete_volumes osd [] s = s
    complete_volumes osd (vol ∷ vols) s = complete_volumes osd vols (complete_volume osd vol s)

    unfoldable pub complete_osds : Assoc (List OsdDaemonInfo) → Scan → Scan
    complete_osds [] s = s
    complete_osds ((osd, vols) ∷ more) s = complete_osds more (complete_volumes osd vols s)

    -- `CompleteCleanup`, `DropFromCrush` and `CleanupStrayPartitions`
    unfoldable pub clean_completely : Assoc (List OsdDaemonInfo) → Scan → Scan
    clean_completely report s =
        complete_osds report
          (if stray_mode then s else record s { osds = known_mappings k known s.osds })
