-- ===== src/OsdRemove/Spec/ByOsd.antt =====
-- verifyOsdsForCleanUp of spec_handler.go: the cleanup of OSDs by their ids.
pub mod Denied
use pelagia.Prelude.{
  ℕ, String, Bool, true, false, not, any, none, some, List, [], ◌∷◌, Assoc, insert, has_key, merge,
  show_nat, ◌==◌, if◌then◌else◌,
}
use pelagia.Task.{DeviceInfo, OsdCleanupSpec}
use pelagia.Common.Disks.{OsdDaemonInfo}
use pelagia.Common.World.{Env}
use pelagia.OsdRemove.Spec.Metadata.{ClusterOsds, crush_mapping, on_node}
use pelagia.OsdRemove.Spec.Devices.{
  UsedDevices, InSpec, device_in_spec, get_devs_info_from_daemon_info,
}
use pelagia.OsdRemove.Spec.Hosts.{OsdHostInfo}
use pelagia.OsdRemove.Spec.Volumes.{
  meta_of, check_from_crush, spec_locks, device_names, Scan, warned, locked_with,
}

-- One OSD of the task: `devicesInfo` and `removeAllowed`.
pub record Pick : Type 0 where
  pub scan : Scan
  pub devices : Assoc DeviceInfo
  pub allow : Bool

abbrev pub pick_locked : List String → Pick → Pick
pick_locked devs p = record p { scan = locked_with devs p.scan }

abbrev pub pick_devices : OsdDaemonInfo → Pick → Pick
pick_devices vol p = record p { devices = merge p.devices (get_devs_info_from_daemon_info vol) }

abbrev pub is_item : String → OsdCleanupSpec → Bool
is_item osd item = show_nat item.id == osd

module _ (env : Env) (k : ClusterOsds) (host : String) (h : OsdHostInfo) (used : UsedDevices) where
  abbrev block_used_warning : String → String → String
  block_used_warning osd name = on_node host (
      "osd with id '" ∷ osd ∷ "' is associated with block device '" ∷ name
      ∷ "', which is present in spec, can't cleanup, skipping" ∷ [])

  abbrev meta_used_warning : String → String → String
  meta_used_warning osd name = on_node host (
      "osd with id '" ∷ osd ∷ "' is associated with metadata device '" ∷ name
      ∷ "', which is present in spec, disk zap will be skipped" ∷ [])

  -- A volume of the OSD to remove: a block device of the spec forbids it, a metadata device of the
  -- spec is kept.
  unfoldable pub pick_own : String → InSpec → OsdDaemonInfo → Pick → Pick
  pick_own osd none vol p = pick_devices vol p
  pick_own osd (some (name, type)) vol p =
      let locked = pick_locked (spec_locks type vol) p in
      if type == "block"
      then record locked {
        scan = warned (block_used_warning osd name ∷ []) locked.scan;
        allow = false;
      }
      else pick_devices vol
          (record locked { scan = warned (meta_used_warning osd name ∷ []) locked.scan })

  module _ (known : Assoc ℕ) (items : List OsdCleanupSpec) where
    unfoldable pub pick_volume : String → String → OsdDaemonInfo → Pick → Pick
    pick_volume wanted osd vol p =
        if wanted == osd
        then (if check_from_crush k known osd vol
            then pick_own wanted (if h.in_spec then device_in_spec env vol used "" else none) vol p
            else pick_locked (device_names vol) p)
        else if any (is_item osd) items
        then p
        else pick_locked (device_names vol) p

    unfoldable pub pick_volumes : String → String → List OsdDaemonInfo → Pick → Pick
    pick_volumes wanted osd [] p = p
    pick_volumes wanted osd (vol ∷ vols) p =
        pick_volumes wanted osd vols (pick_volume wanted osd vol p)

    unfoldable pub pick_osds : String → Assoc (List OsdDaemonInfo) → Pick → Pick
    pick_osds wanted [] p = p
    pick_osds wanted ((osd, vols) ∷ more) p = pick_osds wanted more (pick_volumes wanted osd vols p)

    abbrev skip_osd_warning : String → String
    skip_osd_warning osd = on_node host (
        "osd with id '" ∷ osd
        ∷ "' has 'skip device clean up' flag set in spec. Related deployment should be removed manually as well"
        ∷ [])

    abbrev no_osd_warning : String → String
    no_osd_warning osd =
        on_node host ("osd with id '" ∷ osd ∷ "' is not found on a node, skipping" ∷ [])

    -- `removeAllowed`
    unfoldable pub plan_picked : OsdCleanupSpec → Pick → Scan
    plan_picked item p =
        let osd = show_nat item.id in
        if not p.allow
        then p.scan
        else record (warned (if item.skip_device_cleanup then skip_osd_warning osd ∷ [] else [])
            p.scan) {
              osds =
                  insert osd
                    (record (crush_mapping k osd p.devices) {
                      skip_device_cleanup_job = item.skip_device_cleanup;
                    })
                    p.scan.osds;
            }

    unfoldable pub clean_osd : Assoc (List OsdDaemonInfo) → OsdCleanupSpec → Scan → Scan
    clean_osd report item s =
        let osd = show_nat item.id in
        if has_key osd known
        then plan_picked item
            (pick_osds osd report (record { scan = s; devices = meta_of k item.id; allow = true }))
        else warned (no_osd_warning osd ∷ []) s

    unfoldable pub clean_osds : Assoc (List OsdDaemonInfo) → List OsdCleanupSpec → Scan → Scan
    clean_osds report [] s = s
    clean_osds report (item ∷ more) s = clean_osds report more (clean_osd report item s)

-- `CleanupByOsd`
unfoldable pub clean_by_osd :
    Env
    → ClusterOsds
    → String
    → OsdHostInfo
    → UsedDevices
    → Assoc ℕ
    → List OsdCleanupSpec
    → Assoc (List OsdDaemonInfo)
    → Scan
    → Scan
clean_by_osd env k host h used known items report s =
    clean_osds env k host h used known items report items s
