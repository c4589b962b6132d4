-- ===== src/OsdRemove/Spec/ByDevice.antt =====
-- verifyOsdsForCleanUp of spec_handler.go: the cleanup of devices.
use pelagia.Prelude.{
  ℕ, String, Bool, true, false, ◌&&◌, ◌||◌, ◌++◌, none, some, List, [], ◌∷◌, Assoc, insert, lookup,
  has_key, if◌then◌else◌,
}
use pelagia.Task.{DeviceInfo, OsdMapping, DeviceCleanupSpec}
use pelagia.Common.Disks.{OsdDaemonInfo}
use pelagia.Common.World.{Env}
use pelagia.OsdRemove.Spec.Metadata.{ClusterOsds, on_node, check_disks_or_partition}
use pelagia.OsdRemove.Spec.Devices.{
  UsedDevices, InSpec, device_in_spec, get_devs_info_from_daemon_info,
}
use pelagia.OsdRemove.Spec.Hosts.{OsdHostInfo}
use pelagia.OsdRemove.Spec.Volumes.{
  meta_of, check_from_crush, is_stray_in_crush, identified, device_names, Scan, warned, locked_with,
}
use pelagia.OsdRemove.Spec.Complete.{is_found, plan_volume}

abbrev pub Volume : Type 0
Volume = String × OsdDaemonInfo

abbrev pub volumes_of : String → List OsdDaemonInfo → List Volume
volumes_of osd [] = []
volumes_of osd (vol ∷ vols) = (osd, vol) ∷ volumes_of osd vols

-- The volumes of the report with the ids of their OSDs.
unfoldable pub all_volumes : Assoc (List OsdDaemonInfo) → List Volume
all_volumes [] = []
all_volumes ((osd, vols) ∷ more) = volumes_of osd vols ++ all_volumes more

-- The scan, and `denyDevsToRemove`.
pub record DeviceScan : Type 0 where
  pub scan : Scan
  pub denied : List String

-- The entries of the metadata that the volume has not.
unfoldable pub add_absent : Assoc DeviceInfo → Assoc DeviceInfo → Assoc DeviceInfo
add_absent [] devices = devices
add_absent ((dev, info) ∷ more) devices =
    add_absent more (if has_key dev devices then devices else insert dev info devices)

-- The devices of a volume, joined by those that Ceph knows of its OSD.
unfoldable pub volume_devices : ClusterOsds → Assoc ℕ → String → OsdDaemonInfo → Assoc DeviceInfo
volume_devices k known osd vol = elim (lookup osd known) [
  | none ↦ get_devs_info_from_daemon_info vol
  | some id ↦ add_absent (meta_of k id) (get_devs_info_from_daemon_info vol)
]

-- The loop over the volumes goes on, or on to the next device.
pub data Turn : Type 0 where
  next leave : DeviceScan → Turn

module _ (env : Env) (k : ClusterOsds) (host : String) (h : OsdHostInfo) (used : UsedDevices)
    (known : Assoc ℕ) where
  abbrev in_spec_warning : String → String → String
  in_spec_warning device name =
      on_node host (
        "device '" ∷ device ∷ "' is marked for clean up, but present in spec as '" ∷ name ∷ "'"
        ∷ [])

  abbrev skip_device_warning : String → String → String
  skip_device_warning device osd = on_node host (
      "device '" ∷ device
      ∷ "' has set 'skip device clean up' flag set in spec. Related osd deployment (osd id '" ∷ osd
      ∷ "') should be removed manually as well" ∷ [])

  abbrev no_device_warning : String → String
  no_device_warning device = on_node host (
      "device '" ∷ device ∷ "' is not found on a node or has no osd partitions to cleanup, skipping"
      ∷ [])

  -- The device is in the spec: the volume's devices are kept, with all OSDs on them.
  abbrev deny : String → String → OsdDaemonInfo → DeviceScan → DeviceScan
  deny device name vol s = record {
    scan = warned (in_spec_warning device name ∷ []) (locked_with (device_names vol) s.scan);
    denied = s.denied ++ device_names vol;
  }

  -- A volume on the device.
  unfoldable pub device_volume : DeviceCleanupSpec → String → OsdDaemonInfo → Scan → Scan
  device_volume d osd vol s =
      let in_crush = check_from_crush k known osd vol in
      let stray = is_stray_in_crush k s.strays osd vol in
      let devices =
        if in_crush then volume_devices k known osd vol else get_devs_info_from_daemon_info vol in
      warned
        (if d.skip_device_cleanup && in_crush then skip_device_warning d.device osd ∷ [] else [])
        (plan_volume k host in_crush stray d.skip_device_cleanup devices osd
          (identified k (stray || in_crush) osd vol) s)

  unfoldable pub on_device : DeviceCleanupSpec → String → OsdDaemonInfo → InSpec → DeviceScan → Turn
  on_device d osd vol none s = next (record s { scan = device_volume d osd vol s.scan })
  on_device d osd vol (some (name, _)) s = leave (deny d.device name vol s)

  abbrev off_device : OsdDaemonInfo → DeviceScan → DeviceScan
  off_device vol s =
      if is_found (device_in_spec env vol used "")
      then record s { scan = locked_with (device_names vol) s.scan }
      else s

  -- `DevLoop`, with `found` so far.
  unfoldable pub clean_device : DeviceCleanupSpec → List Volume → Bool → DeviceScan → DeviceScan
  clean_device d [] found s =
      if found then s else record s { scan = warned (no_device_warning d.device ∷ []) s.scan }
  clean_device d ((osd, vol) ∷ more) found s = elim (check_disks_or_partition vol d.device) [
    | false ↦ clean_device d more found (off_device vol s)
    | true ↦
        elim (on_device d osd vol (if h.in_spec then device_in_spec env vol used d.device else none)
          s) [ next s' ↦ clean_device d more true s' | leave s' ↦ s' ]
  ]

  unfoldable pub clean_devices : List Volume → List DeviceCleanupSpec → DeviceScan → DeviceScan
  clean_devices vols [] s = s
  clean_devices vols (d ∷ ds) s = clean_devices vols ds (clean_device d vols false s)

-- `delete(osdMapping, osd)` for the OSDs on a denied device.
unfoldable pub drop_osds_on : String → Assoc OsdMapping → Assoc OsdMapping
drop_osds_on dev [] = []
drop_osds_on dev ((osd, m) ∷ osds) =
    let rest = drop_osds_on dev osds in
    if has_key dev m.device_mapping then rest else (osd, m) ∷ rest

unfoldable pub drop_denied : List String → Assoc OsdMapping → Assoc OsdMapping
drop_denied [] osds = osds
drop_denied (dev ∷ devs) osds = drop_denied devs (drop_osds_on dev osds)

-- `CleanupByDevice`
unfoldable pub clean_by_device :
    Env
    → ClusterOsds
    → String
    → OsdHostInfo
    → UsedDevices
    → Assoc ℕ
    → List DeviceCleanupSpec
    → Assoc (List OsdDaemonInfo)
    → Scan
    → Scan
clean_by_device env k host h used known devs report s =
    let result =
      clean_devices env k host h used known (all_volumes report) devs
        (record { scan = s; denied = [] }) in
    record (result.scan) { osds = drop_denied result.denied result.scan.osds }
