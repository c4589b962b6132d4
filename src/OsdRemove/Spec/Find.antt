-- ===== src/OsdRemove/Spec/Find.antt =====
-- findOsdsForCleanUp of spec_handler.go: a task that names no nodes. Maps are values here; in the
-- source the devices of an OSD from the metadata are shared with the mapping made of them, which
-- shows only if two volumes of an OSD that Ceph has on the host, but whose metadata names no host,
-- are found.
pub mod Spared
use pelagia.Prelude.{
  ℕ, String, Bool, false, not, ◌&&◌, ◌||◌, ◌++◌, none, some, List, [], ◌∷◌, Assoc, insert, lookup,
  has_key, remove_key, merge, keys, is_empty, ◌==◌, if◌then◌else◌,
}
use pelagia.Task.{DeviceInfo, OsdMapping}
use pelagia.Common.Disks.{OsdsReport, OsdDaemonInfo}
use pelagia.Common.World.{Env}
use pelagia.OsdRemove.Spec.Metadata.{ClusterOsds, crush_mapping}
use pelagia.OsdRemove.Spec.Devices.{
  UsedDevices, InSpec, device_in_spec, get_devs_info_from_daemon_info,
}
use pelagia.OsdRemove.Spec.Hosts.{OsdHostInfo}
use pelagia.OsdRemove.Spec.Volumes.{
  known_osds, known_mappings, meta_of, check_from_crush, is_stray_in_crush, identified,
  volume_mapping, stray_key, stray_warning, add_volume, spec_locks, Scan, empty_scan, locked_with,
}

-- The scan of the volumes of one OSD: `deviceInfoForOsdFromMeta` and `allowToRemove`.
pub record Walk : Type 0 where
  pub scan : Scan
  pub meta : Assoc DeviceInfo
  pub allow : Bool

-- A volume of the OSD that Ceph knows on the host, of a host in the spec.
abbrev pub lock_used : InSpec → OsdDaemonInfo → Walk → Walk
lock_used none vol w = w
lock_used (some (_, type)) vol w = record w {
  scan = locked_with (spec_locks type vol) w.scan;
  allow = if type == "block" then false else w.allow;
}

abbrev pub join_devices : OsdDaemonInfo → Walk → Walk
join_devices vol w =
    if w.allow then record w { meta = merge w.meta (get_devs_info_from_daemon_info vol) } else w

-- `mapping.DeviceMapping[expectedDev] = …` for the devices that are missing.
unfoldable pub fill_missing : List String → Assoc DeviceInfo → Assoc DeviceInfo → Assoc DeviceInfo
fill_missing [] meta devices = devices
fill_missing (dev ∷ devs) meta devices = fill_missing devs meta (
    if has_key dev devices
    then devices
    else elim (lookup dev meta) [ none ↦ devices | some info ↦ insert dev info devices ])

module _ (env : Env) (k : ClusterOsds) (host : String) (h : OsdHostInfo) (used : UsedDevices) where
  unfoldable pub spec_volume : OsdDaemonInfo → Walk → Walk
  spec_volume vol w = join_devices vol (lock_used (device_in_spec env vol used "") vol w)

  -- Any other volume: of a stray OSD, or of an OSD of a host that is not in the spec.
  unfoldable pub other_volume : Bool → Bool → String → OsdDaemonInfo → Walk → Walk
  other_volume from stray osd vol w =
      let found = stray || not from in
      let key = if found then stray_key osd vol.osd_uuid else osd in
      let devices = get_devs_info_from_daemon_info vol in
      let meta = if from && not (has_key key w.scan.osds) then merge w.meta devices else w.meta in
      let new = volume_mapping k vol (stray || from) false (if from then meta else devices) in
      record w {
        meta = meta;
        scan = record (w.scan) {
          warnings = w.scan.warnings ++ (if found then stray_warning host osd vol ∷ [] else []);
          strays = if found then remove_key osd w.scan.strays else w.scan.strays;
          osds = add_volume key devices new w.scan.osds;
        };
      }

  unfoldable pub find_volume : Assoc ℕ → String → OsdDaemonInfo → Walk → Walk
  find_volume known osd vol w =
      let from = check_from_crush k known osd vol in
      let stray = is_stray_in_crush k w.scan.strays osd vol in
      if from && h.in_spec
      then spec_volume vol w
      else other_volume from stray osd (identified k (stray || from) osd vol) w

  unfoldable pub find_volumes : Assoc ℕ → String → List OsdDaemonInfo → Walk → Walk
  find_volumes known osd [] w = w
  find_volumes known osd (vol ∷ vols) w = find_volumes known osd vols (find_volume known osd vol w)

  -- The devices of the OSD that Ceph's metadata knows, if the OSD is on the host.
  abbrev pub expected_devices : Assoc ℕ → String → Assoc DeviceInfo
  expected_devices known osd =
      if h.in_crush then elim (lookup osd known) [ none ↦ [] | some id ↦ meta_of k id ] else []

  unfoldable pub planned_osd : String → Walk → Assoc OsdMapping
  planned_osd osd w =
      if h.in_spec && w.allow
      then insert osd (crush_mapping k osd w.meta) w.scan.osds
      else w.scan.osds

  -- The end of the loop over an OSD of the report: an OSD that Ceph knows is dealt with, unless it
  -- may be removed and none of its volumes is there.
  unfoldable pub settle_osd : List String → String → Walk → Assoc ℕ → Scan × Assoc ℕ
  settle_osd expected osd w known =
      let osds = planned_osd osd w in
      let scan = record (w.scan) { osds = osds } in
      if is_empty expected
      then (scan, known)
      else if not w.allow
      then (scan, remove_key osd known)
      else elim (lookup osd osds) [
        | none ↦ (scan, known)
        | some m ↦ (
          record scan {
            osds =
                insert osd
                  (record m { device_mapping = fill_missing expected w.meta m.device_mapping })
                  osds;
          },
          remove_key osd known,
        )
      ]

  unfoldable pub find_osd : String → List OsdDaemonInfo → Scan × Assoc ℕ → Scan × Assoc ℕ
  find_osd osd vols (scan, known) =
      let expected = expected_devices known osd in
      settle_osd (keys expected) osd
        (find_volumes known osd vols
          (record { scan = scan; meta = expected; allow = not (is_empty expected) }))
        known

  unfoldable pub find_osds : Assoc (List OsdDaemonInfo) → Scan × Assoc ℕ → Scan × Assoc ℕ
  find_osds [] s = s
  find_osds ((osd, vols) ∷ more) s = find_osds more (find_osd osd vols s)

-- The scan of a host's report. The OSDs of the host that are not in it have lost their disks.
unfoldable pub scan_host :
    Env → ClusterOsds → String → OsdHostInfo → UsedDevices → OsdsReport → Assoc Bool → Scan
scan_host env k host h used report strays =
    let (scan, known) =
      find_osds env k host h used report.osds (empty_scan strays, known_osds h.crush_osds []) in
    record scan { osds = known_mappings k known scan.osds }
