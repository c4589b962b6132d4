-- ===== src/DiskDaemon/Report.antt =====
-- `checkOsds` of pkg/disk-daemon/osds_reporter.go for all OSDs, with the maps in the order of
-- their entries.
pub mod Compact
use pelagia.Prelude.{
  ℕ, String, Bool, true, false, Option, none, some, List, [], ◌∷◌, ◌++◌, Assoc, lookup_or, insert,
  sort_strings, sprint, show_nat, ◌==◌, if◌then◌else◌,
}
use pelagia.Common.Disks.{OsdDaemonInfo, OsdsReport, DisksReport, path_dev_prepended}
use pelagia.Common.Tree.{DiskSearch, disk, failed, running, find_disk_name, block_of}
use pelagia.DiskDaemon.Volumes.{LvmVolume, RawVolume}
use pelagia.DiskDaemon.Osds.{OsdScan, check_volumes}

-- The report so far, the issues, and the volumes as they are left behind.
pub record OsdsCheck : Type 0 where
  pub found : OsdsReport
  pub issues : List String
  pub left : Assoc (List LvmVolume)

abbrev pub scan_from : OsdsCheck → OsdScan
scan_from c = record { infos = []; paths = []; issues = c.issues; warnings = c.found.warnings }

unfoldable pub add_scan : String → OsdScan → List LvmVolume → OsdsCheck → OsdsCheck
add_scan osd s vs c = record {
  found = record { warnings = s.warnings; osds = insert osd s.infos c.found.osds };
  issues = s.issues;
  left = c.left ++ (osd, vs) ∷ [];
}

unfoldable pub check_lvm : ℕ → DisksReport → Assoc (List LvmVolume) → OsdsCheck → Option OsdsCheck
unfolding check_volumes add_scan
check_lvm fuel report [] c = some c
check_lvm fuel report ((osd, vs) ∷ m) c = elim (check_volumes fuel report osd vs (scan_from c)) [
  | none ↦ none
  | some (s, vs₁) ↦ check_lvm fuel report m (add_scan osd s vs₁ c)
]

abbrev pub raw_osd : RawVolume → String
raw_osd v = show_nat v.osd_id

abbrev pub raw_issue : List String → OsdsCheck → OsdsCheck
raw_issue texts c = record c { issues = c.issues ++ sprint texts ∷ [] }

unfoldable pub raw_info : DisksReport → RawVolume → String → OsdDaemonInfo
raw_info report v device = record {
  osd_uuid = v.osd_fsid;
  cluster_fsid = v.cluster_fsid;
  devices =
      record {
        name = device;
        device_id = (block_of report device).serial;
        device_symlinks = (block_of report device).symlinks;
        rotational = (block_of report device).rotational;
        related_partition = "";
        parted_by = "";
        raw = Bool.true;
      }
      ∷ [];
  partitions = [];
}

unfoldable pub add_raw_info : DisksReport → RawVolume → String → OsdsCheck → OsdsCheck
unfolding raw_info
add_raw_info report v device c = record c {
  found = record {
    warnings = c.found.warnings;
    osds =
        insert (raw_osd v) (lookup_or [] (raw_osd v) c.found.osds ++ raw_info report v device ∷ [])
          c.found.osds;
  };
}

-- A raw volume, with whether its device is a disk, and the disk below. Nothing is returned if
-- FindDiskName has not ended.
unfoldable pub place_raw :
    DisksReport → RawVolume → OsdsCheck → Bool → DiskSearch → Option OsdsCheck
unfolding add_raw_info
place_raw report v c false _ = some (
    raw_issue
      ("for osd '"
        ∷ raw_osd v
        ∷ "', raw device '"
        ∷ v.device
        ∷ "' is not a full disk (likely physical partition), only full disk raw osds are supported"
        ∷ [])
      c)
place_raw report v c true running = none
place_raw report v c true (failed text) =
    some (raw_issue ("for osd '" ∷ raw_osd v ∷ "', raw device '" ∷ v.device ∷ "' " ∷ text ∷ []) c)
place_raw report v c true (disk device) = some (add_raw_info report v device c)

unfoldable pub check_raw_volume : ℕ → DisksReport → RawVolume → OsdsCheck → Option OsdsCheck
unfolding place_raw
check_raw_volume fuel report v c =
    place_raw report v c
      ((block_of report (lookup_or "" (path_dev_prepended v.device) report.aliases)).type == "disk")
      (find_disk_name fuel report v.device)

unfoldable pub check_raw : ℕ → DisksReport → Assoc RawVolume → OsdsCheck → Option OsdsCheck
unfolding check_raw_volume
check_raw fuel report [] c = some c
check_raw fuel report ((_, v) ∷ m) c = elim (check_raw_volume fuel report v c) [
  | none ↦ none
  | some c₁ ↦ check_raw fuel report m c₁
]

abbrev sorted_check : OsdsCheck → OsdsCheck
sorted_check c = record c {
  found = record { warnings = sort_strings c.found.warnings; osds = c.found.osds };
  issues = sort_strings c.issues;
}

abbrev pub no_check : OsdsCheck
no_check = record { found = record { warnings = []; osds = [] }; issues = []; left = [] }

abbrev pub sorted_or_none : Option OsdsCheck → Option OsdsCheck
sorted_or_none none = none
sorted_or_none (some c) = some (sorted_check c)

-- `checkOsds`, of the runtime's reports.
unfoldable pub check_osds :
    ℕ → DisksReport → Assoc (List LvmVolume) → Assoc RawVolume → Option OsdsCheck
unfolding check_lvm check_raw
check_osds fuel report volumes raws = elim (check_lvm fuel report volumes no_check) [
  | none ↦ none
  | some c ↦ sorted_or_none (check_raw fuel report raws c)
]
