-- ===== src/DiskDaemon/Osds.antt =====
-- `checkOsds` of pkg/disk-daemon/osds_reporter.go, for one OSD: its volumes in turn, with the
-- index of the entry that a path belongs to. An index of the map that is out of the list, where
-- the code would panic, gives an empty entry here.
use pelagia.Prelude.{
  ℕ, zero, suc, String, Bool, true, false, not, ◌&&◌, ◌||◌, Option, none, some, List, [], ◌∷◌, ◌++◌,
  any, Assoc, lookup, lookup_or, insert, length, get_elem?, sort_strings, sprint, ◌==◌,
  if◌then◌else◌,
}
use pelagia.Common.Disks.{OsdDevice, OsdPartition, OsdDaemonInfo, DisksReport}
use pelagia.Common.Tree.{disk, failed, running, find_disk_name, block_of}
use pelagia.DiskDaemon.Volumes.{LvmVolume, compact, compacted_array}

abbrev empty_info : OsdDaemonInfo
empty_info = record { osd_uuid = ""; cluster_fsid = ""; devices = []; partitions = [] }

-- What is found on an OSD, and the issues and warnings of all.
pub record OsdScan : Type 0 where
  pub infos : List OsdDaemonInfo
  pub paths : Assoc ℕ
  pub issues : List String
  pub warnings : List String

abbrev with_issue : String → OsdScan → OsdScan
with_issue text s = record s { issues = s.issues ++ text ∷ [] }

abbrev warn_if : Bool → List String → OsdScan → OsdScan
warn_if true texts s = record s { warnings = s.warnings ++ sprint texts ∷ [] }
warn_if false texts s = s

-- The device of a volume, or why it has none.
pub data DeviceChoice : Type 0 where
  chosen unsupported : String → DeviceChoice

unfoldable pub choose_device : String → LvmVolume → List String → DeviceChoice
choose_device osd v [] =
    if v.type == "db"
    then chosen v.path
    else unsupported (
        sprint (
          "found physical osd " ∷ v.type ∷ " partition '" ∷ v.path ∷ "' for osd '" ∷ osd
          ∷ "', which is not supported" ∷ []))
choose_device osd v (name ∷ []) = chosen name
choose_device osd v (_ ∷ _ ∷ _) = unsupported (
    sprint (
      "multidisk setup detected for osd '" ∷ osd ∷ "', partition '" ∷ v.path
      ∷ "', which is not supported" ∷ []))

abbrev is_single : List String → Bool
is_single (_ ∷ []) = true
is_single _ = false

-- The device is not itself the disk.
abbrev is_parted : LvmVolume → (name device : String) → Bool
is_parted v name device = not (device == name) && is_single v.devices

unfoldable pub device_found : DisksReport → LvmVolume → (name device : String) → OsdDevice
device_found report v name device = record {
  name = device;
  device_id = (block_of report device).serial;
  device_symlinks = sort_strings (block_of report device).symlinks;
  rotational = (block_of report device).rotational;
  related_partition = v.path;
  parted_by = if is_parted v name device then name else "";
  raw = false;
}

unfoldable pub symlinks_of : DisksReport → String → Option String → List String
symlinks_of report path none = []
symlinks_of report path (some block) =
    if (block_of report block).type == "disk"
    then []
    else (block_of report block).symlinks
      ++ (if block == path then [] else block ∷ [])
      ++ (if (block_of report block).kname == block then [] else (block_of report block).kname ∷ [])

abbrev is_some : Option String → Bool
is_some none = false
is_some (some _) = true

unfoldable pub partition_found : DisksReport → LvmVolume → OsdPartition
unfolding symlinks_of
partition_found report v = record {
  partition = v.path;
  partition_symlinks = sort_strings (symlinks_of report v.path (lookup v.path report.aliases));
  type = v.type;
  exists = is_some (lookup v.path report.aliases);
  lvm = not (v.lv_path == "");
}

-- The entry that a volume may belong to, and the partition that it names but that was not seen.
pub record Relation : Type 0 where
  pub index : Option ℕ
  pub paths : Assoc ℕ
  pub unseen : Option OsdPartition

abbrev unrelated : Assoc ℕ → Relation
unrelated paths = record { index = none; paths = paths; unseen = none }

unfoldable pub relate_to : (path device type : String) → Assoc ℕ → Relation
relate_to path device type paths =
    if device == ""
    then record { index = lookup path paths; paths = paths; unseen = none }
    else elim (lookup device paths) [
      | some i ↦ record { index = some i; paths = paths; unseen = none }
      | none ↦ record {
        index = none;
        paths = insert device (lookup_or zero path paths) paths;
        unseen = some (record {
          partition = device;
          partition_symlinks = [];
          type = type;
          exists = false;
          lvm = false;
        });
      }
    ]

unfoldable pub relation_of : LvmVolume → Assoc ℕ → Relation
unfolding relate_to
relation_of v paths =
    if v.type == "db"
    then relate_to v.path v.tags.block_dev "block" paths
    else if v.type == "block"
    then relate_to v.path v.tags.db_device "db" paths
    else unrelated paths

abbrev pub info_or : Option OsdDaemonInfo → OsdDaemonInfo
info_or none = empty_info
info_or (some info) = info

unfoldable pub entry_at : List OsdDaemonInfo → Option ℕ → OsdDaemonInfo
entry_at infos none = empty_info
entry_at infos (some i) = info_or (get_elem? infos i)

unfoldable pub is_legacy : LvmVolume → OsdPartition → Bool
is_legacy v p =
    not p.lvm && (p.type == "db" && ((v.tags.osd_fsid == "") || (v.tags.cluster_fsid == "")))

unfoldable pub is_related : LvmVolume → OsdPartition → OsdDaemonInfo → Bool
unfolding is_legacy
is_related v p info =
    (v.tags.osd_fsid == info.osd_uuid && v.tags.cluster_fsid == info.cluster_fsid)
    || is_legacy v p
    || (((info.osd_uuid == "") || (info.cluster_fsid == ""))
        && any (λ q. not q.lvm && q.type == "db") info.partitions)

unfoldable pub put_partition : OsdPartition → List OsdPartition → List OsdPartition
put_partition p [] = p ∷ []
put_partition p (q ∷ ps) = if q.partition == p.partition then p ∷ ps else q ∷ put_partition p ps

unfoldable pub set_info : ℕ → OsdDaemonInfo → List OsdDaemonInfo → List OsdDaemonInfo
set_info i info [] = []
set_info zero info (_ ∷ infos) = info ∷ infos
set_info (suc i) info (x ∷ infos) = x ∷ set_info i info infos

unfoldable pub merge_info : LvmVolume → OsdDevice → OsdPartition → OsdDaemonInfo → OsdDaemonInfo
unfolding put_partition
merge_info v d p info = record {
  osd_uuid = if info.osd_uuid == "" then v.tags.osd_fsid else info.osd_uuid;
  cluster_fsid = if info.cluster_fsid == "" then v.tags.cluster_fsid else info.cluster_fsid;
  devices = info.devices ++ d ∷ [];
  partitions = put_partition p info.partitions;
}

abbrev related_parts : Option OsdPartition → List OsdPartition
related_parts none = []
related_parts (some p) = p ∷ []

unfoldable pub append_info : LvmVolume → OsdDevice → OsdPartition → Relation → OsdScan → OsdScan
append_info v d p r s = record s {
  paths = insert v.path (length s.infos) r.paths;
  infos =
      s.infos
      ++ record {
        osd_uuid = v.tags.osd_fsid;
        cluster_fsid = v.tags.cluster_fsid;
        devices = d ∷ [];
        partitions = p ∷ related_parts r.unseen;
      }
        ∷ [];
}

unfoldable pub join_info : LvmVolume → OsdDevice → OsdPartition → Relation → OsdScan → OsdScan
unfolding entry_at is_related merge_info set_info append_info
join_info v d p r s = elim r.index [
  | none ↦ append_info v d p r s
  | some i ↦
      if is_related v p (entry_at s.infos (some i))
      then record s {
        paths = r.paths;
        infos = set_info i (merge_info v d p (entry_at s.infos (some i))) s.infos;
      }
      else append_info v d p r s
]

unfoldable pub place_volume :
    DisksReport → String → LvmVolume → (name device : String) → OsdScan → OsdScan
unfolding device_found partition_found relation_of join_info
place_volume report osd v name device s =
    let s₁ =
      warn_if (is_parted v name device)
        ("found osd " ∷ v.type ∷ " partition '" ∷ v.path ∷ "' for osd '" ∷ osd
          ∷ "' placed on top of partition '" ∷ name ∷ "'" ∷ [])
        s in
    let s₂ =
      warn_if (v.lv_path == "")
        ("found physical osd " ∷ v.type ∷ " partition '" ∷ v.path ∷ "' for osd '" ∷ osd ∷ "'" ∷ [])
        s₁ in
    join_info v (device_found report v name device) (partition_found report v)
      (relation_of v s₂.paths) s₂

-- What the code does after a volume: the next one, `break`, or FindDiskName has not ended.
pub data VolumeStep : Type 0 where
  go_on break_off : OsdScan → VolumeStep
  unended : VolumeStep

unfoldable pub check_volume : ℕ → DisksReport → String → LvmVolume → OsdScan → VolumeStep
unfolding choose_device place_volume
check_volume fuel report osd v s = elim (choose_device osd v v.devices) [
  | unsupported issue ↦ break_off (with_issue issue s)
  | chosen name ↦ elim (find_disk_name fuel report name) [
    | running ↦ unended
    | failed text ↦
        break_off
          (with_issue (sprint ("for osd '" ∷ osd ∷ "', partition '" ∷ v.path ∷ "' " ∷ text ∷ [])) s)
    | disk device ↦ go_on (place_volume report osd v name device s)
  ]
]

abbrev pub keep_volume :
    LvmVolume → Option (OsdScan × List LvmVolume) → Option (OsdScan × List LvmVolume)
keep_volume v none = none
keep_volume v (some (s, vs)) = some (s, v ∷ vs)

-- The loop over the volumes of an OSD, with the list as `slices.Compact` leaves it.
unfoldable pub check_volumes :
    ℕ → DisksReport → String → List LvmVolume → OsdScan → Option (OsdScan × List LvmVolume)
unfolding compacted_array check_volume
check_volumes fuel report osd [] s = some (s, [])
check_volumes fuel report osd (v ∷ vs) s =
    elim (check_volume fuel report osd (record v { devices = compact v.devices }) s) [
      | go_on s₁ ↦
          keep_volume (record v { devices = compacted_array v.devices })
            (check_volumes fuel report osd vs s₁)
      | break_off s₁ ↦ some (s₁, record v { devices = compacted_array v.devices } ∷ vs)
      | unended ↦ none
    ]
