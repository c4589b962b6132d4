-- ===== src/DiskDaemon/Pass.antt =====
-- A pass of the daemon: `prepareReport` and `updateNodeReportState` of pkg/disk-daemon/daemon.go and
-- `checkDisks` and `checkLvmCached` of pkg/disk-daemon/disk_reporter.go. What the commands answer
-- during the pass is a record.
pub mod Settled
pub mod Forgets
use pelagia.Prelude.{
  ℕ, String, Bool, true, false, Option, none, some, List, [], ◌∷◌, ◌++◌, Assoc, is_empty, contains,
  sprint, if◌then◌else◌,
}
use pelagia.Common.Disks.{
  DisksReport, OsdsReport, DiskDaemonReport, DiskDaemonState, failed, preparing,
}
use pelagia.Common.World.{Error, Result, ok, err}
use pelagia.DiskDaemon.Equal.{text_equal, list_equal, map_equal, block_equal}
use pelagia.DiskDaemon.Devices.{Devices, Scanned, wrapped, process_lsblk_info}
use pelagia.DiskDaemon.Volumes.{LvmVolume, RawVolume, lvm_equal, raw_equal}
use pelagia.DiskDaemon.Mapping.{disk_to_osd_map}
use pelagia.DiskDaemon.Report.{OsdsCheck, check_osds}

-- What is answered: lsblk, udevadm, lvm lvs, the error of pvscan for a disk, and ceph-volume.
pub record Answers : Type 0 where
  pub lsblk : Result Devices
  pub udevadm : String → Result String
  pub active_lvs : Result (List String)
  pub scan_error : String → Option Error
  pub lvm_list : Result (Assoc (List LvmVolume))
  pub raw_list : Result (Assoc RawVolume)
  pub time : String

-- `runtimeData`
pub record Runtime : Type 0 where
  pub disks_report : Option DisksReport
  pub volumes_lvm : Assoc (List LvmVolume)
  pub volumes_raw : Assoc RawVolume
  pub osds_report : Option OsdsReport
  pub known_lvms : Assoc (List String)

-- `diskDaemon`, less its quit channel.
pub record Daemon : Type 0 where
  pub raw_disabled : Bool
  pub runtime : Runtime
  pub report : DiskDaemonReport

-- `initDaemonData`
abbrev pub daemon_from : Bool → Daemon
daemon_from raw_disabled = record {
  raw_disabled = raw_disabled;
  runtime = record {
    disks_report = none;
    volumes_lvm = [];
    volumes_raw = [];
    osds_report = none;
    known_lvms = [];
  };
  report = record {
    state = preparing;
    last_run = "";
    issues = [];
    disks_report = none;
    osds_report = none;
  };
}

abbrev add_all : List String → List String → List String
add_all found [] = found
add_all found (t ∷ ts) = add_all (if contains found t then found else found ++ t ∷ []) ts

unfoldable pub not_activated : List String → Assoc (List String) → List String → List String
not_activated active [] found = found
not_activated active ((lvm, disks) ∷ m) found =
    not_activated active m (if contains active lvm then found else add_all found disks)

-- `cacheLvms`: the error of the first disk that has one.
unfoldable pub cache_lvms : (String → Option Error) → List String → Option Error
cache_lvms scan_error [] = none
cache_lvms scan_error (disk ∷ disks) = elim (scan_error disk) [
  | none ↦ cache_lvms scan_error disks
  | some e ↦ some (wrapped ("failed to cache volumes" ∷ []) e)
]

unfoldable pub check_lvm_cached : Answers → Assoc (List String) → Option Error
unfolding not_activated cache_lvms
check_lvm_cached a lvms = elim a.active_lvs [
  | err e ↦ some e
  | ok active ↦ cache_lvms a.scan_error (not_activated active lvms [])
]

-- Whether something has changed, or an error, and the data in either case.
pub data CheckResult : Type 0 where
  checked : Bool → Runtime → CheckResult
  broken : Error → Runtime → CheckResult

unfoldable pub same_blocks : Option DisksReport → Scanned → Bool
same_blocks none s = false
same_blocks (some r) s = map_equal block_equal r.block_info s.block_info

abbrev pub with_blocks : Option DisksReport → Scanned → DisksReport
with_blocks none s = record { block_info = s.block_info; aliases = s.aliases; disk_to_osd = [] }
with_blocks (some r) s = record r { block_info = s.block_info; aliases = s.aliases }

-- The new logical volumes, after they are cached.
abbrev pub after_cache : Scanned → Runtime → Option Error → CheckResult
after_cache s rt none =
    checked true
      (record rt { known_lvms = s.lvms; disks_report = some (with_blocks rt.disks_report s) })
after_cache s rt (some e) =
    broken (wrapped ("daemon is failed to check cached logical volumes" ∷ []) e) rt

unfoldable pub take_disks : Answers → Scanned → Runtime → CheckResult
unfolding same_blocks check_lvm_cached
take_disks a s rt =
    if same_blocks rt.disks_report s
    then checked false rt
    else if map_equal (list_equal text_equal) rt.known_lvms s.lvms
    then checked true (record rt { disks_report = some (with_blocks rt.disks_report s) })
    else after_cache s rt (check_lvm_cached a s.lvms)

unfoldable pub take_lvm : Assoc (List LvmVolume) → Bool → Runtime → CheckResult
take_lvm volumes changed rt =
    if map_equal (list_equal lvm_equal) rt.volumes_lvm volumes
    then checked changed rt
    else checked true (record rt { volumes_lvm = volumes })

unfoldable pub take_raw :
    (raw_disabled : Bool) → Result (Assoc RawVolume) → Bool → Runtime → CheckResult
take_raw true _ changed rt = checked changed rt
take_raw false (err e) changed rt =
    broken (wrapped ("daemon is failed to prepare ceph volumes raw info report" ∷ []) e) rt
take_raw false (ok raws) changed rt =
    if map_equal raw_equal rt.volumes_raw raws
    then checked changed rt
    else checked true (record rt { volumes_raw = raws })

abbrev pub then_check : CheckResult → (Bool → Runtime → CheckResult) → CheckResult
then_check (checked changed rt) f = f changed rt
then_check (broken e rt) f = broken e rt

unfoldable pub take_volumes :
    (raw_disabled : Bool)
    → Result (Assoc (List LvmVolume))
    → Result (Assoc RawVolume)
    → Bool
    → Runtime
    → CheckResult
unfolding take_raw take_lvm
take_volumes raw_disabled (err e) raws changed rt =
    broken (wrapped ("daemon is failed to prepare ceph volumes lvm info report" ∷ []) e) rt
take_volumes raw_disabled (ok volumes) raws changed rt =
    then_check (take_raw raw_disabled raws changed rt) (take_lvm volumes)

unfoldable pub check_scanned :
    (raw_disabled : Bool) → Answers → Runtime → Result Scanned → CheckResult
unfolding take_disks take_volumes
check_scanned raw_disabled a rt (err e) =
    broken (wrapped ("daemon is failed to prepare block device report" ∷ []) e) rt
check_scanned raw_disabled a rt (ok s) =
    then_check (take_disks a s rt) (take_volumes raw_disabled a.lvm_list a.raw_list)

-- `checkDisks`, less its last step.
unfoldable pub check_disks : (raw_disabled : Bool) → Answers → Runtime → CheckResult
unfolding check_scanned
check_disks raw_disabled a rt =
    check_scanned raw_disabled a rt (process_lsblk_info a.udevadm a.lsblk)

-- `updateNodeReportState`
unfoldable pub update_report :
    Bool → Option DisksReport → Option OsdsReport → List String → String → Daemon → Daemon
update_report ready disks osds issues time d = record d {
  report = record {
    state = if is_empty issues then (if ready then DiskDaemonState.ok else preparing) else failed;
    last_run = time;
    issues = issues;
    disks_report = disks;
    osds_report = osds;
  };
}

abbrev pub after_osds : Runtime → DisksReport → Option OsdsCheck → Option (List String × Runtime)
after_osds rt r none = none
after_osds rt r (some c) = some (
  c.issues,
  record rt { disks_report = some r; volumes_lvm = c.left; osds_report = some c.found },
)

abbrev pub after_mapping :
    ℕ → Runtime → DisksReport → Option (Assoc (List String)) → Option (List String × Runtime)
after_mapping fuel rt r none = none
after_mapping fuel rt r (some m) =
    after_osds rt (record r { disk_to_osd = m })
      (check_osds fuel (record r { disk_to_osd = m }) rt.volumes_lvm rt.volumes_raw)

-- What follows when something has changed: the last step of `checkDisks`, and `checkOsds`. There is
-- a report on disks then.
unfoldable pub check_changed : ℕ → Runtime → Option DisksReport → Option (List String × Runtime)
unfolding disk_to_osd_map check_osds
check_changed fuel rt none = none
check_changed fuel rt (some r) =
    after_mapping fuel rt r (disk_to_osd_map fuel r rt.volumes_lvm rt.volumes_raw)

abbrev pub publish : String → Daemon → Option (List String × Runtime) → Option Daemon
publish time d none = none
publish time d (some (issues, rt)) =
    some (update_report true rt.disks_report rt.osds_report issues time (record d { runtime = rt }))

abbrev pub after_check : ℕ → String → Daemon → CheckResult → Option Daemon
after_check fuel time d (broken e rt) =
    some (update_report false none none (e.text ∷ []) time (record d { runtime = rt }))
after_check fuel time d (checked changed rt) =
    publish time d (if changed then check_changed fuel rt rt.disks_report else some ([], rt))

-- `prepareReport`. There is no result if `findDisks` or `FindDiskName` does not end.
unfoldable pub prepare_report : ℕ → Answers → Daemon → Option Daemon
unfolding check_disks update_report check_changed
prepare_report fuel a d =
    let d₀ = update_report false none none [] a.time d in
    after_check fuel a.time d₀ (check_disks d₀.raw_disabled a d₀.runtime)
