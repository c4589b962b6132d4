-- ===== src/DiskDaemon/Samples.antt =====
-- A node with one disk, and an OSD on two devices, which is not supported.
use pelagia.Prelude.{
  ◌≡◌, refl, true, false, Option, none, some, [], ◌∷◌, lookup, insert, split, sort_strings, sprint,
  arith,
}
use pelagia.Common.Disks.{DiskDaemonState}
use pelagia.Common.Tree.{block_of}
use pelagia.Config.Values.{trim_newline}
use pelagia.DiskDaemon.Equal.{map_equal}
use pelagia.Common.World.{ok}
use pelagia.DiskDaemon.Devices.{LsblkDevice, no_more, device, mapper_link, process_lsblk_info}
use pelagia.DiskDaemon.Volumes.{LvmVolume, compacted_array}
use pelagia.DiskDaemon.Pass.{Answers, Daemon, daemon_from, prepare_report}
use pelagia.DiskDaemon.Pass.Forgets.{without_issues, prepare_report-forgets}

abbrev disk_device : LsblkDevice
disk_device = record {
  name = "/dev/sda";
  kname = "/dev/sda";
  serial = "";
  maj_min = "8:0";
  rotational = true;
  type = "disk";
  parent = "";
  fstype = "";
}

abbrev two_disk_volume : LvmVolume
two_disk_volume = record {
  devices = "/dev/sda" ∷ "/dev/sdb" ∷ [];
  lv_path = "/dev/ceph/osd";
  path = "/dev/ceph/osd";
  tags = record { block_dev = ""; db_device = ""; cluster_fsid = "c"; osd_fsid = "f" };
  type = "block";
}

abbrev answers : Answers
answers = record {
  lsblk = ok (device disk_device no_more no_more);
  udevadm = λ name. ok "/dev/disk/by-id/a\n";
  active_lvs = ok [];
  scan_error = λ disk. none;
  lvm_list = ok (("0", two_disk_volume ∷ []) ∷ []);
  raw_list = ok [];
  time = "now";
}

abbrev daemon_or : Daemon → Option Daemon → Daemon
daemon_or d none = d
daemon_or d (some d₁) = d₁

abbrev stale_daemon : Daemon
stale_daemon = daemon_or (daemon_from false) (prepare_report 3 answers (daemon_from false))

-- The first pass reports the OSD.
first_pass :
    (stale_daemon.report.state ≡ DiskDaemonState.failed)
    × (stale_daemon.report.issues
        ≡ "multidisk setup detected for osd '0', partition '/dev/ceph/osd', which is not supported"
          ∷ [])
unfolding prepare_report process_lsblk_info map_equal block_of lookup insert split trim_newline
    sort_strings sprint
first_pass = (refl, refl)

prepare_report-forgets_example :
    prepare_report 1 answers stale_daemon ≡ some (without_issues stale_daemon)
unfolding prepare_report process_lsblk_info map_equal block_of lookup insert split trim_newline
    sort_strings sprint
prepare_report-forgets_example =
    prepare_report-forgets 3 1 answers (daemon_from false) stale_daemon (refl, tt) tt
      ((refl, tt), tt) tt refl (λ e. ground (arith, e))

-- The array of a list of one device that is repeated.
repeated : compacted_array ("/dev/sda" ∷ "/dev/sda" ∷ []) ≡ "/dev/sda" ∷ "" ∷ []
unfolding compacted_array
repeated = refl

linked : mapper_link "/dev/mapper/ceph--a-osd--b" ≡ "/dev/ceph-a/osd-b"
unfolding mapper_link sprint
linked = refl
