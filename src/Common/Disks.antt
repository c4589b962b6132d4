-- ===== src/Common/Disks.antt =====
-- The reports of the disk daemon (pkg/common/disk_daemon_types.go) and the helpers of
-- pkg/common/lcm_utils.go and pkg/common/k8s_utils.go that read them and the nodes.
use pelagia.Prelude.{
  String, Bool, true, false, not, Option, List, [], ◌∷◌, any, Assoc, sprint, has_prefix, is_empty,
  ◌==◌, if◌then◌else◌,
}
use pelagia.Common.Objects.{Node}

-- `OsdDevice`
pub record OsdDevice : Type 0 where
  pub name : String
  pub device_id : String
  pub device_symlinks : List String
  pub rotational : Bool
  pub related_partition : String
  pub parted_by : String
  pub raw : Bool

-- `OsdPartition`
pub record OsdPartition : Type 0 where
  pub partition : String
  pub partition_symlinks : List String
  pub type : String
  pub exists : Bool
  pub lvm : Bool

-- `OsdDaemonInfo`: a volume of an OSD.
pub record OsdDaemonInfo : Type 0 where
  pub osd_uuid : String
  pub cluster_fsid : String
  pub devices : List OsdDevice
  pub partitions : List OsdPartition

-- `DiskDaemonOsdsReport`
pub record OsdsReport : Type 0 where
  pub warnings : List String
  pub osds : Assoc (List OsdDaemonInfo)

-- `BlockDeviceInfo`
pub record BlockDeviceInfo : Type 0 where
  pub kname : String
  pub serial : String
  pub type : String
  pub fstype : String
  pub rotational : Bool
  pub maj_min : String
  pub symlinks : List String
  pub parent : List String
  pub childrens : List String

-- `DiskDaemonDisksReport`
pub record DisksReport : Type 0 where
  pub block_info : Assoc BlockDeviceInfo
  pub aliases : Assoc String
  pub disk_to_osd : Assoc (List String)

-- `DiskDaemonState`
pub data DiskDaemonState : Type 0 where
  ok failed preparing skipped : DiskDaemonState

-- `DiskDaemonReport`
pub record DiskDaemonReport : Type 0 where
  pub state : DiskDaemonState
  pub last_run : String
  pub issues : List String
  pub disks_report : Option DisksReport
  pub osds_report : Option OsdsReport

-- `PathDevPrepended`
unfoldable pub path_dev_prepended : String → String
path_dev_prepended name = if has_prefix name "/dev/" then name else sprint ("/dev/" ∷ name ∷ [])

-- The taints that `IsNodeAvailable` looks for.
abbrev pub is_down_taint : String → Bool
is_down_taint key =
    if key == "node.kubernetes.io/unreachable"
    then true
    else if key == "node.kubernetes.io/unschedulable"
    then true
    else if key == "node.kubernetes.io/not-ready"
    then true
    else key == "node.kubernetes.io/out-of-service"

-- `IsNodeAvailable`, less the reason, which is only logged.
unfoldable pub is_node_available : Node → Bool
is_node_available node = not (any is_down_taint node.taints)

-- `IsNodeWithDiskDaemon`, with the selector of the label parsed and matched by `matches`.
unfoldable pub is_node_with_disk_daemon :
    (String → List (String × String) → Bool) → String → Node → Bool
is_node_with_disk_daemon matches label node =
    if is_empty node.labels then false else matches label node.labels
