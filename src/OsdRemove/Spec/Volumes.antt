-- ===== src/OsdRemove/Spec/Volumes.antt =====
-- spec_handler.go: whose volume it is, under which key it is planned, and the disks that are kept.
pub mod Key
use pelagia.Prelude.{
  ℕ, String, Bool, true, false, not, ◌&&◌, ◌++◌, any, none, some, List, [], ◌∷◌, map, Assoc, insert,
  lookup, lookup_or, merge, sprint, show_nat, ◌==◌, if◌then◌else◌,
}
use pelagia.Task.{DeviceInfo, OsdMapping, HostMapping, TaskRemoveInfo}
use pelagia.Common.Objects.{OsdMetadataInfo}
use pelagia.Common.Disks.{OsdDaemonInfo, OsdDevice, OsdPartition}
use pelagia.OsdRemove.Config.{stray_osd_node_marker}
use pelagia.OsdRemove.Spec.Metadata.{
  ClusterOsds, uuid_of, osd_directory, crush_mapping, metadata_of, fill_devices_info_from_metadata,
  on_node,
}

-- `knownHostOsds`
unfoldable pub known_osds : List ℕ → Assoc ℕ → Assoc ℕ
known_osds [] known = known
known_osds (id ∷ ids) known = known_osds ids (insert (show_nat id) id known)

-- `strayOsdsNoHost`: the OSDs whose metadata names no host.
unfoldable pub strays_no_host : List OsdMetadataInfo → Assoc Bool → Assoc Bool
strays_no_host [] strays = strays
strays_no_host (m ∷ ms) strays =
    strays_no_host ms (if m.hostname == "" then insert (show_nat m.osd_id) true strays else strays)

-- The metadata devices of a crush OSD that the volume has, for volumes without uuid and fsid.
abbrev pub is_db_part : DeviceInfo → OsdPartition → Bool
is_db_part info part = info.partition == part.partition && part.type == "db"

abbrev pub is_db_of : OsdDaemonInfo → String × DeviceInfo → Bool
is_db_of vol (_, info) = info.type == "db" && any (is_db_part info) vol.partitions

module _ (k : ClusterOsds) where
  abbrev pub meta_of : ℕ → Assoc DeviceInfo
  meta_of id = fill_devices_info_from_metadata (metadata_of id k.metadata)

  -- `checkFromCrush`: the volume is the one of the host's OSD of that id.
  unfoldable pub check_from_crush : Assoc ℕ → String → OsdDaemonInfo → Bool
  check_from_crush known osd vol = elim (lookup osd known) [
    | none ↦ false
    | some id ↦
        if not (vol.osd_uuid == "") && not (vol.cluster_fsid == "")
        then vol.osd_uuid == uuid_of k osd && vol.cluster_fsid == k.fsid
        else any (is_db_of vol) (meta_of id)
  ]

  -- `strayInCrush`: the volume of an OSD of the crush map that is on no host.
  unfoldable pub is_stray_in_crush : Assoc Bool → String → OsdDaemonInfo → Bool
  is_stray_in_crush strays osd vol = lookup_or false osd strays && vol.osd_uuid == uuid_of k osd

  -- A volume of the cluster with no uuid or fsid gets those of the OSD.
  unfoldable pub identified : Bool → String → OsdDaemonInfo → OsdDaemonInfo
  identified ours osd vol = record vol {
    cluster_fsid = if vol.cluster_fsid == "" && ours then k.fsid else vol.cluster_fsid;
    osd_uuid = if vol.osd_uuid == "" && ours then uuid_of k osd else vol.osd_uuid;
  }

  unfoldable pub volume_directory : OsdDaemonInfo → String
  volume_directory vol =
      if not (vol.cluster_fsid == "") && not (vol.osd_uuid == "")
      then osd_directory k vol.cluster_fsid vol.osd_uuid
      else ""

  -- The mapping of a volume.
  unfoldable pub volume_mapping : OsdDaemonInfo → Bool → Bool → Assoc DeviceInfo → OsdMapping
  volume_mapping vol in_crush skip devices = record {
    uuid = vol.osd_uuid;
    cluster_fsid = vol.cluster_fsid;
    host_directory = volume_directory vol;
    in_crush_map = in_crush;
    device_mapping = devices;
    skip_device_cleanup_job = skip;
    remove_status = none;
  }

  -- An OSD that is gone from its host: only the crush map knows of it.
  unfoldable pub stray_mapping : String → OsdMapping
  stray_mapping osd = record {
    uuid = uuid_of k osd;
    cluster_fsid = k.fsid;
    host_directory = "";
    in_crush_map = true;
    device_mapping = [];
    skip_device_cleanup_job = false;
    remove_status = none;
  }

-- Mappings of OSDs that Ceph knows on the host, from its metadata.
unfoldable pub known_mappings : ClusterOsds → Assoc ℕ → Assoc OsdMapping → Assoc OsdMapping
known_mappings k [] osds = osds
known_mappings k ((osd, id) ∷ more) osds =
    known_mappings k more (insert osd (crush_mapping k osd (meta_of k id)) osds)

unfoldable pub stray_key : String → String → String
stray_key osd uuid =
    if uuid == ""
    then sprint (osd ∷ "." ∷ stray_osd_node_marker ∷ [])
    else sprint (osd ∷ "." ∷ uuid ∷ "." ∷ stray_osd_node_marker ∷ [])

unfoldable pub stray_warning : String → String → OsdDaemonInfo → String
stray_warning host osd vol =
    on_node host
      ("found stray osd uuid '" ∷ vol.osd_uuid ∷ "', id '" ∷ osd ∷ "', will be cleaned up" ∷ [])

-- The volume's devices join those of an OSD that is planned already, or else the OSD is planned.
unfoldable pub add_volume :
    String → Assoc DeviceInfo → OsdMapping → Assoc OsdMapping → Assoc OsdMapping
add_volume key devices new osds = elim (lookup key osds) [
  | none ↦ insert key new osds
  | some m ↦ insert key (record m { device_mapping = merge m.device_mapping devices }) osds
]

abbrev pub device_names : OsdDaemonInfo → List String
device_names vol = map (λ (dev : OsdDevice). dev.name) vol.devices

abbrev is_part_of : String → OsdDevice → OsdPartition → Bool
is_part_of type dev part = part.partition == dev.related_partition && part.type == type

-- Of a metadata device, only the first device of the volume is looked at: the source leaves the
-- loop behind it.
abbrev pub first_metadata_device : String → List OsdPartition → List OsdDevice → List String
first_metadata_device type parts [] = []
first_metadata_device type parts (dev ∷ _) =
    if any (is_part_of type dev) parts then dev.name ∷ [] else []

-- The disks of a volume that the spec uses as `type`, to be kept from zapping.
unfoldable pub spec_locks : String → OsdDaemonInfo → List String
spec_locks type vol =
    if type == "block"
    then device_names vol
    else first_metadata_device type vol.partitions vol.devices

-- What is found for one host: the warnings, the strays, the OSDs and the disks not to zap.
pub record Scan : Type 0 where
  pub warnings : List String
  pub strays : Assoc Bool
  pub osds : Assoc OsdMapping
  pub locked : List String

abbrev pub empty_scan : Assoc Bool → Scan
empty_scan strays = record { warnings = []; strays = strays; osds = []; locked = [] }

abbrev pub warned : List String → Scan → Scan
warned ws s = record s { warnings = s.warnings ++ ws }

abbrev pub locked_with : List String → Scan → Scan
locked_with devs s = record s { locked = s.locked ++ devs }

-- `newResult` and `strayOsdsNoHost`.
pub record Search : Type 0 where
  pub info : TaskRemoveInfo
  pub strays : Assoc Bool

abbrev pub add_issues : List String → Search → Search
add_issues is s = record s { info = record (s.info) { issues = s.info.issues ++ is } }

abbrev pub add_warnings : List String → Search → Search
add_warnings ws s = record s { info = record (s.info) { warnings = s.info.warnings ++ ws } }

abbrev pub add_host : String → HostMapping → Search → Search
add_host host m s = record s {
  info = record (s.info) { cleanup_map = insert host m s.info.cleanup_map };
}
