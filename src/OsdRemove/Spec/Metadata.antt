-- ===== src/OsdRemove/Spec/Metadata.antt =====
-- helpers.go: what is known of an OSD from Ceph's metadata.
use pelagia.Prelude.{
  ℕ, String, Bool, true, false, ◌||◌, ◌++◌, any, Option, none, some, List, [], ◌∷◌, map, Assoc,
  insert, lookup_or, adjust, sprint, split, show_nat, contains, has_text, nat_eq, ◌==◌,
  if◌then◌else◌,
}
use pelagia.Task.{DeviceInfo, OsdMapping, HostMapping}
use pelagia.Common.Objects.{OsdMetadataInfo, OsdInfo}
use pelagia.Common.Disks.{OsdDaemonInfo, OsdDevice, OsdPartition, path_dev_prepended}
use pelagia.OsdRemove.Config.{plain_osd_id}

-- `strings.Split(s, ",")[0]`
abbrev pub first_or_empty : List String → String
first_or_empty [] = ""
first_or_empty (s ∷ _) = s

abbrev pub device_of : Bool → String → String → DeviceInfo
device_of rotational type partition = record {
  rotational = rotational;
  path = "";
  id = "";
  partition = partition;
  parted_by = "";
  type = type;
  zap = false;
  alive = false;
  raw = false;
}

-- A field of a device that the metadata lists as `name=value`.
abbrev pub set_path_or_id : Bool → String → DeviceInfo → DeviceInfo
set_path_or_id true value info = record info { id = value }
set_path_or_id false value info = record info { path = value }

abbrev pub fill_one : Bool → List String → Assoc DeviceInfo → Assoc DeviceInfo
fill_one by_id (name ∷ value ∷ []) devices =
    adjust (path_dev_prepended name) (set_path_or_id by_id value) devices
fill_one by_id _ devices = devices

-- `fillDevicePathOrID`
unfoldable pub fill_device_path_or_id : Bool → List String → Assoc DeviceInfo → Assoc DeviceInfo
fill_device_path_or_id by_id [] devices = devices
fill_device_path_or_id by_id (dev ∷ devs) devices =
    fill_device_path_or_id by_id devs (fill_one by_id (split b'=' dev) devices)

unfoldable pub block_device : OsdMetadataInfo → Assoc DeviceInfo
block_device meta =
    (
      path_dev_prepended (first_or_empty (split b',' meta.bluestore_devices)),
      device_of (meta.bluestore_device_type == "hdd") "block" meta.bluestore_partition,
    )
    ∷ []

unfoldable pub with_db_device : OsdMetadataInfo → Assoc DeviceInfo → Assoc DeviceInfo
with_db_device meta devices =
    if meta.metadata_disk_used == "1"
    then insert (path_dev_prepended (first_or_empty (split b',' meta.metadata_devices)))
        (device_of (meta.metadata_device_type == "hdd") "db" meta.metadata_partition) devices
    else devices

-- `fillDevicesInfoFromMetadata`
unfoldable pub fill_devices_info_from_metadata : OsdMetadataInfo → Assoc DeviceInfo
fill_devices_info_from_metadata meta = fill_device_path_or_id true (split b',' meta.device_ids) (
    fill_device_path_or_id false (split b',' meta.device_pathes)
      (with_db_device meta (block_device meta)))

-- `osdMetadataMap`: the entry of an OSD, the last one if there are several.
unfoldable pub find_metadata : ℕ → List OsdMetadataInfo → Option OsdMetadataInfo
find_metadata osd [] = none
find_metadata osd (m ∷ ms) = elim (find_metadata osd ms) [
  | none ↦ if nat_eq m.osd_id osd then some m else none
  | some found ↦ some found
]

abbrev pub no_metadata : OsdMetadataInfo
no_metadata = record {
  device_pathes = "";
  device_ids = "";
  hostname = "";
  bluestore_devices = "";
  bluestore_device_type = "";
  bluestore_partition = "";
  metadata_disk_used = "";
  metadata_devices = "";
  metadata_device_type = "";
  metadata_partition = "";
  osd_id = 0;
}

abbrev first_metadata : List OsdMetadataInfo → OsdMetadataInfo
first_metadata [] = no_metadata
first_metadata (m ∷ _) = m

-- `osdsMetadataFromCluster[osdMetadataMap[osd]]`: an OSD with no entry has the index 0, so that the
-- first entry is taken. With no entries at all the source panics; the model goes on with an empty
-- entry.
unfoldable pub metadata_of : ℕ → List OsdMetadataInfo → OsdMetadataInfo
unfolding find_metadata
metadata_of osd metas = elim (find_metadata osd metas) [ none ↦ first_metadata metas | some m ↦ m ]

-- What both handlers read of the cluster: the metadata, `osdUUIDMap`, the cluster's fsid and
-- namespace, and `dataDirHostPath`.
pub record ClusterOsds : Type 0 where
  pub metadata : List OsdMetadataInfo
  pub uuids : Assoc String
  pub fsid : String
  pub namespace : String
  pub host_dir : String

unfoldable pub uuid_of : ClusterOsds → String → String
uuid_of k osd = lookup_or "" osd k.uuids

unfoldable pub uuid_map : List OsdInfo → Assoc String → Assoc String
uuid_map [] uuids = uuids
uuid_map (o ∷ os) uuids = uuid_map os (insert (show_nat o.osd_id) o.uuid uuids)

-- `fmt.Sprintf("%s/%s/%s_%s", …)`: the directory of an OSD on its host.
unfoldable pub osd_directory : ClusterOsds → String → String → String
osd_directory k fsid uuid = sprint (k.host_dir ∷ "/" ∷ k.namespace ∷ "/" ∷ fsid ∷ "_" ∷ uuid ∷ [])

-- The mapping of an OSD of the crush map.
unfoldable pub crush_mapping : ClusterOsds → String → Assoc DeviceInfo → OsdMapping
crush_mapping k osd devices = record {
  uuid = uuid_of k osd;
  cluster_fsid = k.fsid;
  host_directory = osd_directory k k.fsid (uuid_of k osd);
  in_crush_map = true;
  device_mapping = devices;
  skip_device_cleanup_job = false;
  remove_status = none;
}

-- `mappingConfig`
pub record MappingConfig : Type 0 where
  pub node_in_spec : Bool
  pub node_available : Bool
  pub host : String
  pub osds_to_clean : List ℕ

unfoldable pub on_node : String → List String → String
on_node host parts = sprint ("[node '" ∷ host ∷ "'] " ∷ parts)

unfoldable pub down_warning : MappingConfig → String
down_warning c =
    if c.node_available
    then on_node c.host (
        "node is available, but has no disk daemon running, device cleanup jobs will be skipped"
        ∷ [])
    else if c.node_in_spec
    then on_node c.host
        ("node is not available, but present in spec, device cleanup jobs will be skipped" ∷ [])
    else on_node c.host ("node is not available, device cleanup jobs will be skipped" ∷ [])

abbrev set_dead : String × DeviceInfo → String × DeviceInfo
set_dead (dev, info) = (dev, record info { alive = false })

unfoldable pub meta_devices : Bool → OsdMetadataInfo → Assoc DeviceInfo
meta_devices available meta =
    if available
    then fill_devices_info_from_metadata meta
    else map set_dead (fill_devices_info_from_metadata meta)

unfoldable pub fill_from_meta :
    ClusterOsds
    → MappingConfig
    → List ℕ
    → Assoc OsdMapping
    → List String
    → Assoc OsdMapping × List String
fill_from_meta k c [] osds warnings = (osds, warnings)
fill_from_meta k c (osd ∷ ids) osds warnings = elim (find_metadata osd k.metadata) [
  | some meta ↦
      fill_from_meta k c ids
        (insert (show_nat osd) (crush_mapping k (show_nat osd) (meta_devices c.node_available meta))
          osds)
        warnings
  | none ↦
      fill_from_meta k c ids osds (
        warnings
        ++ on_node c.host ("node has no osd id '" ∷ show_nat osd ∷ "', skipping" ∷ []) ∷ [])
]

-- `fillOsdMappingFromOsdMeta`
unfoldable pub fill_osd_mapping_from_osd_meta :
    ClusterOsds → MappingConfig → Assoc OsdMapping × List String
fill_osd_mapping_from_osd_meta k c = fill_from_meta k c c.osds_to_clean [] (down_warning c ∷ [])

-- The warnings of the daemon that name the OSD.
unfoldable pub osd_warnings : String → String → List String → List String
osd_warnings host id [] = []
osd_warnings host id (w ∷ ws) =
    let rest = osd_warnings host id ws in
    if has_text w (sprint ("osd '" ∷ id ∷ "'" ∷ [])) then on_node host (w ∷ []) ∷ rest else rest

unfoldable pub each_osd_warnings : String → Assoc OsdMapping → List String → List String
each_osd_warnings host [] warnings = []
each_osd_warnings host ((osd, _) ∷ osds) warnings =
    osd_warnings host (plain_osd_id osd) warnings ++ each_osd_warnings host osds warnings

-- `getReportWarningsInNodeFormat`
unfoldable pub get_report_warnings_in_node_format : HostMapping → String → List String → List String
get_report_warnings_in_node_format h host warnings =
    if h.complete_cleanup || h.drop_from_crush
    then map (λ w. on_node host (w ∷ [])) warnings
    else each_osd_warnings host h.osd_mapping warnings

-- `checkDisksOrPartition`
abbrev is_device : String → OsdDevice → Bool
is_device look dev = path_dev_prepended look == dev.name || contains dev.device_symlinks look

abbrev is_partition : String → OsdPartition → Bool
is_partition look part = look == part.partition || contains part.partition_symlinks look

unfoldable pub check_disks_or_partition : OsdDaemonInfo → String → Bool
check_disks_or_partition info look =
    any (is_device look) info.devices || any (is_partition look) info.partitions
