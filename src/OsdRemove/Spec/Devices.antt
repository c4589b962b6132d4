-- ===== src/OsdRemove/Spec/Devices.antt =====
-- spec_handler.go: the devices of a volume, those of the spec, and which disks may be zapped.
use pelagia.Prelude.{
  String, Bool, true, false, not, ◌&&◌, ◌||◌, any, Option, none, some, List, [], ◌∷◌, Assoc, insert,
  lookup, lookup_or, drop_prefix, has_key, contains, has_prefix, is_empty, ◌==◌, if◌then◌else◌,
}
use pelagia.Task.{DeviceInfo}
use pelagia.Common.Objects.{StorageNode, StorageDevice}
use pelagia.Common.Disks.{OsdDaemonInfo, OsdDevice, OsdPartition, path_dev_prepended}
use pelagia.Common.World.{Env}
use pelagia.OsdRemove.Jobs.Build.{text_or}

-- The path of a device: its first by-path link, or else its last link that names no volume.
unfoldable pub device_path : String → List String → String
device_path cur [] = cur
device_path cur (link ∷ links) =
    let rest = device_path (if has_prefix link "/dev/disk/by-id/lvm" then cur else link) links in
    if has_prefix link "/dev/disk/by-path/" then link else rest

-- The type of the partition that the device is used for.
unfoldable pub usage_type : String → List OsdPartition → String
usage_type name [] = ""
usage_type name (p ∷ ps) = if p.partition == name then p.type else usage_type name ps

unfoldable pub device_info : List OsdPartition → OsdDevice → DeviceInfo
device_info parts dev = record {
  rotational = dev.rotational;
  path = device_path dev.name dev.device_symlinks;
  id = dev.device_id;
  partition = if dev.raw then dev.name else dev.related_partition;
  parted_by = dev.parted_by;
  type = if dev.raw then "block" else usage_type dev.related_partition parts;
  zap = false;
  alive = true;
  raw = dev.raw;
}

unfoldable pub devs_info : List OsdPartition → List OsdDevice → Assoc DeviceInfo → Assoc DeviceInfo
devs_info parts [] infos = infos
devs_info parts (dev ∷ devs) infos =
    devs_info parts devs (insert dev.name (device_info parts dev) infos)

-- `getDevsInfoFromDaemonInfo`
unfoldable pub get_devs_info_from_daemon_info : OsdDaemonInfo → Assoc DeviceInfo
get_devs_info_from_daemon_info info = devs_info info.partitions info.devices []

-- `usedDevices`: the filters and the devices of the spec with their types.
pub record UsedDevices : Type 0 where
  pub device_filter : String
  pub device_path_filter : String
  pub devices : Assoc String

abbrev pub no_devices : UsedDevices
no_devices = record { device_filter = ""; device_path_filter = ""; devices = [] }

abbrev add_meta : Option String → Assoc String → Assoc String
add_meta none devices = devices
add_meta (some dev) devices = insert (path_dev_prepended dev) "db" devices

abbrev not_empty : Option String → Option String
not_empty none = none
not_empty (some s) = if s == "" then none else some s

abbrev add_block : StorageDevice → Assoc String → Assoc String
add_block d devices =
    if d.name == ""
    then (if d.full_path == "" then devices else insert d.full_path "block" devices)
    else insert (path_dev_prepended d.name) "block" devices

unfoldable pub add_devices : List StorageDevice → Assoc String → Assoc String
add_devices [] devices = devices
add_devices (d ∷ ds) devices =
    add_devices ds (add_meta (not_empty (lookup "metadataDevice" d.config)) (add_block d devices))

-- `getListUsedDevices`. A filter counts only for a node without devices, the device filter first.
unfoldable pub get_list_used_devices : StorageNode → UsedDevices
get_list_used_devices node =
    let meta = add_meta (lookup "metadataDevice" node.config) [] in
    if is_empty node.devices
    then record {
      device_filter = node.device_filter;
      device_path_filter = node.device_path_filter;
      devices = meta;
    }
    else record {
      device_filter = "";
      device_path_filter = "";
      devices = add_devices node.devices meta;
    }

-- `devMapping` and `partMapping`: by type, the names of the devices and of the partitions.
pub record Names : Type 0 where
  pub devs : Assoc (List String)
  pub parts : Assoc (List String)

abbrev pub dev_names : OsdDevice → List String
dev_names dev = dev.name ∷ path_dev_prepended dev.name ∷ dev.device_symlinks

abbrev pub part_names : OsdPartition → List String
part_names part = part.partition ∷ part.partition_symlinks

unfoldable pub related : String → List OsdPartition → Option OsdPartition
related name [] = none
related name (p ∷ ps) = if p.partition == name then some p else related name ps

-- The device is the one that is looked for, if one is.
abbrev pub is_wanted : String → List String → Bool
is_wanted look names = look == "" || contains names (path_dev_prepended look)

unfoldable pub add_raw : String → OsdDevice → Names → Names
add_raw look dev n =
    if is_wanted look (dev_names dev)
    then record n { devs = insert "block" (dev_names dev) n.devs }
    else n

unfoldable pub add_part : String → OsdDevice → Option OsdPartition → Names → Names
add_part look dev none n = n
add_part look dev (some part) n =
    if is_wanted look (dev_names dev) || is_wanted look (part_names part)
    then record {
      devs = insert part.type (dev_names dev) n.devs;
      parts = insert part.type (part_names part) n.parts;
    }
    else n

unfoldable pub collect_names : String → List OsdPartition → List OsdDevice → Names → Names
collect_names look parts [] n = n
collect_names look parts (dev ∷ devs) n = collect_names look parts devs (
    if dev.raw
    then add_raw look dev n
    else add_part look dev (related dev.related_partition parts) n)

-- A device or filter of the spec, and the type of its use.
abbrev pub InSpec : Type 0
InSpec = Option (String × String)

-- The last match of `specDevs.Devices` by a device, then by a partition of the same type.
unfoldable pub first_present : Assoc String → List String → Option String
first_present spec [] = none
first_present spec (n ∷ ns) = if has_key n spec then some n else first_present spec ns

unfoldable pub first_typed : Assoc String → String → List String → Option String
first_typed spec type [] = none
first_typed spec type (n ∷ ns) =
    if has_key n spec && lookup_or "" n spec == type then some n else first_typed spec type ns

abbrev later : Option String → Option String → Option String
later first none = first
later first (some second) = some second

-- The search for one type; an empty name counts as not found.
unfoldable pub found_for : Assoc String → Names → String → Option String
found_for spec n type = not_empty (
    later (first_present spec (lookup_or [] type n.devs))
      (first_typed spec type (lookup_or [] type n.parts)))

unfoldable pub found_in : Assoc String → Names → List String → InSpec
found_in spec n [] = none
found_in spec n (type ∷ types) = elim (found_for spec n type) [
  | some name ↦ some (name, type)
  | none ↦ found_in spec n types
]

-- `strings.CutPrefix(name, "/dev/")`
abbrev pub cut_dev : String → String
cut_dev name = text_or name (drop_prefix "/dev/" name)

module _ (env : Env) where
  abbrev matches_filter : UsedDevices → String → Bool
  matches_filter spec name =
      if spec.device_filter == ""
      then env.regex_matches spec.device_path_filter name
      else env.regex_matches spec.device_filter (cut_dev name)

  abbrev filter_of : UsedDevices → String
  filter_of spec = if spec.device_filter == "" then spec.device_path_filter else spec.device_filter

  -- The block device and its partitions against the filter; the partitions keep their prefix.
  unfoldable pub block_in_filter : UsedDevices → Names → Bool
  block_in_filter spec n =
      any (matches_filter spec) (lookup_or [] "block" n.devs)
      || any (env.regex_matches (filter_of spec)) (lookup_or [] "block" n.parts)

  abbrev has_filter : UsedDevices → Bool
  has_filter spec = not (spec.device_filter == "") || not (spec.device_path_filter == "")

  -- `inSpec`
  unfoldable pub device_in_spec : OsdDaemonInfo → UsedDevices → String → InSpec
  device_in_spec info spec look =
      let n = collect_names look info.partitions info.devices (record { devs = []; parts = [] }) in
      if has_key "block" n.devs && has_filter spec
      then (if block_in_filter spec n
          then some (filter_of spec, "block")
          else found_in spec.devices n ("db" ∷ []))
      else found_in spec.devices n ("block" ∷ "db" ∷ [])
