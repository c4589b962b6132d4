-- ===== src/Health/Analysis/Devices.antt =====
-- runSpecAnalysis of pkg/controller/health/spec_osd_verification.go, its first part: the devices that
-- the spec of a node names, by a filter or one by one, against the disks of the node. An expression
-- is one that compiles, as MustCompile wants it.
pub mod Sound
use pelagia.Prelude.{
  ℕ, String, Bool, true, false, not, ◌&&◌, ◌||◌, ◌++◌, any, none, some, List, [], ◌∷◌, Assoc,
  insert, lookup, lookup_or, drop_prefix, has_prefix, is_empty, sprint, ◌==◌, if◌then◌else◌,
}
use pelagia.Prelude.Numbers.{ℤ, pos, parse_int}
use pelagia.Common.Objects.{StorageDevice, StorageNode}
use pelagia.Common.Disks.{BlockDeviceInfo, DisksReport, path_dev_prepended}
use pelagia.Common.Tree.{disk, failed, running, find_disk_name, block_of}

-- `devForAnalysis`
pub record DevForAnalysis : Type 0 where
  pub dev : String
  pub full_disk_usage : Bool
  pub metadata_device : String
  pub osds_per_device : ℤ
  pub filtered : Bool
  pub specified_as : String

-- The lists and maps of the loop. `ended` is unset when a search for a disk has no end.
pub record Checked : Type 0 where
  pub issues : List String
  pub devices : List DevForAnalysis
  pub used : Assoc String
  pub metas : Assoc String
  pub ended : Bool

abbrev pub nothing_checked : Checked
nothing_checked = record { issues = []; devices = []; used = []; metas = []; ended = true }

abbrev pub blame_spec : List String → Checked → Checked
blame_spec texts st = record st { issues = st.issues ++ sprint texts ∷ [] }

-- `Aliases[name]`
unfoldable pub alias_of : DisksReport → String → String
alias_of report name = lookup_or "" name report.aliases

abbrev pub is_disk : DisksReport → String → Bool
is_disk report name = (block_of report name).type == "disk"

-- A setting of the node or of a device, or else the default.
abbrev pub meta_setting : String → Assoc String → String
meta_setting default config = lookup_or default "metadataDevice" config

abbrev pub count_setting : ℤ → Assoc String → ℤ
count_setting default config = elim (lookup "osdsPerDevice" config) [
  | none ↦ default
  | some v ↦ (parse_int v).value
]

abbrev without_dev : String → String
without_dev dev = elim (drop_prefix "/dev/" dev) [ none ↦ dev | some rest ↦ rest ]

module _ (matches : (pattern text : String) → Bool) where
  unfoldable pub is_filtered : String → Bool → String → BlockDeviceInfo → Bool
  is_filtered filter by_name dev info =
      if has_prefix dev "/dev/mapper/"
      then false
      else if by_name
      then matches filter (without_dev dev)
      else matches filter dev || any (matches filter) info.symlinks

  -- `findDisksForFilter`
  unfoldable pub find_disks_for_filter : String → Bool → Assoc BlockDeviceInfo → List String
  unfolding is_filtered
  find_disks_for_filter filter by_name [] = []
  find_disks_for_filter filter by_name ((dev, info) ∷ disks) =
      let rest = find_disks_for_filter filter by_name disks in
      if is_filtered filter by_name dev info then dev ∷ rest else rest

  module _ (report : DisksReport) (node : StorageNode) where
    abbrev pub node_meta : String
    node_meta = meta_setting "" node.config

    abbrev pub node_count : ℤ
    node_count = count_setting (pos 1) node.config

    unfoldable pub filtered_device : String → String → DevForAnalysis
    filtered_device filter dev = record {
      dev = dev;
      full_disk_usage = is_disk report (alias_of report (path_dev_prepended dev));
      metadata_device = node_meta;
      osds_per_device = node_count;
      filtered = true;
      specified_as = filter;
    }

    unfoldable pub filtered_devices : String → List String → List DevForAnalysis
    filtered_devices filter [] = []
    filtered_devices filter (dev ∷ devs) = filtered_device filter dev ∷ filtered_devices filter devs

    -- The devices that the filter has found.
    unfoldable pub use_filter : String → List String → Checked
    unfolding filtered_devices
    use_filter filter [] =
        blame_spec ("no devices found for device filter '" ∷ filter ∷ "'" ∷ []) nothing_checked
    use_filter filter (dev ∷ devs) =
        if not (node_meta == "") && matches filter node_meta
        then blame_spec ("specified metadata device matches device filter '" ∷ filter ∷ "'" ∷ [])
            nothing_checked
        else record nothing_checked { devices = filtered_devices filter (dev ∷ devs) }

    abbrev is_missing : String → Bool
    is_missing name = elim (lookup (path_dev_prepended name) report.aliases) [
      | none ↦ true
      | some _ ↦ false
    ]

    unfoldable pub check_filter : Checked
    unfolding use_filter find_disks_for_filter
    check_filter =
        if not (node_meta == "") && is_missing node_meta
        then blame_spec
            ("specified metadata device '" ∷ node_meta ∷ "' is not found on a node" ∷ [])
            nothing_checked
        else if not (node.device_filter == "")
        then use_filter node.device_filter
            (find_disks_for_filter node.device_filter true report.block_info)
        else use_filter node.device_path_filter
            (find_disks_for_filter node.device_path_filter false report.block_info)

    -- The name or path of a device in the spec.
    abbrev pub specified : StorageDevice → String
    specified dev = if dev.full_path == "" then dev.name else dev.full_path

    unfoldable pub device_with : StorageDevice → String → DevForAnalysis
    device_with dev disk_name = record {
      dev = disk_name;
      full_disk_usage = is_disk report (alias_of report (path_dev_prepended (specified dev)));
      metadata_device = meta_setting node_meta dev.config;
      osds_per_device = count_setting node_count dev.config;
      filtered = false;
      specified_as = specified dev;
    }

    abbrev accept : DevForAnalysis → Checked → Checked
    accept d st = record st {
      devices = st.devices ++ d ∷ [];
      used = insert (alias_of report (path_dev_prepended d.specified_as)) d.specified_as st.used;
    }

    abbrev meta_owner : DevForAnalysis → Checked → String
    meta_owner d st = lookup_or "" d.metadata_device st.metas

    abbrev shared_meta : String → DevForAnalysis → Checked → Checked
    shared_meta meta_dev d st =
        if not (is_disk report meta_dev) && not (meta_owner d st == "")
        then blame_spec
            ("spec device '"
              ∷ d.specified_as
              ∷ "' has metadata device '"
              ∷ d.metadata_device
              ∷ "', which is duplication use as meta for device '"
              ∷ meta_owner d st
              ∷ "'"
              ∷ [])
            st
        else st

    abbrev note_meta : DevForAnalysis → Checked → Checked
    note_meta d st = record st { metas = insert d.metadata_device d.specified_as st.metas }

    abbrev missing_meta : DevForAnalysis → List String
    missing_meta d =
        if path_dev_prepended d.metadata_device == path_dev_prepended node_meta
        then "specified metadata device '" ∷ node_meta ∷ "' is not found on a node" ∷ []
        else "metadata device '" ∷ d.metadata_device ∷ "' specified for device '" ∷ d.specified_as
          ∷ "' is not found on a node" ∷ []

    -- The metadata device of a device, and the device itself.
    unfoldable pub check_meta : DevForAnalysis → Checked → Checked
    check_meta d st =
        if d.metadata_device == ""
        then accept d st
        else elim (lookup (path_dev_prepended d.metadata_device) report.aliases) [
          | none ↦ blame_spec (missing_meta d) st
          | some meta_dev ↦ accept d (note_meta d (shared_meta meta_dev d st))
        ]

    unfoldable pub check_use : DevForAnalysis → Checked → Checked
    unfolding check_meta
    check_use d st = elim (lookup (alias_of report (path_dev_prepended d.specified_as)) st.used) [
      | some other ↦
          blame_spec
            ("spec device '" ∷ d.specified_as ∷ "' is duplication usage for item with device '"
              ∷ other ∷ "' (devices matched by id)" ∷ [])
            st
      | none ↦ check_meta d st
    ]

    unfoldable pub check_device : ℕ → StorageDevice → Checked → Checked
    unfolding check_use device_with
    check_device fuel dev st = elim (find_disk_name fuel report (specified dev)) [
      | disk name ↦ check_use (device_with dev name) st
      | failed text ↦
          blame_spec
            ("failed to check device '" ∷ specified dev ∷ "' specified in spec: " ∷ text ∷ []) st
      | running ↦ record st { ended = false }
    ]

    unfoldable pub check_devices : ℕ → List StorageDevice → Checked → Checked
    unfolding check_device
    check_devices fuel [] st = st
    check_devices fuel (dev ∷ devs) st = check_devices fuel devs (check_device fuel dev st)

    -- The devices for metadata must not be used for blocks.
    unfoldable pub check_metas : Assoc String → Checked → Checked
    check_metas [] st = st
    check_metas ((meta, used_for) ∷ metas) st =
        check_metas metas (elim (lookup (alias_of report meta) st.used) [
          | none ↦ st
          | some dev ↦
              blame_spec
                ("specified as metadata device '" ∷ meta ∷ "' (for device '" ∷ used_for
                  ∷ "') and is used as block device '" ∷ dev ∷ "'" ∷ [])
                st
        ])

    abbrev node_has_filter : Bool
    node_has_filter = not (node.device_filter == "") || not (node.device_path_filter == "")

    -- What the analysis looks at, with the issues of the spec.
    unfoldable pub devices_of : ℕ → Checked
    unfolding check_filter check_devices check_metas
    devices_of fuel =
        if is_empty node.devices && node_has_filter
        then check_filter
        else let st = check_devices fuel node.devices nothing_checked in check_metas st.metas st
