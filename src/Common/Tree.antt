-- ===== src/Common/Tree.antt =====
-- `FindDiskName` of pkg/common/lcm_utils.go: the disk below a device, by the report on disks.
pub mod Ends
pub mod Samples
use pelagia.Prelude.{
  ℕ, zero, suc, String, Bool, Option, none, some, List, [], ◌∷◌, Assoc, lookup, lookup_or, sprint,
  ◌==◌, if◌then◌else◌,
}
use pelagia.Common.Disks.{BlockDeviceInfo, DisksReport, path_dev_prepended}

abbrev no_block : BlockDeviceInfo
no_block = record {
  kname = "";
  serial = "";
  type = "";
  fstype = "";
  rotational = Bool.false;
  maj_min = "";
  symlinks = [];
  parent = [];
  childrens = [];
}

unfoldable pub block_of : DisksReport → String → BlockDeviceInfo
block_of report device = lookup_or no_block device report.block_info

-- The outcome: a disk, an error, or no end within the fuel.
pub data DiskSearch : Type 0 where
  disk failed : String → DiskSearch
  running : DiskSearch

-- One call: it returns, or calls itself for the parent.
pub data Step : Type 0 where
  stop : DiskSearch → Step
  up : String → Step

-- `strings.Join(parents, ",")`
unfoldable pub join : List String → String
join [] = ""
join (s ∷ []) = s
join (s ∷ t ∷ ss) = sprint (s ∷ "," ∷ join (t ∷ ss) ∷ [])

unfoldable pub not_on_node : String → Step
not_on_node name = stop (failed (sprint ("device '" ∷ name ∷ "' is not found on a node" ∷ [])))

unfoldable pub by_parents : String → List String → Step
by_parents name [] = not_on_node name
by_parents name (parent ∷ []) = up parent
by_parents name (parent ∷ parents) = stop (
    failed (
      sprint ("detected multidisk setup, which is not supported: " ∷ join (parent ∷ parents) ∷ [])))

unfoldable pub disk_step : DisksReport → String → Step
disk_step report name = elim (lookup (path_dev_prepended name) report.aliases) [
  | none ↦ not_on_node (path_dev_prepended name)
  | some device ↦
      if (block_of report device).type == "disk"
      then stop (disk device)
      else by_parents (path_dev_prepended name) (block_of report device).parent
]

-- `FindDiskName`, with the number of calls that are left.
unfoldable pub find_disk_name : ℕ → DisksReport → String → DiskSearch
find_disk_name zero report name = running
find_disk_name (suc fuel) report name = elim (disk_step report name) [
  | stop result ↦ result
  | up parent ↦ find_disk_name fuel report parent
]
