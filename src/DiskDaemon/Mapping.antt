-- ===== src/DiskDaemon/Mapping.antt =====
-- `diskToOsdMap` and `findDisks` of pkg/disk-daemon/disk_reporter.go. Nothing is returned when the
-- calls that are left do not suffice, as for a device that is its own ancestor.
use pelagia.Prelude.{
  ℕ, zero, suc, String, true, false, Option, none, some, List, [], ◌∷◌, ◌++◌, Assoc, lookup_or,
  insert, contains, sort_strings, show_nat, ◌==◌, if◌then◌else◌,
}
use pelagia.Common.Disks.{DisksReport}
use pelagia.Common.Tree.{block_of}
use pelagia.DiskDaemon.Volumes.{LvmVolume, RawVolume}

abbrev join_found : Option (List String) → Option (List String) → Option (List String)
join_found none _ = none
join_found (some xs) none = none
join_found (some xs) (some ys) = some (xs ++ ys)

unfoldable pub gather : (String → Option (List String)) → List String → Option (List String)
gather find [] = some []
gather find (name ∷ names) = join_found (find name) (gather find names)

unfoldable pub find_disks : ℕ → DisksReport → String → Option (List String)
unfolding gather
find_disks zero report name = none
find_disks (suc fuel) report name = elim ((block_of report name).type == "disk") [
  | true ↦ some (name ∷ [])
  | false ↦ gather (find_disks fuel report) (block_of report name).parent
]

abbrev pub find_alias : ℕ → DisksReport → String → Option (List String)
find_alias fuel report name = find_disks fuel report (lookup_or "" name report.aliases)

unfoldable pub disks_of : ℕ → DisksReport → LvmVolume → List String → Option (List String)
unfolding find_disks gather
disks_of fuel report v [] = find_alias fuel report v.path
disks_of fuel report v (device ∷ devices) = gather (find_alias fuel report) (device ∷ devices)

unfoldable pub add_osd : String → List String → Assoc (List String) → Assoc (List String)
add_osd osd [] m = m
add_osd osd (disk ∷ disks) m =
    let ids = lookup_or [] disk m in
    add_osd osd disks (insert disk (if contains ids osd then ids else ids ++ osd ∷ []) m)

unfoldable pub map_volumes :
    ℕ → DisksReport → String → List LvmVolume → Assoc (List String) → Option (Assoc (List String))
unfolding disks_of add_osd
map_volumes fuel report osd [] m = some m
map_volumes fuel report osd (v ∷ vs) m = elim (disks_of fuel report v v.devices) [
  | none ↦ none
  | some disks ↦ map_volumes fuel report osd vs (add_osd osd disks m)
]

unfoldable pub map_lvm :
    ℕ → DisksReport → Assoc (List LvmVolume) → Assoc (List String) → Option (Assoc (List String))
unfolding map_volumes
map_lvm fuel report [] m = some m
map_lvm fuel report ((osd, vs) ∷ volumes) m = elim (map_volumes fuel report osd vs m) [
  | none ↦ none
  | some m₁ ↦ map_lvm fuel report volumes m₁
]

abbrev put_raw : RawVolume → List String → Assoc (List String) → Assoc (List String)
put_raw v [] m = m
put_raw v (disk ∷ _) m = insert disk (show_nat v.osd_id ∷ []) m

unfoldable pub map_raw :
    ℕ → DisksReport → Assoc RawVolume → Assoc (List String) → Option (Assoc (List String))
unfolding find_disks
map_raw fuel report [] m = some m
map_raw fuel report ((_, v) ∷ raws) m = elim (find_alias fuel report v.device) [
  | none ↦ none
  | some disks ↦ map_raw fuel report raws (put_raw v disks m)
]

abbrev sorted_ids : Assoc (List String) → Assoc (List String)
sorted_ids [] = []
sorted_ids ((disk, ids) ∷ m) = (disk, sort_strings ids) ∷ sorted_ids m

unfoldable pub disk_to_osd_map :
    ℕ → DisksReport → Assoc (List LvmVolume) → Assoc RawVolume → Option (Assoc (List String))
unfolding map_lvm map_raw
disk_to_osd_map fuel report volumes raws = elim (map_lvm fuel report volumes []) [
  | none ↦ none
  | some m ↦ map_raw fuel report raws (sorted_ids m)
]
