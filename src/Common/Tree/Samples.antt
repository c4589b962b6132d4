-- ===== src/Common/Tree/Samples.antt =====
-- A partition of a disk.
use pelagia.Prelude.{
  ℕ, ◌≡◌, ◌<◌, refl, sym, ap, subst, ◌∙◌, inl, inr, String, true, List, [], ◌∷◌, lookup, sprint,
  Bool-cases, arith, ◌==◌,
}
use pelagia.Common.Disks.{BlockDeviceInfo, DisksReport, path_dev_prepended}
use pelagia.Common.Tree.{
  Step, stop, up, block_of, not_on_node, by_parents, disk_step, find_disk_name,
}
use pelagia.Common.Tree.Ends.{Ended, find_disk_name-Ended}

abbrev block : String → List String → BlockDeviceInfo
block type parents = record {
  kname = "";
  serial = "";
  type = type;
  fstype = "";
  rotational = true;
  maj_min = "8:0";
  symlinks = [];
  parent = parents;
  childrens = [];
}

abbrev disks : DisksReport
disks = record {
  block_info = ("/dev/sda1", block "part" ("/dev/sda" ∷ [])) ∷ ("/dev/sda", block "disk" []) ∷ [];
  aliases = ("/dev/sda1", "/dev/sda1") ∷ ("/dev/sda", "/dev/sda") ∷ [];
  disk_to_osd = [];
}

abbrev above : Step → String
above (stop result) = "/dev/sda"
above (up parent) = parent

abbrev height : Step → ℕ
height (stop result) = 0
height (up parent) = 1

-- The only parent is the disk.
only_parent : (device : String) → above (disk_step disks device) ≡ "/dev/sda"
unfolding disk_step lookup block_of by_parents not_on_node
only_parent device = elim (Bool-cases ("/dev/sda1" == path_dev_prepended device)) [
  | inl e ↦ rw (above, disk_step, e) refl
  | inr e ↦ elim (Bool-cases ("/dev/sda" == path_dev_prepended device)) [
    | inl d ↦ rw (above, disk_step, e, d) refl
    | inr d ↦ rw (above, disk_step, e, d) refl
  ]
]

smaller :
    (device parent : String)
    → disk_step disks device ≡ up parent
    → height (disk_step disks parent) < height (disk_step disks device)
unfolding disk_step lookup block_of by_parents path_dev_prepended
smaller device parent e =
    subst (λ s. height (disk_step disks parent) < height s) (sym e)
      (subst (λ p. height (disk_step disks p) < 1) (sym (only_parent device) ∙ ap above e)
        (omega arith))

find_disk_name-Ended_example :
    Ended disks (find_disk_name 2 disks "sda1")
    × (find_disk_name 5 disks "sda1" ≡ find_disk_name 2 disks "sda1")
unfolding disk_step lookup block_of by_parents path_dev_prepended sprint
find_disk_name-Ended_example =
    find_disk_name-Ended disks (λ name. height (disk_step disks name)) 2 5 "sda1" smaller
      (omega arith) (omega arith)
