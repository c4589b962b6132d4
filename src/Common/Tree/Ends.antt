-- ===== src/Common/Tree/Ends.antt =====
-- `FindDiskName` ends where no device is its own ancestor, and what it finds is a disk.
use pelagia.Prelude.{
  ℕ, zero, suc, ◌<◌, ◌≡◌, refl, ◌⊎◌, inl, inr, String, List, [], ◌∷◌, lookup, Option-cases,
  if_cases, subst, eq_iff, arith, ◌==◌,
}
use pelagia.Common.Disks.{DisksReport, path_dev_prepended}
use pelagia.Common.Tree.{
  DiskSearch, disk, failed, Step, stop, up, block_of, not_on_node, by_parents, disk_step,
  find_disk_name,
}

-- An outcome of a search that has come to its end.
pub data Ended (report : DisksReport) : DiskSearch → Type 0 where
  found : (device : String) → (block_of report device).type ≡ "disk" → Ended report (disk device)
  error : (text : String) → Ended report (failed text)

-- A step that does not go up has come to the end.
Settled : DisksReport → Step → Type 0
Settled report (stop result) = Ended report result
Settled report (up parent) = Unit

Step-cases : (s : Step) → ((r : DiskSearch) × (s ≡ stop r)) ⊎ ((p : String) × (s ≡ up p))
Step-cases (stop r) = inl (r, refl)
Step-cases (up p) = inr (p, refl)

by_parents-Settled :
    (report : DisksReport) (name : String) (parents : List String)
    → Settled report (by_parents name parents)
unfolding by_parents not_on_node Settled
by_parents-Settled report name [] = error _
by_parents-Settled report name (p ∷ []) = tt
by_parents-Settled report name (p ∷ q ∷ ps) = error _

disk_step-Settled : (report : DisksReport) (name : String) → Settled report (disk_step report name)
unfolding disk_step not_on_node Settled
disk_step-Settled report name =
    elim (Option-cases (lookup (path_dev_prepended name) report.aliases)) [
      | inl e ↦ rw (disk_step, e) (error _)
      | inr (device, e) ↦
          rw (disk_step, e)
            (if_cases (Settled report) ((block_of report device).type == "disk")
              (λ d. found device ((eq_iff (block_of report device).type "disk").0 d))
              (λ _. by_parents-Settled report _ (block_of report device).parent))
    ]

-- If a number can be given to every name that gets smaller from a device to its parent, then the
-- search ends within one call more than the number of the name, with a device of the type disk or
-- with an error, and any two such numbers of calls give the same.
pub find_disk_name-Ended :
    (report : DisksReport) (rank : String → ℕ) (fuel other : ℕ) (name : String)
    → ((device parent : String) → disk_step report device ≡ up parent → rank parent < rank device)
    → rank name < fuel
    → rank name < other
    → Ended report (find_disk_name fuel report name)
      × (find_disk_name other report name ≡ find_disk_name fuel report name)
unfolding find_disk_name Settled
find_disk_name-Ended report rank zero other name smaller enough enough' =
    absurd (omega (arith, enough))
find_disk_name-Ended report rank (suc fuel) zero name smaller enough enough' =
    absurd (omega (arith, enough'))
find_disk_name-Ended report rank (suc fuel) (suc other) name smaller enough enough' =
    elim (Step-cases (disk_step report name)) [
      | inl (r, e) ↦
          rw (find_disk_name, e) (subst (Settled report) e (disk_step-Settled report name), refl)
      | inr (p, e) ↦
          rw (find_disk_name, e)
            (find_disk_name-Ended report rank fuel other p smaller
              (omega (arith, smaller name p e, enough)) (omega (arith, smaller name p e, enough')))
    ]

Ended-disk :
    {report : DisksReport} {r : DiskSearch} {device : String}
    → Ended report r
    → r ≡ disk device
    → (block_of report device).type ≡ "disk"
Ended-disk (found d type) e = ground arith
Ended-disk (error text) e = cc

-- What is found is a disk, whatever the number of calls.
pub find_disk_name-disk :
    (report : DisksReport) (fuel : ℕ) (name : String) {device : String}
    → find_disk_name fuel report name ≡ disk device
    → (block_of report device).type ≡ "disk"
unfolding find_disk_name Settled
find_disk_name-disk report zero name e = cc
find_disk_name-disk report (suc fuel) name {device} e = elim (Step-cases (disk_step report name)) [
  | inl (r, p) ↦
      Ended-disk (subst (Settled report) p (disk_step-Settled report name)) (ground arith)
  | inr (q, p) ↦ find_disk_name-disk report fuel q {device = device} (ground arith)
]
