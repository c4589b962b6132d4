-- ===== src/DiskDaemon/Pass/Forgets.antt =====
-- A pass that finds no change drops the issues that the OSD check of an earlier pass has found.
use pelagia.Prelude.{
  ℕ, ◌≡◌, ◌≢◌, refl, sym, subst, String, Bool, true, false, Option, none, some, List, [], Assoc,
  if◌then◌else◌,
}
use pelagia.Common.Disks.{DisksReport, DiskDaemonState}
use pelagia.Common.World.{Result, ok, err}
use pelagia.DiskDaemon.Devices.{Scanned, process_lsblk_info}
use pelagia.DiskDaemon.Devices.Maps.{process_lsblk_info-HasBlocks}
use pelagia.DiskDaemon.Report.{OsdsCheck}
use pelagia.DiskDaemon.Report.Compact.{AreCompact, Leaves, check_osds-Leaves}
use pelagia.DiskDaemon.Pass.{
  Answers, Runtime, Daemon, CheckResult, checked, broken, same_blocks, after_osds, after_mapping,
  check_changed, publish, after_check, update_report, prepare_report,
}
use pelagia.DiskDaemon.Pass.Settled.{
  IsListed, ListsCompact, SeesDisks, SeesLvm, AfterLvm, Ensures, check_scanned-sees,
  sees-check_scanned,
}

SeesDisks-mapped :
    (scan : Result Scanned) (r : DisksReport) (m : Assoc (List String))
    → SeesDisks scan (some r)
    → SeesDisks scan (some (record r { disk_to_osd = m }))
unfolding same_blocks
SeesDisks-mapped (ok s) r m h = h
SeesDisks-mapped (err e) r m h = h

module _ (raw_disabled : Bool) (a : Answers) where
  abbrev Sees : Runtime → Type 0
  Sees rt = AfterLvm (process_lsblk_info a.udevadm a.lsblk) raw_disabled a.raw_list a.lvm_list rt

  abbrev StillSees : Option (List String × Runtime) → Type 0
  StillSees none = Unit
  StillSees (some (issues, rt)) = Sees rt

  if-StillSees :
      (b : Bool) (o p : Option (List String × Runtime))
      → StillSees o
      → StillSees p
      → StillSees (if b then o else p)
  if-StillSees true o p h k = h
  if-StillSees false o p h k = k

  after_osds-StillSees :
      (rt : Runtime) (r : DisksReport) (o : Option OsdsCheck)
      → Sees (record rt { disks_report = some r })
      → Leaves rt.volumes_lvm o
      → StillSees (after_osds rt r o)
  after_osds-StillSees rt r none h k = tt
  after_osds-StillSees rt r (some c) (((d, q), w), l) k =
      (((d, subst AreCompact (sym k) q), w), subst (SeesLvm a.lvm_list) (sym k) l)

  after_mapping-StillSees :
      (fuel : ℕ) (rt : Runtime) (r : DisksReport) (o : Option (Assoc (List String)))
      → Sees (record rt { disks_report = some r })
      → StillSees (after_mapping fuel rt r o)
  after_mapping-StillSees fuel rt r none h = tt
  after_mapping-StillSees fuel rt r (some m) (((d, q), w), l) =
      after_osds-StillSees rt (record r { disk_to_osd = m }) _
        (((SeesDisks-mapped (process_lsblk_info a.udevadm a.lsblk) r m d, q), w), l)
        (check_osds-Leaves fuel (record r { disk_to_osd = m }) rt.volumes_lvm rt.volumes_raw q)

  check_changed-StillSees :
      (fuel : ℕ) (rt : Runtime) (o : Option DisksReport)
      → Sees (record rt { disks_report = o })
      → StillSees (check_changed fuel rt o)
  unfolding check_changed
  check_changed-StillSees fuel rt none h = tt
  check_changed-StillSees fuel rt (some r) h = after_mapping-StillSees fuel rt r _ h

-- The report without the issues.
abbrev pub without_issues : Daemon → Daemon
without_issues d = record d { report = record d.report { state = DiskDaemonState.ok; issues = [] } }

-- If the pass has ended with a report on the disks, the next one drops its issues.
abbrev Forgets : ℕ → Answers → Option Daemon → Type 0
Forgets fuel a none = Unit
Forgets fuel a (some d) =
    d.report.disks_report ≢ none → prepare_report fuel a d ≡ some (without_issues d)

publish-Forgets :
    (fuel : ℕ) (a : Answers) (d : Daemon) (o : Option (List String × Runtime))
    → StillSees d.raw_disabled a o
    → Forgets fuel a (publish a.time d o)
unfolding prepare_report
publish-Forgets fuel a d none h = tt
publish-Forgets fuel a d (some (issues, rt)) (((s, q), w), l) = λ shown.
    rw (sees-check_scanned d.raw_disabled a (process_lsblk_info a.udevadm a.lsblk) rt s w l) refl

after_check-Forgets :
    (fuel other : ℕ) (a : Answers) (d : Daemon) (x : CheckResult)
    → Ensures (Sees d.raw_disabled a) x
    → Forgets other a (after_check fuel a.time d x)
unfolding update_report
after_check-Forgets fuel other a d (broken e rt) h = λ shown. absurd (shown refl)
after_check-Forgets fuel other a d (checked changed rt) h =
    publish-Forgets other a d
      (if changed then check_changed fuel rt rt.disks_report else some ([], rt))
      (if-StillSees d.raw_disabled a changed (check_changed fuel rt rt.disks_report) (some ([], rt))
        (check_changed-StillSees d.raw_disabled a fuel rt rt.disks_report h) h)

-- If the volumes that ceph-volume lists have each key once and repeat no device, as those related_parts
-- before, and a pass ends with a report on the disks, then the next pass to which the same is
-- answered ends, sets the state to ok and drops all issues of the first one, and changes nothing
-- else.
pub prepare_report-forgets :
    (fuel other : ℕ) (a : Answers) (d d₁ : Daemon)
    → IsListed a.lvm_list
    → IsListed a.raw_list
    → ListsCompact a.lvm_list
    → AreCompact d.runtime.volumes_lvm
    → prepare_report fuel a d ≡ some d₁
    → d₁.report.disks_report ≢ none
    → prepare_report other a d₁ ≡ some (without_issues d₁)
unfolding prepare_report
prepare_report-forgets fuel other a d d₁ h k c p e = subst (Forgets other a) e (
    after_check-Forgets fuel other a (update_report false none none [] a.time d) _ (
      check_scanned-sees d.raw_disabled a _ d.runtime
        (process_lsblk_info-HasBlocks a.udevadm a.lsblk) h c k p))
