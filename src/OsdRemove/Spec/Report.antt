-- ===== src/OsdRemove/Spec/Report.antt =====
-- utils.go: the OSD report of a host's disk daemon.
use pelagia.Prelude.{
  String, Bool, true, false, Option, none, some, List, [], ◌∷◌, map, sprint, show_nat, is_empty,
  if◌then◌else◌,
}
use pelagia.Common.Disks.{OsdsReport, DiskDaemonReport, DiskDaemonState, preparing}
use pelagia.Common.World.{Error, Result, ok, err, Env, M, ◌>>=◌, pure, run_disk_daemon}
use pelagia.Common.Retry.{run_with_retry}
use pelagia.OsdRemove.Config.{LcmConfig}
use pelagia.OsdRemove.Steps.{further_tries}
use pelagia.OsdRemove.Spec.Metadata.{on_node}

abbrev pub not_prepared : Error
not_prepared = record {
  text = "node report is not prepared yet";
  not_found = false;
  no_match = false;
}

abbrev pub is_preparing : DiskDaemonState → Bool
is_preparing preparing = true
is_preparing _ = false

-- A report that is there counts when its daemon is done with it.
unfoldable pub prepared : Result DiskDaemonReport → Result DiskDaemonReport
prepared (err e) = err e
prepared (ok report) = if is_preparing report.state then err not_prepared else ok report

unfoldable pub report_command : LcmConfig → String
report_command config =
    sprint ("pelagia-disk-daemon --osd-report --port " ∷ show_nat config.disk_daemon_port ∷ [])

module _ (env : Env) (config : LcmConfig) where
  unfoldable pub ask_report : String → M (Result DiskDaemonReport)
  ask_report host = do r ← run_disk_daemon env host (report_command config); pure (prepared r)

  -- `getNodeReport`
  unfoldable pub get_node_report : String → M (Result DiskDaemonReport)
  get_node_report host = run_with_retry further_tries (ask_report host)

-- The report, none if there are issues.
abbrev pub ReportOrIssues : Type 0
ReportOrIssues = Option OsdsReport × List String

abbrev pub osds_or_issue : String → Option OsdsReport → ReportOrIssues
osds_or_issue host none = (
  none,
  on_node host ("node osds report is not available, check daemon logs on related node" ∷ []) ∷ [],
)
osds_or_issue host (some osds) = (some osds, [])

unfoldable pub report_or_issues : String → Result DiskDaemonReport → ReportOrIssues
report_or_issues host (err e) =
    (none, on_node host ("failed to get node osds report: " ∷ e.text ∷ []) ∷ [])
report_or_issues host (ok report) =
    if is_empty report.issues
    then osds_or_issue host report.osds_report
    else (none, map (λ issue. on_node host (issue ∷ [])) report.issues)

-- `tryToGetNodeOsdsReportOrIssues`
unfoldable pub try_to_get_node_osds_report_or_issues : Env → LcmConfig → String → M ReportOrIssues
try_to_get_node_osds_report_or_issues env config host = do
  r ← get_node_report env config host
  pure (report_or_issues host r)
