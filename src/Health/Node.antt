-- ===== src/Health/Node.antt =====
-- getNodeAnalyseStatus of pkg/controller/health/spec_osd_verification.go: the status of one node.
-- The reports of the tries are read into one variable in the source; the daemon sends all of its
-- reports with the state that goes with them, so that the last one is what counts.
pub mod Verdict
use pelagia.Prelude.{
  ℕ, zero, suc, String, Bool, false, not, Option, none, some, List, [], ◌∷◌, sprint, show_nat,
  is_empty, if◌then◌else◌,
}
use pelagia.Common.Objects.{Node, StorageNode, DaemonState, AnalysisStatus}
use pelagia.Common.Disks.{
  DisksReport, OsdsReport, DiskDaemonState, DiskDaemonReport, is_down_taint,
  is_node_with_disk_daemon,
}
use pelagia.Common.World.{
  Env, M, Result, ok, err, ◌>>=◌, ◌>>◌, pure, fetch_node, run_disk_daemon, sleep,
}
use pelagia.OsdRemove.Config.{LcmConfig}
use pelagia.Health.Osds.{NodeDetails}
use pelagia.Health.Analysis.Run.{Analysis, run_on_report}

-- The status and `extraFound`.
abbrev pub NodeResult : Type 0
NodeResult = AnalysisStatus × Bool

abbrev pub node_failed : String → NodeResult
node_failed issue =
    (record { status = DaemonState.failed; issues = issue ∷ []; messages = [] }, false)

abbrev pub skipped_with : String → NodeResult
skipped_with message =
    (record { status = DaemonState.skipped; issues = []; messages = message ∷ [] }, false)

-- The reason of `IsNodeAvailable`, none if the node is available.
unfoldable pub unavailable : String → List String → Option String
unavailable name [] = none
unavailable name (key ∷ keys) =
    let rest = unavailable name keys in
    if is_down_taint key
    then some (
        sprint ("node '" ∷ name ∷ "' has '" ∷ key ∷ "' taint, assuming node is not available" ∷ []))
    else rest

unfoldable pub node_verdict : Analysis → NodeResult
node_verdict a = (
  record {
    status = if is_empty a.issues then DaemonState.ok else DaemonState.failed;
    issues = a.issues;
    messages = a.warnings;
  },
  a.extra_found,
)

abbrev pub not_ready_retries : ℕ
not_ready_retries = 3

-- A try to get the report: there, in preparation, or failed.
pub data Try : Type 0 where
  ready : DiskDaemonReport → Try
  preparing : Try
  failed : NodeResult → Try

unfoldable pub full_report_command : LcmConfig → String
full_report_command config =
    sprint ("pelagia-disk-daemon --full-report --port " ∷ show_nat config.disk_daemon_port ∷ [])

unfoldable pub state_of : DiskDaemonReport → DiskDaemonState → Try
state_of report DiskDaemonState.ok = ready report
state_of report DiskDaemonState.failed = Try.failed (node_failed "disk report is failed")
state_of report _ = preparing

unfoldable pub tried : String → Result DiskDaemonReport → Try
unfolding state_of
tried command (ok report) = state_of report report.state
tried command (err e) = Try.failed (
    node_failed (
      sprint (
        "failed to run '" ∷ command ∷ "' command to get disk report from pelagia-disk-daemon"
        ∷ [])))

-- What stands for a panic or an endless search.
abbrev pub NodeOutcome : Type 0
NodeOutcome = Option NodeResult

abbrev pub verdict_of : Option Analysis → NodeOutcome
verdict_of none = none
verdict_of (some a) = some (node_verdict a)

unfoldable pub analyse_report :
    (String → String → Bool) → ℕ → StorageNode → NodeDetails → DiskDaemonReport → NodeOutcome
unfolding run_on_report
analyse_report matches fuel node cluster report =
    if node.use_all_devices
    then some (skipped_with "used 'useAllDevices' flag for node definition, spec analysis skipped")
    else if node.has_claim_templates
    then some (skipped_with "pvc based node, spec analysis skipped")
    else verdict_of (run_on_report matches node cluster fuel report.disks_report report.osds_report)

module _ (env : Env) (config : LcmConfig) (fuel : ℕ) (node : StorageNode)
    (cluster : NodeDetails) where
  abbrev rest_now : M (Unit {0})
  rest_now log = (tt, sleep ∷ log)

  unfoldable pub after_try : M NodeOutcome → Try → M NodeOutcome
  unfolding analyse_report
  after_try again (ready report) = pure (analyse_report env.regex_matches fuel node cluster report)
  after_try again (Try.failed result) = pure (some result)
  after_try again preparing = again

  -- The loop over the tries, with the number of those that may follow.
  unfoldable pub ask_full_report : ℕ → M NodeOutcome
  unfolding after_try tried
  ask_full_report zero = do
    r ← run_disk_daemon env node.name (full_report_command config)
    after_try (pure (some (node_failed "disk report is not ready")))
        (tried (full_report_command config) r)
  ask_full_report (suc retries) = do
    r ← run_disk_daemon env node.name (full_report_command config)
    after_try (rest_now >> ask_full_report retries) (tried (full_report_command config) r)

  unfoldable pub on_available : Option String → M NodeOutcome
  unfolding ask_full_report
  on_available none = ask_full_report not_ready_retries
  on_available (some reason) = pure (some (node_failed reason))

  unfoldable pub on_node_reply : Result Node → M NodeOutcome
  unfolding on_available unavailable
  on_node_reply (err e) =
      pure (some (node_failed (sprint ("failed to get node '" ∷ node.name ∷ "' info" ∷ []))))
  on_node_reply (ok knode) =
      if not
        (is_node_with_disk_daemon env.selector_matches config.disk_daemon_placement_label knode)
      then pure (
          some (
            skipped_with
              "disk daemon is not running for node (missed daemon label), spec analysis skipped"))
      else on_available (unavailable knode.name knode.taints)

  -- `getNodeAnalyseStatus`
  unfoldable pub get_node_analyse_status : M NodeOutcome
  unfolding on_node_reply
  get_node_analyse_status = do r ← fetch_node env node.name; on_node_reply r
