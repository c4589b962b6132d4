-- ===== src/Health/Node/Verdict.antt =====
-- What the status of a node says, and how often its disk daemon is asked.
use pelagia.Prelude.{
  ℕ, zero, suc, ◌+◌, ◌≤◌, ◌≡◌, ◌≢◌, inl, inr, String, Bool, true, false, not, Option, none, some,
  [], ◌∷◌, is_empty, Bool-cases, if_cases, arith, if◌then◌else◌,
}
use pelagia.Common.Objects.{StorageNode, Node, DaemonState}
use pelagia.Common.Disks.{
  DisksReport, OsdsReport, DiskDaemonReport, DiskDaemonState, is_node_with_disk_daemon,
}
use pelagia.Common.World.{
  Env, Log, Call, disk_daemon, get_node, pure, M, ◌>>◌, Result, ok, err, fetch_node,
  run_disk_daemon,
}
use pelagia.Common.Retry.Quiet.{count_calls}
use pelagia.OsdRemove.Config.{LcmConfig}
use pelagia.Health.Osds.{NodeDetails}
use pelagia.Health.Analysis.Devices.{Checked, devices_of}
use pelagia.Health.Analysis.Run.{
  no_disks, no_osds_report, reads_disks, reads_osds, run_on_osds, run_on_report, Analysis,
  extras_or, analysis_of, run_spec_analysis,
}
use pelagia.Health.Node.{
  NodeResult, NodeOutcome, node_verdict, Try, ready, node_failed, state_of, tried, verdict_of,
  analyse_report, full_report_command, unavailable, rest_now, after_try, ask_full_report,
  on_available, on_node_reply, get_node_analyse_status, not_ready_retries,
}

-- Issues come with no warnings and no extra OSDs.
IsExclusive : Analysis → Type 0
IsExclusive a = is_empty a.issues ≡ false → (a.warnings ≡ []) × (a.extra_found ≡ false)

-- A node has failed exactly if it has issues; then it has no messages and no extra OSDs.
pub record IsVerdict (r : NodeResult) : Type 0 where
  pub blamed :
      is_empty r.0.issues ≡ false
      → (r.0.status ≡ DaemonState.failed) × (r.0.messages ≡ []) × (r.1 ≡ false)
  pub cleared : is_empty r.0.issues ≡ true → r.0.status ≢ DaemonState.failed

abbrev pub Judged : NodeOutcome → Type 0
Judged none = Unit
Judged (some r) = IsVerdict r

module _ (matches : (pattern text : String) → Bool) (node : StorageNode) (disks : DisksReport)
    (osds : OsdsReport) (cluster : NodeDetails) where
  analysis_of-IsExclusive :
      (st : Checked) → IsExclusive (analysis_of matches node disks osds cluster st)
  unfolding IsExclusive analysis_of extras_or
  analysis_of-IsExclusive st = ground arith

node_verdict-IsVerdict : (a : Analysis) → IsExclusive a → IsVerdict (node_verdict a)
unfolding node_verdict IsExclusive
node_verdict-IsVerdict a h = ground (arith, h)

-- What the analysis comes to, if it does.
Settles : Option Analysis → Type 0
Settles none = Unit
Settles (some a) = IsExclusive a

if-Settles :
    (b : Bool) (o p : Option Analysis) → Settles o → Settles p → Settles (if b then o else p)
if-Settles true o p h k = h
if-Settles false o p h k = k

module _ (matches : (pattern text : String) → Bool) (node : StorageNode) (cluster : NodeDetails)
    (fuel : ℕ) where
  run_spec_analysis-Settles :
      (disks : DisksReport) (osds : OsdsReport)
      → Settles (run_spec_analysis matches node disks osds cluster fuel)
  unfolding run_spec_analysis Settles
  run_spec_analysis-Settles disks osds =
      elim (Bool-cases (devices_of matches disks node fuel).ended) [
        | inl e ↦ rw e (
            analysis_of-IsExclusive matches node disks osds cluster
              (devices_of matches disks node fuel))
        | inr e ↦ rw e tt
      ]

  run_on_osds-Settles :
      (disks : DisksReport) (osds : Option OsdsReport)
      → Settles (run_on_osds matches node cluster fuel disks osds)
  unfolding run_on_osds Settles
  run_on_osds-Settles disks (some osds) = run_spec_analysis-Settles disks osds
  run_on_osds-Settles disks none =
      elim (run_spec_analysis matches node disks no_osds_report cluster fuel)
          as (λ o.
            Settles o
            → Settles (elim o [
              | none ↦ none
              | some a ↦ if reads_osds matches node cluster fuel disks a then none else some a
            ])) [
              | none ↦ λ h. tt
              | some a ↦
                  λ h. if-Settles (reads_osds matches node cluster fuel disks a) none (some a) tt h
            ]
        (run_spec_analysis-Settles disks no_osds_report)

  run_on_report-Settles :
      (disks : Option DisksReport) (osds : Option OsdsReport)
      → Settles (run_on_report matches node cluster fuel disks osds)
  unfolding run_on_report Settles
  run_on_report-Settles (some disks) osds = run_on_osds-Settles disks osds
  run_on_report-Settles none osds =
      if-Settles (reads_disks node) none (run_on_osds matches node cluster fuel no_disks osds) tt
        (run_on_osds-Settles no_disks osds)

verdict_of-Judged : (o : Option Analysis) → Settles o → Judged (verdict_of o)
unfolding Settles
verdict_of-Judged none h = tt
verdict_of-Judged (some a) h = node_verdict-IsVerdict a h

abbrev pub is_daemon_call : Call → Bool
is_daemon_call (disk_daemon host command) = true
is_daemon_call _ = false

-- The requests to disk daemons of a log.
abbrev pub asks : Log → ℕ
asks log = count_calls is_daemon_call log

-- What comes out is a verdict, and the disk daemon is asked no more often than the limit.
abbrev pub IsFine : ℕ → M NodeOutcome → Type 0
IsFine limit m = (log : Log) → Judged (m log).0 × (asks (m log).1 ≤ limit + asks log)

module _ (env : Env) (config : LcmConfig) (fuel : ℕ) (node : StorageNode)
    (cluster : NodeDetails) where
  node_failed-IsVerdict : (text : String) → IsVerdict (node_failed text)
  node_failed-IsVerdict text = ground arith

  -- A try is over, or another one is made.
  module _ (limit : ℕ) (again : M NodeOutcome) (fine : IsFine limit again) where
    abbrev later : Try → M NodeOutcome
    later t = after_try env config fuel node cluster again t

    ready-IsFine : (report : DiskDaemonReport) → IsFine limit (later (ready report))
    unfolding after_try analyse_report
    ready-IsFine report log = (
      if_cases Judged node.use_all_devices (λ _. ground arith)
          (λ _.
            if_cases Judged node.has_claim_templates (λ _. ground arith)
              (λ _. verdict_of-Judged _ (
                run_on_report-Settles env.regex_matches node cluster fuel report.disks_report
                  report.osds_report))),
      omega arith,
    )

    state-IsFine :
        (report : DiskDaemonReport) (state : DiskDaemonState)
        → IsFine limit (later (state_of report state))
    unfolding after_try state_of
    state-IsFine report DiskDaemonState.ok log = ready-IsFine report log
    state-IsFine report DiskDaemonState.failed log = (node_failed-IsVerdict _, omega arith)
    state-IsFine report DiskDaemonState.preparing log = fine log
    state-IsFine report DiskDaemonState.skipped log = fine log

    Try-IsFine :
        (report : Result DiskDaemonReport)
        → IsFine limit (later (tried (full_report_command config) report))
    unfolding after_try tried
    Try-IsFine (err e) log = (node_failed-IsVerdict _, omega arith)
    Try-IsFine (ok report) log = state-IsFine report report.state log

  ask_full_report-IsFine :
      (retries : ℕ) → IsFine (suc retries) (ask_full_report env config fuel node cluster retries)
  unfolding ask_full_report run_disk_daemon
  ask_full_report-IsFine zero log =
      let (j, b) =
        Try-IsFine 0 (pure (some (node_failed "disk report is not ready")))
          (λ _. (node_failed-IsVerdict _, omega arith))
          (run_disk_daemon env node.name (full_report_command config) log).0
          (run_disk_daemon env node.name (full_report_command config) log).1 in
      (j, omega (arith, b))
  ask_full_report-IsFine (suc retries) log =
      let (j, b) =
        Try-IsFine (suc retries)
          (rest_now env config fuel node cluster
            >> ask_full_report env config fuel node cluster retries)
          (λ l. ask_full_report-IsFine retries (rest_now env config fuel node cluster l).1)
          (run_disk_daemon env node.name (full_report_command config) log).0
          (run_disk_daemon env node.name (full_report_command config) log).1 in
      (j, omega (arith, b))

  on_available-IsFine :
      (reason : Option String)
      → IsFine (suc not_ready_retries) (on_available env config fuel node cluster reason)
  unfolding on_available
  on_available-IsFine none log = ask_full_report-IsFine not_ready_retries log
  on_available-IsFine (some reason) log = (node_failed-IsVerdict reason, omega arith)

  on_node_reply-IsFine :
      (reply : Result Node)
      → IsFine (suc not_ready_retries) (on_node_reply env config fuel node cluster reply)
  unfolding on_node_reply
  on_node_reply-IsFine (err e) log = (node_failed-IsVerdict _, omega arith)
  on_node_reply-IsFine (ok knode) log =
      if_cases (λ (m : M NodeOutcome). Judged (m log).0 × (asks (m log).1 ≤ 4 + asks log))
        (not
          (is_node_with_disk_daemon env.selector_matches config.disk_daemon_placement_label knode))
        (λ _. (ground arith, omega arith))
        (λ _. on_available-IsFine (unavailable knode.name knode.taints) log)

  -- Whatever is answered, a status that getNodeAnalyseStatus returns is failed exactly if it has
  -- issues, and then has no messages and no extra OSDs; the disk daemon is asked at most four times.
  pub get_node_analyse_status-IsFine :
      (log : Log)
      → Judged (get_node_analyse_status env config fuel node cluster log).0
        × (asks (get_node_analyse_status env config fuel node cluster log).1 ≤ 4 + asks log)
  unfolding get_node_analyse_status fetch_node
  get_node_analyse_status-IsFine log =
      on_node_reply-IsFine (env.node_reply log node.name) (get_node node.name ∷ log)
