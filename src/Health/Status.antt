-- ===== src/Health/Status.antt =====
-- getSpecAnalysisStatus of pkg/controller/health/spec_osd_verification.go, and getDaemonSetStatus of
-- pkg/controller/health/daemons_status.go.
use pelagia.Prelude.{
  ℕ, String, Bool, Option, none, some, List, [], ◌∷◌, ◌++◌, ◌&&◌, Assoc, contains, ltb, nat_eq,
  is_empty, sprint, show_nat, if◌then◌else◌,
}
use pelagia.Common.Objects.{DaemonState, AnalysisStatus, DaemonSetStatus, CephCluster}
use pelagia.Common.World.{Env, M, Result, ok, err, ◌>>=◌, pure, fetch_daemon_set}
use pelagia.Health.Osds.{NodeDetails, get_osd_cluster_details}

-- `IsDaemonSetReady`
unfoldable pub is_daemon_set_ready : DaemonSetStatus → Bool
is_daemon_set_ready s =
    ltb 0 s.number_ready
    && nat_eq s.current_scheduled s.desired_scheduled
    && nat_eq s.desired_scheduled s.number_ready
    && nat_eq s.number_ready s.number_available
    && nat_eq s.number_available s.updated_scheduled

abbrev set_text : (namespace name : String) → List String → String
set_text namespace name texts = sprint ("daemonset '" ∷ namespace ∷ "/" ∷ name ∷ "'" ∷ texts)

abbrev failed_daemon : List String → List String → AnalysisStatus
failed_daemon issues messages = record {
  status = DaemonState.failed;
  issues = issues;
  messages = messages;
}

unfoldable pub daemon_set_status :
    (namespace name : String) → Result DaemonSetStatus → AnalysisStatus × ℕ
unfolding is_daemon_set_ready
daemon_set_status namespace name (err e) = (
  failed_daemon
      ((if e.not_found
          then set_text namespace name (" is not found" ∷ [])
          else sprint ("failed to get '" ∷ namespace ∷ "/" ∷ name ∷ "' daemonset" ∷ []))
        ∷ [])
      [],
  0,
)
daemon_set_status namespace name (ok s) =
    let text =
      sprint (show_nat s.number_ready ∷ "/" ∷ show_nat s.desired_scheduled ∷ " ready" ∷ []) in
    (
      if is_daemon_set_ready s
          then record { status = DaemonState.ok; issues = []; messages = text ∷ [] }
          else failed_daemon (set_text namespace name (" is not ready" ∷ []) ∷ []) (text ∷ []),
      s.number_ready,
    )

-- `OsdSpecAnalysisState`
pub record SpecAnalysisState : Type 0 where
  pub disk_daemon : AnalysisStatus
  pub cluster_generation : Option ℕ
  pub spec_analysis : Assoc AnalysisStatus

-- What getSpecAnalysisStatus reads of the health controller's configuration. The FSID is that of the
-- CephCluster's status.
pub record StatusConfig : Type 0 where
  pub namespace : String
  pub checks_skip : List String
  pub cluster : CephCluster
  pub fsid : String

abbrev pub StatusResult : Type 0
StatusResult = Option SpecAnalysisState × List String

module _ (env : Env) (c : StatusConfig)
    -- What prepareSpecAnalysis returns.
    (prepare : Assoc NodeDetails → M (Assoc AnalysisStatus × List String)) where
  -- `getDaemonSetStatus`
  unfoldable pub get_daemon_set_status : (namespace name : String) → M (AnalysisStatus × ℕ)
  unfolding daemon_set_status
  get_daemon_set_status namespace name = do
    r ← fetch_daemon_set env namespace name
    pure (daemon_set_status namespace name r)

  unfoldable pub with_spec_analysis :
      AnalysisStatus → Assoc AnalysisStatus × List String → StatusResult
  with_spec_analysis daemon r = (
    some (record {
      disk_daemon = daemon;
      cluster_generation = some c.cluster.generation;
      spec_analysis = r.0;
    }),
    daemon.issues ++ r.1,
  )

  unfoldable pub with_daemon : Assoc NodeDetails → AnalysisStatus × ℕ → M StatusResult
  unfolding with_spec_analysis
  with_daemon hosts (daemon, number_ready) =
      if nat_eq number_ready 0
      then pure (
        some (record { disk_daemon = daemon; cluster_generation = none; spec_analysis = [] }),
        daemon.issues,
      )
      else if is_empty c.cluster.storage_nodes
      then pure (with_spec_analysis daemon ([], []))
      else do r ← prepare hosts; pure (with_spec_analysis daemon r)

  unfoldable pub with_details : Result (Assoc NodeDetails) → M StatusResult
  unfolding with_daemon get_daemon_set_status
  with_details (err e) = pure (none, "failed to get osd cluster info" ∷ [])
  with_details (ok hosts) = do
    d ← get_daemon_set_status c.namespace "pelagia-disk-daemon"
    with_daemon hosts d

  -- `getSpecAnalysisStatus`
  unfoldable pub get_spec_analysis_status : M StatusResult
  unfolding get_osd_cluster_details with_details
  get_spec_analysis_status =
      if c.cluster.external
      then pure (none, [])
      else if contains c.checks_skip "spec_analysis"
      then pure (none, [])
      else do r ← get_osd_cluster_details env c.fsid; with_details r
