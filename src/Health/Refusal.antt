-- ===== src/Health/Refusal.antt =====
-- The analysis of the health controller and the plan of the task controller.
use pelagia.Prelude.{
  ◌≡◌, ◌≢◌, refl, String, true, false, ◌&&◌, List, [], ◌∷◌, some, All, any, Assoc, lookup,
  lookup_or, is_empty, ◌==◌,
}
use pelagia.Task.{NodeCleanUpSpec}
use pelagia.Common.Objects.{StorageNode, AnalysisStatus}
use pelagia.Common.World.{Env, Log}
use pelagia.OsdRemove.Config.{TaskConfig, stray_osd_node_marker}
use pelagia.OsdRemove.Spec.Metadata.{ClusterOsds, on_node}
use pelagia.OsdRemove.Spec.Hosts.{OsdHostInfo, no_host_info}
use pelagia.OsdRemove.Spec.Volumes.{Search, add_issues}
use pelagia.OsdRemove.Spec.Context.{refused, analysis_gate}
use pelagia.OsdRemove.Spec.Verify.{verify_host}
use pelagia.Health.Node.{NodeResult}
use pelagia.Health.Threads.{System, Move, initial, run, IsDone}
use pelagia.Health.Threads.Statuses.{Agrees, named, run-status}

abbrev pub failed_text : String → String
failed_text host = on_node host ("spec analyse status has failed, resolve it first" ∷ [])

analysis_gate-refused :
    (analysis : Assoc AnalysisStatus) (host : String) (status : AnalysisStatus)
    → lookup host analysis ≡ some status
    → is_empty status.issues ≡ false
    → analysis_gate analysis host ≡ refused (failed_text host)
unfolding analysis_gate
analysis_gate-refused analysis host status e bad = rw (e, bad, analysis_gate) refl

-- If the statuses of the analysis are those of a run of prepareSpecAnalysis that has ended, and the
-- nodes of a name come to a status with issues, then verifyOsdsForCleanUp makes no request for that
-- host of the spec, with a labeled and available node, plans nothing for it and adds one issue.
pub verify_host-refused :
    (env : Env) (c : TaskConfig) (k : ClusterOsds) (hosts : Assoc OsdHostInfo) (host : String)
    (n : NodeCleanUpSpec) (s : Search) (log : Log) (analyse : StorageNode → NodeResult)
    (status : AnalysisStatus) (ms : List Move) (nodes : List StorageNode) {last : System}
    → host ≢ ""
    → (host == stray_osd_node_marker) ≡ false
    → (lookup_or no_host_info host hosts).in_spec
        && (lookup_or no_host_info host hosts).labeled
        && (lookup_or no_host_info host hosts).available
      ≡ true
    → run analyse ms (initial nodes) ≡ some last
    → IsDone last
    → c.spec_analysis ≡ last.statuses
    → any (named host) nodes ≡ true
    → All (Agrees analyse host status) nodes
    → is_empty status.issues ≡ false
    → verify_host env c k hosts host n s log ≡ (add_issues (failed_text host ∷ []) s, log)
unfolding verify_host
verify_host-refused env c k hosts host n s log analyse status ms nodes {last} ne plain there e done
      kept here agree bad =
    rw (plain, there, refusal, verify_host) refl
  where
    refusal : analysis_gate c.spec_analysis host ≡ refused (failed_text host)
    refusal = rw kept (
        analysis_gate-refused last.statuses host status
          (rw (run-status analyse host status ms nodes {s = last} ne agree e done, here) refl) bad)
