-- ===== src/Health/Threads.antt =====
-- prepareSpecAnalysis of pkg/controller/health/spec_osd_verification.go: the nodes are analysed in
-- at most five threads. A move is what one thread does between two points where another may come
-- in. The main thread starts the threads, in the order of the spec, and waits for them; its waiting
-- is no move. The list `issues` is shared without a lock: a thread reads it and writes it back
-- longer. The updates under a mutex are one move.
pub mod Bounds
pub mod Ends
pub mod Statuses
pub mod Lost
use pelagia.Prelude.{
  ℕ, zero, suc, ◌-◌, ◌+◌, ◌≡◌, String, Bool, true, false, ◌++◌, Option, none, some, List, [], ◌∷◌,
  Assoc, insert, sprint, sort_strings, is_empty, nat_eq, ◌==◌, if◌then◌else◌,
}
use pelagia.Common.Objects.{StorageNode, AnalysisStatus}
use pelagia.OsdRemove.Config.{stray_osd_node_marker}
use pelagia.Health.Osds.{NodeDetails}
use pelagia.Health.Node.{NodeResult}

abbrev pub max_parallel_threads : ℕ
max_parallel_threads = 5

-- Where a thread stands.
pub data Worker : Type 0 where
  analysing : StorageNode → Worker
  -- It has found extra OSDs, and is to read the issues.
  appending : StorageNode → Worker
  -- It has read them.
  storing : StorageNode → List String → Worker
  -- It is to write the status of its node.
  reporting : StorageNode → Worker
  leaving : Worker

-- The nodes that have no thread yet, and what the threads share.
pub record System : Type 0 where
  pub waiting : List StorageNode
  pub count : ℕ
  pub statuses : Assoc AnalysisStatus
  pub thread_issues : List String
  pub issues : List String
  pub workers : List Worker

-- The main thread, or the thread at a place of the list.
pub data Move : Type 0 where
  spawn : Move
  act : ℕ → Move

abbrev pub initial : List StorageNode → System
initial nodes = record {
  waiting = nodes;
  count = 0;
  statuses = [];
  thread_issues = [];
  issues = [];
  workers = [];
}

abbrev pub extra_issue : StorageNode → String
extra_issue node =
    sprint ("node '" ∷ node.name ∷ "' has running osd(s), not described in spec" ∷ [])

abbrev pub status_issue : StorageNode → AnalysisStatus → List String
status_issue node status =
    if is_empty status.issues
    then []
    else sprint ("node '" ∷ node.name ∷ "' has failed spec analyse" ∷ []) ∷ []

-- `updateStatus`
unfoldable pub record_status : StorageNode → AnalysisStatus → System → System
record_status node status s = record s {
  statuses = insert node.name status s.statuses;
  thread_issues = s.thread_issues ++ status_issue node status;
}

-- `disposeThreads(-1)`
abbrev pub dispose : System → System
dispose s = record s { count = s.count - 1 }

-- The start of a thread: `disposeThreads(1)` refuses the sixth.
unfoldable pub spawn_next : List StorageNode → System → Option System
spawn_next [] s = none
spawn_next (node ∷ nodes) s =
    if node.name == ""
    then some (record s { waiting = nodes })
    else if nat_eq s.count max_parallel_threads
    then none
    else some (record s {
      waiting = nodes;
      count = s.count + 1;
      workers = s.workers ++ analysing node ∷ [];
    })

-- What getNodeAnalyseStatus comes to for each node.
module _ (analyse : StorageNode → NodeResult) where
  -- The next part of a thread, none at its end.
  unfoldable pub act_one : Worker → System → System × Option Worker
  unfolding record_status
  act_one (analysing node) s =
      (s, some (if (analyse node).1 then appending node else reporting node))
  act_one (appending node) s = (s, some (storing node s.issues))
  act_one (storing node seen) s =
      (record s { issues = seen ++ extra_issue node ∷ [] }, some (reporting node))
  act_one (reporting node) s = (record_status node (analyse node).0 s, some leaving)
  act_one leaving s = (dispose s, none)

  abbrev pub put : Option Worker → List Worker → List Worker
  put none ws = ws
  put (some w) ws = w ∷ ws

  unfoldable pub act_at : ℕ → List Worker → System → Option (System × List Worker)
  unfolding act_one
  act_at i [] s = none
  act_at zero (w ∷ ws) s = let (t, w') = act_one w s in some (t, put w' ws)
  act_at (suc i) (w ∷ ws) s = elim (act_at i ws s) [
    | none ↦ none
    | some (t, ws') ↦ some (t, w ∷ ws')
  ]

  unfoldable pub move_by : Move → System → Option System
  unfolding spawn_next act_at
  move_by spawn s = spawn_next s.waiting s
  move_by (act i) s = elim (act_at i s.workers s) [
    | none ↦ none
    | some (t, ws) ↦ some (record t { workers = ws })
  ]

  -- A run by a schedule, none if one of its moves is not possible.
  unfoldable pub run : List Move → System → Option System
  unfolding move_by
  run [] s = some s
  run (m ∷ ms) s = elim (move_by m s) [ none ↦ none | some t ↦ run ms t ]

-- All threads have been started and have ended: `wg.Wait` returns.
abbrev pub IsDone : System → Type 0
IsDone s = (s.waiting ≡ []) × (s.workers ≡ [])

-- `verifiedNodes`
unfoldable pub cluster_hosts : Assoc NodeDetails → Assoc Bool
cluster_hosts [] = []
cluster_hosts ((host, _) ∷ hosts) =
    let rest = cluster_hosts hosts in
    if host == stray_osd_node_marker then rest else (host, false) ∷ rest

unfoldable pub verify_nodes : List StorageNode → Assoc Bool → Assoc Bool
verify_nodes [] verified = verified
verify_nodes (node ∷ nodes) verified =
    verify_nodes nodes (if node.name == "" then verified else insert node.name true verified)

unfoldable pub unverified : Assoc Bool → List String
unverified [] = []
unverified ((host, verified) ∷ hosts) =
    let rest = unverified hosts in
    if verified
    then rest
    else sprint (
        "node '" ∷ host ∷ "' present in cluster and has running osd(s), but not present in spec"
        ∷ [])
      ∷ rest

-- What prepareSpecAnalysis returns when all threads have ended.
unfoldable pub prepared_analysis :
    List StorageNode → Assoc NodeDetails → System → Assoc AnalysisStatus × List String
unfolding cluster_hosts verify_nodes unverified
prepared_analysis nodes hosts s = (
  s.statuses,
  sort_strings
      (s.issues ++ (s.thread_issues ++ unverified (verify_nodes nodes (cluster_hosts hosts)))),
)
