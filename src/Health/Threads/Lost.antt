-- ===== src/Health/Threads/Lost.antt =====
-- The list of issues that the threads share without a lock.
use pelagia.Prelude.{◌≡◌, ◌≢◌, refl, true, insert, List, [], ◌∷◌, ◌++◌, some, arith, eq_iff}
use pelagia.Common.Objects.{StorageNode}
use pelagia.Health.Node.{NodeResult}
use pelagia.Health.Threads.{
  System, Move, spawn, act, initial, extra_issue, status_issue, spawn_next, record_status, act_one,
  act_at, move_by, run, IsDone,
}

-- Both threads read the list before either writes it.
abbrev overlapping : List Move
overlapping =
    spawn
    ∷ spawn
    ∷ act 0
    ∷ act 1
    ∷ act 0
    ∷ act 1
    ∷ act 0
    ∷ act 1
    ∷ act 0
    ∷ act 1
    ∷ act 0
    ∷ act 0
    ∷ []

-- If two named nodes have OSDs that the spec does not describe, the threads may end with the issue of
-- the second one only.
pub run-loses :
    (analyse : StorageNode → NodeResult) (a b : StorageNode)
    → a.name ≢ ""
    → b.name ≢ ""
    → (analyse a).1 ≡ true
    → (analyse b).1 ≡ true
    → (ms : List Move) × (s : System) × (run analyse ms (initial (a ∷ b ∷ [])) ≡ some s)
      × IsDone s
      × (s.issues ≡ extra_issue b ∷ [])
unfolding run move_by spawn_next act_at act_one record_status
run-loses analyse a b na nb ea eb = (
  overlapping,
  record {
    waiting = [];
    count = 0;
    statuses = insert b.name (analyse b).0 (insert a.name (analyse a).0 []);
    thread_issues = status_issue a (analyse a).0 ++ status_issue b (analyse b).0;
    issues = extra_issue b ∷ [];
    workers = [];
  },
  ground (arith, eq_iff a.name "", eq_iff b.name ""),
  (refl, refl),
  refl,
)
