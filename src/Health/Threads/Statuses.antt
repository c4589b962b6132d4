-- ===== src/Health/Threads/Statuses.antt =====
-- The statuses that prepareSpecAnalysis returns do not depend on the order of the threads.
use pelagia.Prelude.{
  ℕ, zero, suc, ◌≡◌, ◌≢◌, refl, ◌⊎◌, inl, inr, String, Bool, false, ◌||◌, none, some, List, [], ◌∷◌,
  subst, any, All, any-append, All-append, Assoc, lookup, lookup-insert, has_key, Option-cases,
  eq_iff, ◌==◌, if◌then◌else◌, arith,
}
use pelagia.Common.Objects.{StorageNode, AnalysisStatus}
use pelagia.Health.Node.{NodeResult}
use pelagia.Health.Threads.{
  Worker, analysing, appending, storing, reporting, leaving, System, Move, spawn, act, initial,
  spawn_next, record_status, act_one, act_at, move_by, run, IsDone,
}

abbrev pub named : String → StorageNode → Bool
named name node = node.name == name

-- A thread that is to write the status of a node of the name.
abbrev holds : String → Worker → Bool
holds name (analysing node) = named name node
holds name (appending node) = named name node
holds name (storing node seen) = named name node
holds name (reporting node) = named name node
holds name leaving = false

module _ (analyse : StorageNode → NodeResult) (name : String) (status : AnalysisStatus) where
  -- All nodes of the name come to the status.
  abbrev pub Agrees : StorageNode → Type 0
  Agrees node = node.name ≡ name → (analyse node).0 ≡ status

  abbrev WorkerAgrees : Worker → Type 0
  WorkerAgrees (analysing node) = Agrees node
  WorkerAgrees (appending node) = Agrees node
  WorkerAgrees (storing node seen) = Agrees node
  WorkerAgrees (reporting node) = Agrees node
  WorkerAgrees leaving = Unit

  abbrev IsFitting : Assoc AnalysisStatus → Type 0
  IsFitting statuses = (lookup name statuses ≡ none) ⊎ (lookup name statuses ≡ some status)

  -- A thread's move keeps the name among what the threads hold and what is written.
  record Kept (s t : System) (ws ws' : List Worker) : Type 0 where
    waiting : t.waiting ≡ s.waiting
    held :
        any (holds name) ws' || has_key name t.statuses
        ≡ any (holds name) ws || has_key name s.statuses
    fitting : IsFitting t.statuses
    agree : All WorkerAgrees ws'

  act_at-Kept :
      (i : ℕ) (ws : List Worker) (s : System) {t : System} {ws' : List Worker}
      → act_at analyse i ws s ≡ some (t, ws')
      → All WorkerAgrees ws
      → IsFitting s.statuses
      → Kept s t ws ws'
  unfolding act_at act_one record_status
  act_at-Kept i [] s e a f = cc
  act_at-Kept zero (analysing node ∷ ws) s e a f = ground arith
  act_at-Kept zero (appending node ∷ ws) s e a f = ground arith
  act_at-Kept zero (storing node seen ∷ ws) s e a f = ground arith
  act_at-Kept zero (reporting node ∷ ws) s e a f =
      ground
        (arith, lookup-insert node.name name (analyse node).0 s.statuses, eq_iff node.name name)
  act_at-Kept zero (leaving ∷ ws) s e a f = ground arith
  act_at-Kept (suc i) (w ∷ ws) s {t} {ws'} e a f = elim (Option-cases (act_at analyse i ws s)) [
    | inl n ↦ ground arith
    | inr ((t₁, ws₁), n) ↦ ground (arith, act_at-Kept i ws s {t = t₁} {ws' = ws₁} n a.1 f)
  ]

  record Inv (present : Bool) (s : System) : Type 0 where
    held :
        any (named name) s.waiting || (any (holds name) s.workers || has_key name s.statuses)
        ≡ present
    fitting : IsFitting s.statuses
    agree : All Agrees s.waiting
    agree_ws : All WorkerAgrees s.workers

  spawn_next-Inv :
      (present : Bool) (nodes : List StorageNode) (s : System) {t : System}
      → name ≢ ""
      → spawn_next nodes s ≡ some t
      → s.waiting ≡ nodes
      → Inv present s
      → Inv present t
  unfolding spawn_next
  spawn_next-Inv present [] s ne e p v = cc
  spawn_next-Inv present (node ∷ nodes) s ne e p v =
      let agree : All Agrees (node ∷ nodes) = subst (All Agrees) p v.agree in
      ground (
        arith,
        eq_iff node.name name,
        eq_iff node.name "",
        any-append (holds name) s.workers (analysing node ∷ []),
        All-append WorkerAgrees s.workers (analysing node ∷ []) v.agree_ws (agree.0, tt),
        agree.1,
      )

  move_by-Inv :
      (present : Bool) (m : Move) (s : System) {t : System}
      → name ≢ ""
      → move_by analyse m s ≡ some t
      → Inv present s
      → Inv present t
  unfolding move_by
  move_by-Inv present spawn s ne e v = spawn_next-Inv present s.waiting s ne e refl v
  move_by-Inv present (act i) s {t} ne e v = elim (Option-cases (act_at analyse i s.workers s)) [
    | inl n ↦ ground arith
    | inr ((t₁, ws₁), n) ↦
        ground (arith, act_at-Kept i s.workers s {t = t₁} {ws' = ws₁} n v.agree_ws v.fitting)
  ]

  run-Inv :
      (present : Bool) (ms : List Move) (s : System) {t : System}
      → name ≢ ""
      → run analyse ms s ≡ some t
      → Inv present s
      → Inv present t
  unfolding run
  run-Inv present [] s ne e v = ground arith
  run-Inv present (m ∷ ms) s {t} ne e v = elim (Option-cases (move_by analyse m s)) [
    | inl n ↦ ground arith
    | inr (s₁, n) ↦
        run-Inv present ms s₁ {t = t} ne (ground arith) (move_by-Inv present m s {t = s₁} ne n v)
  ]

  -- When all threads have ended, a name has the status that the nodes of the name come to, if the
  -- spec has such a node, and no status otherwise, in whatever order the threads have run.
  pub run-status :
      (ms : List Move) (nodes : List StorageNode) {s : System}
      → name ≢ ""
      → All Agrees nodes
      → run analyse ms (initial nodes) ≡ some s
      → IsDone s
      → lookup name s.statuses ≡ (if any (named name) nodes then some status else none)
  unfolding lookup
  run-status ms nodes {s} ne a e (no_waiting, no_workers) =
      ground (arith, run-Inv (any (named name) nodes) ms (initial nodes) {t = s} ne e first)
    where
      first : Inv (any (named name) nodes) (initial nodes)
      first = ground arith
