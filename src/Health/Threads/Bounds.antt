-- ===== src/Health/Threads/Bounds.antt =====
-- The number of threads, and the ends of the runs of prepareSpecAnalysis.
use pelagia.Prelude.{
  ℕ, zero, suc, ◌+◌, ◌*◌, ◌≤◌, ◌<◌, ◌≡◌, refl, ◌⊎◌, inl, inr, Bool-cases, ◌++◌, some, List, [], ◌∷◌,
  length, length-append, Option-cases, ◌==◌, arith,
}
use pelagia.Common.Objects.{StorageNode}
use pelagia.Health.Node.{NodeResult}
use pelagia.Health.Threads.{
  max_parallel_threads, Worker, analysing, appending, storing, reporting, leaving, System, Move,
  spawn, act, initial, spawn_next, record_status, act_one, put, act_at, move_by, run, IsDone,
}

-- The moves that a thread has before it.
abbrev pub stage : Worker → ℕ
stage (analysing node) = 5
stage (appending node) = 4
stage (storing node seen) = 3
stage (reporting node) = 2
stage leaving = 1

abbrev pub load : List Worker → ℕ
load [] = 0
load (w ∷ ws) = stage w + load ws

abbrev pub weight : System → ℕ
weight s = 6 * length s.waiting + load s.workers

-- There are as many threads as are counted, and at most five.
pub record IsBounded (s : System) : Type 0 where
  pub counted : s.count ≡ length s.workers
  pub few : s.count ≤ max_parallel_threads

load-snoc : (ws : List Worker) (w : Worker) → load (ws ++ w ∷ []) ≡ load ws + stage w
load-snoc [] w = omega arith
load-snoc (x ∷ ws) w = omega (arith, load-snoc ws w)

-- What a move of a thread changes of the counts.
record IsActed (s t : System) (ws ws' : List Worker) : Type 0 where
  kept : t.waiting ≡ s.waiting
  counts : t.count + length ws ≡ s.count + length ws'
  lighter : load ws' < load ws
  shrinks : length ws' ≤ length ws

module _ (analyse : StorageNode → NodeResult) where
  act_at-IsActed :
      (i : ℕ) (ws : List Worker) (s : System) {t : System} {ws' : List Worker}
      → act_at analyse i ws s ≡ some (t, ws')
      → length ws ≤ s.count
      → IsActed s t ws ws'
  unfolding act_at act_one record_status
  act_at-IsActed i [] s e le = cc
  act_at-IsActed zero (analysing node ∷ ws) s e le = ground arith
  act_at-IsActed zero (appending node ∷ ws) s e le = ground arith
  act_at-IsActed zero (storing node seen ∷ ws) s e le = ground arith
  act_at-IsActed zero (reporting node ∷ ws) s e le = ground arith
  act_at-IsActed zero (leaving ∷ ws) s e le = ground arith
  act_at-IsActed (suc i) (w ∷ ws) s {t} {ws'} e le = elim (Option-cases (act_at analyse i ws s)) [
    | inl n ↦ ground arith
    | inr ((t₁, ws₁), n) ↦
        ground (arith, act_at-IsActed i ws s {t = t₁} {ws' = ws₁} n (omega arith))
  ]

  spawn_next-IsBounded :
      (nodes : List StorageNode) (s : System) {t : System}
      → spawn_next nodes s ≡ some t
      → IsBounded s
      → IsBounded t × (6 * length t.waiting + load t.workers < 6 * length nodes + load s.workers)
  unfolding spawn_next
  spawn_next-IsBounded [] s e b = cc
  spawn_next-IsBounded (node ∷ nodes) s e b =
      ground
        (arith, length-append s.workers (analysing node ∷ []), load-snoc s.workers (analysing node))

  -- A move keeps the number of threads in its bounds, and there is less to do after it.
  pub move_by-IsBounded :
      (m : Move) (s : System) {t : System}
      → move_by analyse m s ≡ some t
      → IsBounded s
      → IsBounded t × (weight t < weight s)
  unfolding move_by
  move_by-IsBounded spawn s e b = spawn_next-IsBounded s.waiting s e b
  move_by-IsBounded (act i) s {t} e b = elim (Option-cases (act_at analyse i s.workers s)) [
    | inl n ↦ ground arith
    | inr ((t₁, ws₁), n) ↦
        ground (arith, act_at-IsActed i s.workers s {t = t₁} {ws' = ws₁} n (omega arith))
  ]

  pub run-IsBounded :
      (ms : List Move) (s : System) {t : System}
      → run analyse ms s ≡ some t
      → IsBounded s
      → IsBounded t × (length ms + weight t ≤ weight s)
  unfolding run
  run-IsBounded [] s e b = ground arith
  run-IsBounded (m ∷ ms) s {t} e b = elim (Option-cases (move_by analyse m s)) [
    | inl n ↦ ground arith
    | inr (s₁, n) ↦
        let (b₁, w) = move_by-IsBounded m s {t = s₁} n b in
        ground (arith, run-IsBounded ms s₁ {t = t} (ground arith) b₁)
  ]

  -- Whatever the order of the moves, the threads are as many as are counted and never more than
  -- five, and there are at most six moves for each node.
  pub run-bounded :
      (ms : List Move) (nodes : List StorageNode) {s : System}
      → run analyse ms (initial nodes) ≡ some s
      → (s.count ≡ length s.workers)
        × (s.count ≤ max_parallel_threads)
        × (length ms ≤ 6 * length nodes)
  run-bounded ms nodes {s} e = ground (
    arith,
    run-IsBounded ms (initial nodes) {t = s} e
        (record { counted = omega arith; few = omega arith }),
  )

  -- What can still be done is done, by the first thread or by the main one.
  pub record Next (s : System) : Type 0 where
    pub by : Move
    pub next : System
    pub moved : move_by analyse by s ≡ some next

  pub IsDone-or_Next :
      (nodes : List StorageNode) (ws : List Worker) (s : System)
      → s.waiting ≡ nodes
      → s.workers ≡ ws
      → IsBounded s
      → IsDone s ⊎ Next s
  unfolding move_by spawn_next act_at
  IsDone-or_Next nodes (w ∷ ws) s p q b = inr (record {
    by = act 0;
    next = record (act_one analyse w s).0 { workers = put analyse (act_one analyse w s).1 ws };
    moved = rw (q, move_by, act_at) refl;
  })
  IsDone-or_Next [] [] s p q b = inl (p, q)
  IsDone-or_Next (node ∷ nodes) [] s p q b = elim (Bool-cases (node.name == "")) [
    | inl n ↦ inr (record { by = spawn; next = record s { waiting = nodes }; moved = ground arith })
    | inr n ↦ inr (record {
      by = spawn;
      next = record s {
        waiting = nodes;
        count = s.count + 1;
        workers = s.workers ++ analysing node ∷ [];
      };
      moved = ground arith;
    })
  ]
