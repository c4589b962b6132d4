-- ===== src/Health/Threads/Ends.antt =====
-- Every run of prepareSpecAnalysis can go on to its end.
use pelagia.Prelude.{ℕ, zero, suc, ◌≤◌, ◌≡◌, refl, inl, inr, some, List, [], ◌∷◌, arith}
use pelagia.Common.Objects.{StorageNode}
use pelagia.Health.Node.{NodeResult}
use pelagia.Health.Threads.{System, Move, initial, run, IsDone}
use pelagia.Health.Threads.Bounds.{
  IsBounded, weight, Next, IsDone-or_Next, move_by-IsBounded, run-IsBounded,
}

-- Moves after which all threads have ended.
pub record Rest (analyse : StorageNode → NodeResult) (s : System) : Type 0 where
  pub moves : List Move
  pub last : System
  pub ran : run analyse moves s ≡ some last
  pub ended : IsDone last

module _ (analyse : StorageNode → NodeResult) where
  after : (s : System) (n : Next analyse s) → Rest analyse n.next → Rest analyse s
  unfolding run
  after s n r = record {
    moves = n.by ∷ r.moves;
    last = r.last;
    ran = rw (n.moved, run) r.ran;
    ended = r.ended;
  }

  rest_of : (fuel : ℕ) (s : System) → weight s ≤ fuel → IsBounded s → Rest analyse s
  unfolding run
  rest_of zero s le b = elim (IsDone-or_Next analyse s.waiting s.workers s refl refl b) [
    | inl done ↦ record { moves = []; last = s; ran = refl; ended = done }
    | inr n ↦ absurd (omega (arith, move_by-IsBounded analyse n.by s {t = n.next} n.moved b))
  ]
  rest_of (suc fuel) s le b = elim (IsDone-or_Next analyse s.waiting s.workers s refl refl b) [
    | inl done ↦ record { moves = []; last = s; ran = refl; ended = done }
    | inr n ↦
        let (b₁, w) = move_by-IsBounded analyse n.by s {t = n.next} n.moved b in
        after s n (rest_of fuel n.next (omega arith) b₁)
  ]

  -- Whatever moves the threads have made, there are moves after which all of them have ended.
  pub run-can_end :
      (ms : List Move) (nodes : List StorageNode) {s : System}
      → run analyse ms (initial nodes) ≡ some s
      → (more : List Move) × (last : System) × (run analyse more s ≡ some last) × IsDone last
  run-can_end ms nodes {s} e =
      let r =
        rest_of (weight s) s (omega arith)
          (run-IsBounded analyse ms (initial nodes) e
            (record { counted = omega arith; few = omega arith })).0 in
      (r.moves, r.last, r.ran, r.ended)
