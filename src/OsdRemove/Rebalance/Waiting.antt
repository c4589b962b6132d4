-- ===== src/OsdRemove/Rebalance/Waiting.antt =====
-- `tryToMoveOsdOut` of executor.go: how an OSD comes to wait for `ok-to-stop`.
use pelagia.Prelude.{
  ℕ, ◌≡◌, refl, String, true, false, [], ◌∷◌, sprint, Bool-cases, inl, inr, ◌⊎◌, ◌==◌,
}
use pelagia.Prelude.Numbers.{has_time_left}
use pelagia.Task.{pending, failed, RemoveStatus, with_status}
use pelagia.Common.Objects.{OsdInfo}
use pelagia.Common.World.{
  Env, Error, Log, Result, ok, err, ceph, read_clock, run_ceph, now, current_time_string,
}
use pelagia.OsdRemove.Config.{LcmConfig}
use pelagia.OsdRemove.Rebalance.{begin_wait, wait_again, stop_answered, move_out, started}

module _ (env : Env) (config : LcmConfig) where
  abbrev pub stop_command : String → String
  stop_command id = sprint ("ceph osd ok-to-stop " ∷ id ∷ [])

  -- The OSD is left where it is: no request but reads of the clock, and it stays pending, has
  -- failed or keeps its status.
  pub record IsLeft (s : RemoveStatus) (log : Log) (r : RemoveStatus × Log) : Type 0 where
    pub requests : (r.1 ≡ log) ⊎ (r.1 ≡ read_clock ∷ log)
    pub status : ((r.0.status ≡ pending) ⊎ (r.0.status ≡ failed)) ⊎ (r.0 ≡ s)

  wait_again-IsLeft :
      (id : String) (s : RemoveStatus) (time : Result ℕ) (log : Log)
      → IsLeft s log (wait_again env config id s time log)
  unfolding wait_again now
  wait_again-IsLeft id s (err e) log = record { requests = inl refl; status = inr refl }
  wait_again-IsLeft id s (ok start) log =
      elim (Bool-cases (has_time_left (env.clock log) start config.osd_pg_rebalance_timeout)) [
        | inl left ↦ rw left (record { requests = inr refl; status = inl (inl refl) })
        | inr over ↦ rw over (record { requests = inr refl; status = inl (inr refl) })
      ]

  begin_wait-IsLeft :
      (id : String) (s : RemoveStatus) (log : Log) → IsLeft s log (begin_wait env config id log)
  unfolding begin_wait started current_time_string now
  begin_wait-IsLeft id s log =
      elim (Bool-cases (has_time_left 0 0 config.osd_pg_rebalance_timeout)) [
        | inl left ↦ rw left (record { requests = inr refl; status = inl (inl refl) })
        | inr over ↦ rw over (record { requests = inl refl; status = inl (inr refl) })
      ]

  -- An OSD that is up and in and that Ceph refuses to have stopped is not reweighted: after
  -- `ok-to-stop` at most the clock is read, and the OSD stays pending, has failed or keeps its
  -- status.
  pub move_out-IsLeft :
      (id : String) (s : RemoveStatus) (info : OsdInfo) (e : Error) (log : Log)
      → info.in_cluster ≡ 1
      → info.up ≡ 1
      → env.ceph_reply log (stop_command id) ≡ err e
      → IsLeft s (ceph (stop_command id) ∷ log) (move_out env config id s (ok info) log)
  unfolding move_out run_ceph stop_answered
  move_out-IsLeft id s info e log is_in is_up refused =
      rw (is_in, is_up, refused)
        (elim (Bool-cases (s.started_at == "")) [
          | inl new ↦ rw new (begin_wait-IsLeft id s _)
          | inr begun ↦ rw begun (wait_again-IsLeft id s (env.parse_time s.started_at) _)
        ])

  -- With a positive timeout, a refusal of `ok-to-stop` with time left since a start time that is
  -- set and readable returns a pending status without a start time, so that the refusal that
  -- follows, however late, finds that no wait has begun and is a pending one too.
  pub stop_answered-restarts :
      (id : String) (s : RemoveStatus) (start : ℕ) (e e' : Error) (log later : Log)
      → has_time_left 0 0 config.osd_pg_rebalance_timeout ≡ true
      → (s.started_at == "") ≡ false
      → env.parse_time s.started_at ≡ ok start
      → has_time_left (env.clock log) start config.osd_pg_rebalance_timeout ≡ true
      → ((stop_answered env config id s (err e) log).0 ≡ with_status pending)
        × ((stop_answered env config id (with_status pending) (err e') later).0.status ≡ pending)
  unfolding stop_answered wait_again begin_wait now started current_time_string
  stop_answered-restarts id s start e e' log later positive begun parses in_time =
      (rw (begun, parses, in_time) refl, rw positive refl)
