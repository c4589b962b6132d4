-- ===== src/OsdRemove/Jobs/Parallel.antt =====
-- `handleJobRun` of executor.go: cleanup jobs of one host do not run side by side.
use pelagia.Prelude.{◌≡◌, String, Bool, true, Option, none, some, any, Assoc}
use pelagia.Task.{pending, RemoveStatus, OsdMapping, with_status, same_phase}
use pelagia.Common.World.{Env, Log}
use pelagia.OsdRemove.Config.{TaskConfig}
use pelagia.OsdRemove.Jobs.Run.{job_of, osd_at, get_job_data, launch, job_turn, handle_job_run}
use pelagia.OsdRemove.Jobs.Sharing.{is_cleaned, get_job_data-any}

-- No job of the OSD has been started yet.
abbrev pub is_unstarted : Option RemoveStatus → Bool
is_unstarted none = true
is_unstarted (some s) = same_phase s.status pending

module _ (env : Env) (c : TaskConfig) (id host : String) (osds : Assoc OsdMapping) where
  launch_delayed :
      (log : Log)
      → any (is_cleaned id) osds ≡ true
      → launch env c id host (osd_at id osds) (get_job_data id osds) log
        ≡ (with_status pending, log)
  unfolding launch
  launch_delayed log busy = rw (get_job_data-any id osds, busy)

  -- While the cleanup job of another OSD of the host is running, the job of an OSD that has none
  -- yet is not started: no request is made and the OSD's job stays pending.
  pub handle_job_run-delayed :
      (log : Log)
      → is_unstarted (job_of (osd_at id osds)) ≡ true
      → any (is_cleaned id) osds ≡ true
      → handle_job_run env c id host osds log ≡ (with_status pending, log)
  unfolding handle_job_run job_turn
  handle_job_run-delayed log unstarted busy = turn (job_of (osd_at id osds)) unstarted
    where
      turn :
          (job : Option RemoveStatus)
          → is_unstarted job ≡ true
          → job_turn env c id host osds job log ≡ (with_status pending, log)
      turn none u = launch_delayed log busy
      turn (some s) u = rw u (launch_delayed log busy)
