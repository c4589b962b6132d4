-- ===== src/OsdRemove/Jobs/Run.antt =====
-- `getJobData` and `handleJobRun` of executor.go.
use pelagia.Prelude.{
  String, Bool, true, false, not, ◌&&◌, ◌||◌, any, Option, none, some, [], ◌∷◌, sprint, is_empty,
  lookup, adjust, Assoc, ltb, ◌==◌, if◌then◌else◌,
}
use pelagia.Task.{
  RemovePhase, pending, in_progress, completed, failed, skipped, RemoveStatus, with_status,
  same_phase, DeviceInfo, OsdMapping, no_osd, no_result, RemoveResult,
}
use pelagia.Common.Objects.{JobStatus}
use pelagia.Common.World.{Error, Result, ok, err, Env, M, ◌>>=◌, pure, current_time_string}
use pelagia.OsdRemove.Config.{TaskConfig}
use pelagia.OsdRemove.Steps.{failed_with}
use pelagia.OsdRemove.Jobs.Build.{run_cleanup_job, get_cleanup_job}

-- `osdMapping.RemoveStatus`, which is not nil when jobs are run.
abbrev pub result_of : OsdMapping → RemoveResult
result_of m = elim m.remove_status [ none ↦ no_result | some r ↦ r ]

abbrev pub job_of : OsdMapping → Option RemoveStatus
job_of m = (result_of m).device_cleanup_job

abbrev pub job_is : RemovePhase → Option RemoveStatus → Bool
job_is phase none = false
job_is phase (some s) = same_phase s.status phase

-- The OSD is done with its devices: its cleanup job ended well or is not needed.
unfoldable pub is_done_with_devices : OsdMapping → Bool
is_done_with_devices m =
    not m.skip_device_cleanup_job && (job_is completed (job_of m) || job_is skipped (job_of m))

abbrev pub keep_disk : DeviceInfo → DeviceInfo
keep_disk info = record info { zap = false }

-- The inner loop: the disks that another OSD still uses are not zapped.
unfoldable pub keep_shared : Assoc DeviceInfo → Assoc DeviceInfo → Assoc DeviceInfo
keep_shared [] devices = devices
keep_shared ((device, _) ∷ used) devices = keep_shared used (adjust device keep_disk devices)

-- The outer loop; true if a job of another OSD of the host is running.
unfoldable pub job_data_from :
    String → Assoc OsdMapping → Assoc DeviceInfo → Bool × Assoc DeviceInfo
job_data_from cur [] devices = (false, devices)
job_data_from cur ((id, m) ∷ osds) devices = elim (id == cur) [
  | true ↦ job_data_from cur osds devices
  | false ↦ elim (job_is in_progress (job_of m)) [
    | true ↦ (true, devices)
    | false ↦
        job_data_from cur osds
          (if is_done_with_devices m then devices else keep_shared m.device_mapping devices)
  ]
]

abbrev pub osd_at : String → Assoc OsdMapping → OsdMapping
osd_at id osds = elim (lookup id osds) [ none ↦ no_osd | some m ↦ m ]

-- `getJobData`
unfoldable pub get_job_data : String → Assoc OsdMapping → Bool × Assoc DeviceInfo
get_job_data cur osds = job_data_from cur osds (osd_at cur osds).device_mapping

-- `job.Status.Failed > 0 || JobConditionsFailed(job.Status)`
abbrev pub has_failed : JobStatus → Bool
has_failed status = ltb 0 status.failed || any (λ c. c == "Failed") status.conditions

module _ (env : Env) (c : TaskConfig) where
  abbrev launched : String × Option Error → M RemoveStatus
  launched (name, some e) = pure (record (with_status failed) {
    name = name;
    error = sprint ("failed to run job: " ∷ e.text ∷ []);
  })
  launched (name, none) = do
    t ← current_time_string env
    pure (record (with_status in_progress) { name = name; started_at = t })

  -- The first half of `handleJobRun`.
  unfoldable pub launch : String → String → OsdMapping → Bool × Assoc DeviceInfo → M RemoveStatus
  launch id host m (parallel, devices) =
      if parallel
      then pure (with_status pending)
      else if is_empty devices
      then pure (with_status skipped)
      else do r ← run_cleanup_job env c host id m.host_directory devices; launched r

  -- The second half of `handleJobRun`.
  unfoldable pub job_checked : RemoveStatus → Result JobStatus → M RemoveStatus
  job_checked s (err e) = pure (failed_with s (sprint ("failed to get job info: " ∷ e.text ∷ [])))
  job_checked s (ok job) =
      if ltb 0 job.active
      then pure s
      else if has_failed job
      then pure (failed_with s "job failed, check logs")
      else if ltb 0 job.succeeded
      then (do t ← current_time_string env; pure (record s { status = completed; finished_at = t }))
      else pure s

  unfoldable pub job_turn :
      String → String → Assoc OsdMapping → Option RemoveStatus → M RemoveStatus
  job_turn id host osds none = launch id host (osd_at id osds) (get_job_data id osds)
  job_turn id host osds (some s) =
      if same_phase s.status pending
      then launch id host (osd_at id osds) (get_job_data id osds)
      else do job ← get_cleanup_job env c s.name; job_checked s job

  -- `handleJobRun`
  unfoldable pub handle_job_run : String → String → Assoc OsdMapping → M RemoveStatus
  handle_job_run id host osds = job_turn id host osds (job_of (osd_at id osds))
