-- ===== src/OsdRemove/Jobs/Build.antt =====
-- cleanup_job.go: `runCleanupJob`, `createCleanupJob` and `getCleanupJob`.
use pelagia.Prelude.{
  ℕ, suc, String, Bool, false, not, ◌||◌, ◌&&◌, Option, none, some, List, [], ◌∷◌, map, sprint,
  split, show_nat, has_prefix, sort_strings, remove_text, get_last?, lookup, Assoc, any, ltb, ◌==◌,
  if◌then◌else◌,
}
use pelagia.Task.{DeviceInfo}
use pelagia.Task.Job.{
  HostDir, Script, host_dir_only, table_clean, raw_clean, disk_clean, partition_clean, Container,
  CleanupJob,
}
use pelagia.Common.Objects.{JobStatus}
use pelagia.Common.World.{
  Error, Result, ok, err, Env, M, ◌>>=◌, pure, and_then, fetch_job, drop_job, make_job,
}
use pelagia.Common.Retry.{run_with_retry}
use pelagia.OsdRemove.Config.{LcmConfig, TaskConfig, is_stray_osd_id}
use pelagia.OsdRemove.Steps.{further_tries}

abbrev pub default_data_dir_host_path : String
default_data_dir_host_path = "/var/lib/rook"

abbrev pub text_or : String → Option String → String
text_or d none = d
text_or d (some s) = s

-- `isLvmRookMade` of spec_handler.go
unfoldable pub is_lvm_rook_made : String → Bool
unfolding split
is_lvm_rook_made partition = has_prefix (text_or "" (get_last? (split b'/' partition))) "osd-"

-- `hostDirCleanUpMacros`
unfoldable pub host_dir_part : String → DeviceInfo → HostDir
host_dir_part directory info = if directory == "" then none else some (directory, info.raw)

-- The script of one device.
unfoldable pub device_script : LcmConfig → String → String → DeviceInfo → Script
unfolding is_lvm_rook_made host_dir_part
device_script config directory device info =
    let dir = host_dir_part directory info in
    let destroy = is_lvm_rook_made info.partition || config.allow_to_remove_manually_created_lvm in
    if not info.alive
    then (if device == info.partition then host_dir_only dir else table_clean info.partition dir)
    else if info.raw
    then raw_clean info.path info.rotational dir
    else if info.zap && destroy
    then disk_clean info.partition info.path info.rotational destroy dir
    else partition_clean info.partition destroy dir

-- `deviceInfo.Partition == "" || deviceInfo.Path == ""`
abbrev pub is_broken : String × DeviceInfo → Bool
is_broken (device, info) = info.partition == "" || info.path == ""

-- The label of a device: its name without "/dev/".
unfoldable pub device_label : String → String
unfolding remove_text
device_label device = if has_prefix device "/dev/" then remove_text "/dev/" device else device

abbrev names {ℓ} : {V : Type ℓ} → Assoc V → List String
names m = map (λ e. e.0) m

module _ (config : LcmConfig) (image directory : String) (devices : Assoc DeviceInfo) where
  unfoldable pub container_for : ℕ → String → DeviceInfo → Container
  unfolding device_script sprint show_nat
  container_for idx device info = record {
    name = sprint ("cleanup-run-" ∷ show_nat idx ∷ []);
    image = image;
    device = device;
    script = device_script config directory device info;
  }

  -- The loop over the sorted devices. Each of them is a key of the map.
  unfoldable pub containers_from : ℕ → List String → List Container
  unfolding lookup container_for
  containers_from idx [] = []
  containers_from idx (device ∷ ds) =
      let rest = containers_from (suc idx) ds in
      elim (lookup device devices) [
        | none ↦ rest
        | some info ↦ container_for idx device info ∷ rest
      ]

module _ (env : Env) (c : TaskConfig) where
  open c.ceph_cluster use {data_dir_host_path}

  -- `hostDataPath`
  unfoldable pub host_data_path : String
  host_data_path =
      if data_dir_host_path == "" then default_data_dir_host_path else data_dir_host_path

  -- The host directory is mounted if it lies in the Rook data path.
  unfoldable pub mounted_path : String → Option String
  unfolding host_data_path
  mounted_path directory =
      if not (directory == "") && not (host_data_path == "") && has_prefix directory host_data_path
      then some host_data_path
      else none

  -- `strings.ReplaceAll(osdID, "__", "")` for a stray OSD.
  unfoldable pub label_osd_id : String → String
  unfolding is_stray_osd_id remove_text
  label_osd_id id = if is_stray_osd_id id then remove_text "__" id else id

  unfoldable pub job_name : String → String → String
  unfolding sprint label_osd_id
  job_name host id =
      env.truncate_node_name "device-cleanup-job-%s" (sprint (host ∷ "-" ∷ label_osd_id id ∷ []))

  unfoldable pub cleanup_job : String → String → String → String → Assoc DeviceInfo → CleanupJob
  unfolding job_name label_osd_id device_label mounted_path containers_from sort_strings
  cleanup_job image host id directory devices = record {
    name = job_name host id;
    namespace = c.task.namespace;
    host = host;
    osd = label_osd_id id;
    task = c.task.name;
    device_labels = map device_label (names devices);
    host_rook = mounted_path directory;
    containers =
        containers_from c.lcm_config image directory devices 1 (sort_strings (names devices));
  }

  abbrev fail : String → Error
  fail text = record { text = text; not_found = false; no_match = false }

  -- What follows the lookup of a job of that name in `createCleanupJob`.
  unfoldable pub replace_job : CleanupJob → Result JobStatus → M (Result (Unit {0}))
  unfolding drop_job make_job
  replace_job job (err e) = if e.not_found then make_job env job else pure (err e)
  replace_job job (ok status) =
      if ltb 0 status.active
      then pure (err (fail "waiting old job"))
      else do dropped ← drop_job env job.name; and_then dropped (λ _. make_job env job)

  -- `createCleanupJob`
  unfoldable pub create_cleanup_job : CleanupJob → M (Result (Unit {0}))
  unfolding run_with_retry fetch_job replace_job
  create_cleanup_job job =
      run_with_retry further_tries (do present ← fetch_job env job.name; replace_job job present)

  -- `getCleanupJob`
  unfoldable pub get_cleanup_job : String → M (Result JobStatus)
  unfolding run_with_retry fetch_job
  get_cleanup_job name = run_with_retry further_tries (fetch_job env name)

  abbrev with_name : String → Result (Unit {0}) → String × Option Error
  with_name name (ok _) = (name, none)
  with_name name (err e) = (name, some e)

  -- `runCleanupJob` from the image on. The request for the owner references of the task fails only
  -- if the task's kind is not in the scheme, which the controller's start has put there.
  unfoldable pub run_with_image :
      String → String → String → String → Assoc DeviceInfo → M (String × Option Error)
  unfolding cleanup_job create_cleanup_job job_name
  run_with_image image host id directory devices =
      if any is_broken devices
      then pure (job_name host id, some (fail "partition or device path missed in provided info"))
      else do
        r ← create_cleanup_job (cleanup_job image host id directory devices)
        pure (with_name (job_name host id) r)

  abbrev no_image : Error
  no_image = fail "failed to determine ceph cluster image, no current used image in status"

  -- `runCleanupJob`
  unfoldable pub run_cleanup_job :
      String → String → String → Assoc DeviceInfo → M (String × Option Error)
  unfolding run_with_image
  run_cleanup_job host id directory devices =
      let image = text_or "" c.ceph_cluster.image in
      if image == ""
      then pure ("", some no_image)
      else run_with_image image host id directory devices
