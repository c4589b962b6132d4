-- ===== src/Task/Job.antt =====
-- The disk cleanup job that pkg/controller/osdremove-task/cleanup_job.go builds. A bash script is
-- represented by its template and the values that are put in.
use pelagia.Prelude.{String, Bool, List, Option}

-- The host directory part: the directory and the `RAW` flag.
abbrev pub HostDir : Type 0
HostDir = Option (String × Bool)

pub data Script : Type 0 where
  -- `cleanupScriptTmpl` around the host directory part alone.
  host_dir_only : HostDir → Script
  -- `dmSetupTableClean` of a partition.
  table_clean : (partition : String) → HostDir → Script
  -- `diskRawCleanupScriptTmpl`
  raw_clean : (path : String) (rotational : Bool) → HostDir → Script
  -- `partitionCleanupScriptTmpl`, followed by `diskCleanupScriptTmpl`.
  disk_clean : (partition path : String) (rotational destroy : Bool) → HostDir → Script
  -- `partitionCleanupScriptTmpl`
  partition_clean : (partition : String) (destroy : Bool) → HostDir → Script

pub record Container : Type 0 where
  pub name : String
  pub image : String
  pub device : String
  pub script : Script

pub record CleanupJob : Type 0 where
  pub name : String
  pub namespace : String
  -- The node that the pod is bound to, also its `host` label.
  pub host : String
  pub osd : String
  pub task : String
  -- The labels that name the devices.
  pub device_labels : List String
  -- The host path that is mounted for the host directory part.
  pub host_rook : Option String
  pub containers : List Container
