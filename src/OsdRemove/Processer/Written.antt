-- ===== src/OsdRemove/Processer/Written.antt =====
-- What Reconcile does to the status of a task besides handleTask: it clears the note of the status
-- before anything else, and writes the status with another note, or an abort status.
use pelagia.Prelude.{String}
use pelagia.Task.{TaskStatus}
use pelagia.Common.World.{Env, Log}
use pelagia.OsdRemove.Phase.{prepare_abort_status}

-- `cephTask.Status.PhaseInfo = ""`
abbrev pub cleared : TaskStatus → TaskStatus
cleared s = record s { phase_info = "" }

-- The status that Reconcile writes when it does not come to handleTask.
pub data Written (s : TaskStatus) : TaskStatus → Type 0 where
  noted : (text : String) → Written s (record s { phase_info = text })
  aborted :
      (env : Env) (reason : String) (log : Log)
      → Written s (prepare_abort_status env (cleared s) reason log).0
