-- ===== src/OsdRemove/Processer/History.antt =====
-- The conditions of a task are its history.
use pelagia.Prelude.{
  ◌≡◌, refl, ◌∙◌, sym, subst, ap, some, List, [], ◌∷◌, ◌++◌, get_last?, get_last?-snoc,
}
use pelagia.Task.{TaskCondition, TaskStatus, OsdRemoveTask}
use pelagia.Common.World.{Env, Log}
use pelagia.OsdRemove.Config.{TaskConfig}
use pelagia.OsdRemove.Phase.{prepare_init_status, prepare_abort_status}
use pelagia.OsdRemove.Processer.Written.{cleared, Written, noted, aborted}
use pelagia.OsdRemove.Processer.{handle_task}
use pelagia.OsdRemove.Processer.Moves.{Moves, keeps, moves, lost, handle_task-Moves}

-- The last condition has the phase of the task.
pub record IsRecorded (s : TaskStatus) : Type 0 where
  pub last : TaskCondition
  pub is_last : get_last? s.conditions ≡ some last
  pub same_phase : last.phase ≡ s.phase

-- A status that calls of Reconcile can store from the one that it gives a new task on, with the
-- environment, the spec and the cluster as they happen to be at each call: the stored status with a
-- note or as aborted, or what handleTask makes of the stored status without its note.
pub data Lives : TaskStatus → Type 0 where
  init : (env : Env) (task : OsdRemoveTask) (log : Log) → Lives (prepare_init_status env task log).0
  written : {s t : TaskStatus} → Lives s → Written s t → Lives t
  pass :
      {s : TaskStatus} (env : Env) (c : TaskConfig) (log : Log)
      → Lives s
      → c.status ≡ cleared s
      → Lives (handle_task env c log).0.0

snoc-last :
    {now : List TaskCondition} (before : List TaskCondition) (condition : TaskCondition)
    → now ≡ before ++ condition ∷ []
    → get_last? now ≡ some condition
snoc-last before condition e = ap get_last? e ∙ get_last?-snoc before condition

Moves-IsRecorded :
    {env : Env} {c : TaskConfig} {old new : TaskStatus}
    → Moves env c old new
    → IsRecorded old
    → IsRecorded new
Moves-IsRecorded (keeps p h) r = record {
  last = r.last;
  is_last = ap get_last? h ∙ r.is_last;
  same_phase = r.same_phase ∙ sym p;
}
Moves-IsRecorded (moves condition a p h) r = record {
  last = condition;
  is_last = snoc-last _ condition h;
  same_phase = p;
}
Moves-IsRecorded (lost condition e p q h) r = record {
  last = condition;
  is_last = snoc-last _ condition h;
  same_phase = q ∙ sym p;
}

Written-IsRecorded : {s t : TaskStatus} → Written s t → IsRecorded s → IsRecorded t
unfolding prepare_abort_status
Written-IsRecorded (noted text) r = record {
  last = r.last;
  is_last = r.is_last;
  same_phase = r.same_phase;
}
Written-IsRecorded {s} (aborted env reason log) r = record {
  last = _;
  is_last = snoc-last s.conditions _ refl;
  same_phase = refl;
}

-- In every status that calls of Reconcile can store from the one of a new task on, by notes, aborts
-- and passes of handleTask in any order and environments, the last condition exists and has the
-- phase of the task.
pub Lives-IsRecorded : {s : TaskStatus} → Lives s → IsRecorded s
unfolding prepare_init_status
Lives-IsRecorded (init env task log) = record { last = _; is_last = refl; same_phase = refl }
Lives-IsRecorded (written f w) = Written-IsRecorded w (Lives-IsRecorded f)
Lives-IsRecorded (pass {s} env c log f e) =
    Moves-IsRecorded (handle_task-Moves env c log)
      (subst IsRecorded (sym e) (Written-IsRecorded (noted "") (Lives-IsRecorded f)))
