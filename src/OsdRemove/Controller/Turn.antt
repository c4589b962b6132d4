-- ===== src/OsdRemove/Controller/Turn.antt =====
-- `Reconcile` of controller.go: whose pass runs commands.
use pelagia.Prelude.{
  ℕ, ◌≡◌, refl, ◌∙◌, ◌⊎◌, inl, inr, String, Bool, true, false, not, Option, none, some, List, [],
  ◌∷◌, Bool-cases, ◌==◌, if◌then◌else◌,
}
use pelagia.Task.{TaskStatus, OsdRemoveTask}
use pelagia.Common.Objects.{CephCluster, DeploymentHealth}
use pelagia.Common.World.{
  get_cluster, list_healths, get_task, Env, Result, ok, err, Log, M, Result-cases, fetch_task,
  fetch_tasks, fetch_healths, fetch_cluster, drop_task, write_owners, fetch_task_for_update,
  write_status, current_time_string, now,
}
use pelagia.OsdRemove.Config.{LcmConfig}
use pelagia.OsdRemove.Phase.{prepare_abort_status, prepare_init_status}
use pelagia.OsdRemove.Steps.Order.{count_commands}
use pelagia.OsdRemove.Controller.{
  Outcome, Requeue, done, immediately, finish, or_later, oldest_task_name, update_task_status, note,
  abort, in_turn, with_analysis, with_cluster, same_owners, has_fsid, with_owners, with_healths,
  with_task_status, with_task, reconcile, check_task_active,
}

module _ (env : Env) (config : LcmConfig) (name : String) where
  -- It is the turn of the task: it is the oldest active one of the tasks that were listed.
  pub record IsOldest : Type 0 where
    pub at : Log
    pub tasks : List OsdRemoveTask
    pub listed : env.tasks_reply at ≡ ok tasks
    pub is_oldest : (oldest_task_name tasks == name) ≡ true

  -- A pass runs no command, unless it is the turn of the task.
  abbrev Waits {ℓ} : {A : Type ℓ} → M A → Type 0
  Waits m = (log : Log) → IsOldest ⊎ (count_commands (m log).1 ≡ count_commands log)

  abbrev Quiet {ℓ} : {A : Type ℓ} → M A → Type 0
  Quiet m = (log : Log) → count_commands (m log).1 ≡ count_commands log

  branch : (b : Bool) (m n : M Outcome) → Waits m → Waits n → Waits (if b then m else n)
  branch true m n x y = x
  branch false m n x y = y

  or_later-Waits {ℓ} :
      {A : Type ℓ} (r : Result A) (k : A → M Outcome)
      → ((a : A) → Waits (k a))
      → Waits (or_later r k)
  or_later-Waits (ok a) k w log = w a log
  or_later-Waits (err e) k w log = inr refl

  update-Quiet : (s : TaskStatus) → Quiet (update_task_status env config name s)
  unfolding update_task_status fetch_task_for_update write_status
  update-Quiet s log = elim (Result-cases (env.task_for_update_reply log)) [
    | inl (u, e) ↦ rw e refl
    | inr (x, e) ↦ rw e refl
  ]

  closing {ℓ} :
      {A : Type ℓ} (r : Result A) (requeue : Requeue) (log : Log)
      → count_commands (or_later r (λ _. finish requeue) log).1 ≡ count_commands log
  closing (ok a) requeue log = refl
  closing (err e) requeue log = refl

  update_closing :
      (s : TaskStatus) (requeue : Requeue) (log : Log)
      → (λ (r : Result (Unit {0}) × Log). count_commands (or_later r.0 (λ _. finish requeue) r.1).1)
          (update_task_status env config name s log)
        ≡ count_commands log
  update_closing s requeue log =
      closing (update_task_status env config name s log).0 requeue _ ∙ update-Quiet s log

  note-Waits : (s : TaskStatus) (text : String) → Waits (note env config name s text)
  unfolding note
  note-Waits s text log = inr (update-Quiet _ log)

  abort-Waits : (s : TaskStatus) (reason : String) → Waits (abort env config name s reason)
  unfolding abort prepare_abort_status current_time_string now
  abort-Waits s reason log = inr (update_closing (prepare_abort_status env s reason log).0 done _)

  in_turn-Waits :
      (task : OsdRemoveTask) (s : TaskStatus) (cluster : CephCluster) (health : DeploymentHealth)
      (generation : ℕ) (tasks : List OsdRemoveTask) (at : Log)
      → env.tasks_reply at ≡ ok tasks
      → Waits (in_turn env config name task s cluster health generation tasks)
  unfolding in_turn
  in_turn-Waits task s cluster health generation tasks at listed log =
      elim (Bool-cases (oldest_task_name tasks == name)) [
        | inl turn ↦ inl (record { at = at; tasks = tasks; listed = listed; is_oldest = turn })
        | inr other ↦ rw other (note-Waits _ _ log)
      ]

  with_analysis-Waits :
      (task : OsdRemoveTask) (s : TaskStatus) (cluster : CephCluster) (health : DeploymentHealth)
      (generation : Option ℕ)
      → Waits (with_analysis env config name task s cluster health generation)
  unfolding with_analysis fetch_tasks
  with_analysis-Waits task s cluster health none log = note-Waits _ _ log
  with_analysis-Waits task s cluster health (some generation) log =
      elim (Result-cases (env.tasks_reply log)) [
        | inl (tasks, e) ↦ rw e (in_turn-Waits task s cluster health generation tasks log e _)
        | inr (x, e) ↦ rw e (inr refl)
      ]

  with_cluster-Waits :
      (task : OsdRemoveTask) (s : TaskStatus) (health : DeploymentHealth) (cluster : CephCluster)
      → Waits (with_cluster env config name task s health cluster)
  unfolding with_cluster
  with_cluster-Waits task s health cluster = branch cluster.external _ _ (abort-Waits s _) (
      branch (not (has_fsid cluster.fsid)) _ _ (note-Waits s _) (
        branch (not health.has_cluster_status) _ _ (note-Waits s _)
          (with_analysis-Waits task s cluster health health.validated_generation)))

  with_owners-Waits :
      (task : OsdRemoveTask) (s : TaskStatus) (health : DeploymentHealth) (refs : List String)
      → Waits (with_owners env config name task s health refs)
  unfolding with_owners fetch_cluster write_owners
  with_owners-Waits task s health refs =
      branch (same_owners env config name refs task.owner_references) _ _
        (λ log.
          or_later-Waits (env.cluster_reply log health.name) _ (with_cluster-Waits task s health)
            (get_cluster health.name ∷ log))
        (λ log. inr (closing (env.update_owners_reply log refs) immediately _))

  with_healths-Waits :
      (task : OsdRemoveTask) (s : TaskStatus) (healths : List DeploymentHealth)
      → Waits (with_healths env config name task s healths)
  unfolding with_healths drop_task
  with_healths-Waits task s [] = λ log. inr (closing (env.delete_task_reply log) done _)
  with_healths-Waits task s (h ∷ []) =
      or_later-Waits (env.owner_refs h) _ (with_owners-Waits task s h)
  with_healths-Waits task s (h ∷ h' ∷ hs) =
      branch (check_task_active (some s)) _ _ (abort-Waits s _) (λ log. inr refl)

  with_task_status-Waits :
      (task : OsdRemoveTask) (s : Option TaskStatus)
      → Waits (with_task_status env config name task s)
  unfolding with_task_status fetch_healths prepare_init_status current_time_string now
  with_task_status-Waits task none log =
      inr (update_closing (prepare_init_status env task log).0 immediately _)
  with_task_status-Waits task (some old) log =
      or_later-Waits (env.healths_reply log) _
        (with_healths-Waits task (record old { phase_info = "" })) (list_healths ∷ log)

  with_task-Waits : (r : Result OsdRemoveTask) → Waits (with_task env config name r)
  unfolding with_task
  with_task-Waits (ok task) log = with_task_status-Waits task task.status log
  with_task-Waits (err e) log = branch e.not_found _ _ (λ l. inr refl) (λ l. inr refl) log

  -- A pass runs a command in the toolbox only if it finds the task to be the oldest active one of
  -- those that it has listed.
  pub reconcile-Waits :
      (log : Log)
      → IsOldest ⊎ (count_commands (reconcile env config name log).1 ≡ count_commands log)
  unfolding reconcile fetch_task
  reconcile-Waits log = with_task-Waits (env.task_reply log) (get_task ∷ log)
