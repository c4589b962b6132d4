-- ===== src/OsdRemove/Processer/Reads.antt =====
-- processer.go: outside of the phase Processing nothing is changed in the cluster.
use pelagia.Prelude.{
  ◌≡◌, ◌≢◌, refl, ◌∙◌, String, Bool, true, Option, none, some, List, ◌∷◌, contains, get_last?,
  is_empty, if◌then◌else◌,
}
use pelagia.Task.{
  TaskPhase, pending, validating, approve_waiting, waiting_operator, processing, completed,
  completed_with_warnings, failed, aborted, validation_failed, TaskRemoveInfo, TaskCondition,
}
use pelagia.Common.Objects.{TreeNode, OsdInfo, OsdMetadataInfo}
use pelagia.Common.World.{
  Result, ok, err, Env, list_nodes, Log, M, ◌>>=◌, run_and_parse, fetch_nodes, fetch_deployment,
  current_time_string, now,
}
use pelagia.Common.Retry.Quiet.{count_calls, bind-Quiet, branch-Quiet}
use pelagia.OsdRemove.Config.{TaskConfig}
use pelagia.OsdRemove.Phase.{prepare_abort_status, move_task_phase}
use pelagia.OsdRemove.Processer.{
  stay, osd_hosts, check_operator_stopped, or_issue, validate_task, move, validated, on_validating,
  on_approve_waiting, on_waiting_operator, dispatch, with_latest, handle_task, spec_changes,
  is_approved,
}
use pelagia.OsdRemove.Spec.Plan.Reads.{is_change, Reads, run_and_parse-Reads, plan-Reads}

module _ (env : Env) (c : TaskConfig) where
  or_issue-Reads {ℓ} :
      {A : Type ℓ} (text : String) (r : Result A) (f : A → M TaskRemoveInfo)
      → ((a : A) → Reads (f a))
      → Reads (or_issue env c text r f)
  or_issue-Reads text (ok a) f q log = q a log
  or_issue-Reads text (err e) f q log = refl

  validate_task-Reads : Reads (validate_task env c)
  unfolding validate_task fetch_nodes contains
  validate_task-Reads log =
      or_issue-Reads _ (tree log).0 _
        (λ hosts log'.
          or_issue-Reads _ (metadata log').0 _
            (λ infos log''.
              or_issue-Reads _ (env.nodes_reply log'') _
                (λ nodes l.
                  or_issue-Reads _ (osds l).0 _
                    (λ os. plan-Reads env c (osd_hosts hosts) infos os nodes) (osds l).1
                  ∙ run_and_parse-Reads env env.unmarshal_osds_info "ceph osd info -f json" refl l)
                (list_nodes ∷ log''))
            (metadata log').1
          ∙ run_and_parse-Reads env env.unmarshal_osd_metadata "ceph osd metadata -f json" refl
              log')
        (tree log).1
      ∙ run_and_parse-Reads env env.unmarshal_osd_tree "ceph osd tree -f json" refl log
    where
      tree : M (Result (List TreeNode))
      tree = run_and_parse env env.unmarshal_osd_tree "ceph osd tree -f json"

      metadata : M (Result (List OsdMetadataInfo))
      metadata = run_and_parse env env.unmarshal_osd_metadata "ceph osd metadata -f json"

      osds : M (Result (List OsdInfo))
      osds = run_and_parse env env.unmarshal_osds_info "ceph osd info -f json"

  move-Reads :
      (phase : TaskPhase) (reason : String) (info : Option TaskRemoveInfo) (requeue : Bool)
      → Reads (move env c phase reason info requeue)
  unfolding move move_task_phase current_time_string now
  move-Reads phase reason info requeue log = refl

  stay-Reads : Reads (stay env c)
  stay-Reads log = refl

  validated-Reads : (info : TaskRemoveInfo) → Reads (validated env c info)
  unfolding validated
  validated-Reads info =
      branch-Quiet is_change (is_empty info.issues) _ _
        (branch-Quiet is_change (is_empty info.cleanup_map) _ _ (move-Reads _ _ _ _) (
          branch-Quiet is_change (is_approved c.task.spec) _ _ (move-Reads _ _ _ _)
            (move-Reads _ _ _ _)))
        (move-Reads _ _ _ _)

  on_validating-Reads : Reads (on_validating env c)
  unfolding on_validating
  on_validating-Reads =
      branch-Quiet is_change _ (validate_task env c >>= validated env c) (stay env c)
        (bind-Quiet is_change (validate_task env c) (validated env c) validate_task-Reads
          validated-Reads)
        stay-Reads

  on_approve_waiting-Reads : (latest : TaskCondition) → Reads (on_approve_waiting env c latest)
  unfolding on_approve_waiting
  on_approve_waiting-Reads latest =
      branch-Quiet is_change (is_approved c.task.spec) _ _ (move-Reads _ _ _ _) (
        branch-Quiet is_change (is_empty (spec_changes c latest)) _ _ stay-Reads
          (move-Reads _ _ _ _))

  stopped-Reads : Reads (check_operator_stopped env c)
  unfolding check_operator_stopped fetch_deployment
  stopped-Reads log = refl

  started-Reads :
      (stopped : Bool)
      → Reads (
          if stopped
          then move env c processing "processing" c.status.remove_info true
          else stay env c)
  started-Reads stopped = branch-Quiet is_change stopped _ _ (move-Reads _ _ _ _) stay-Reads

  on_waiting_operator-Reads : (latest : TaskCondition) → Reads (on_waiting_operator env c latest)
  unfolding on_waiting_operator
  on_waiting_operator-Reads latest =
      branch-Quiet is_change (is_empty (spec_changes c latest)) _ _
        (λ log. started-Reads (check_operator_stopped env c log).0 _ ∙ stopped-Reads log)
        (move-Reads _ _ _ _)

  dispatch-Reads :
      (phase : TaskPhase) (latest : TaskCondition)
      → phase ≢ processing
      → Reads (dispatch env c phase latest)
  unfolding dispatch
  dispatch-Reads pending latest n = move-Reads _ _ _ _
  dispatch-Reads validating latest n = on_validating-Reads
  dispatch-Reads approve_waiting latest n = on_approve_waiting-Reads latest
  dispatch-Reads waiting_operator latest n = on_waiting_operator-Reads latest
  dispatch-Reads processing latest n = absurd (n refl)
  dispatch-Reads aborted latest n = stay-Reads
  dispatch-Reads completed latest n = stay-Reads
  dispatch-Reads completed_with_warnings latest n = stay-Reads
  dispatch-Reads failed latest n = stay-Reads
  dispatch-Reads validation_failed latest n = stay-Reads

  -- In every phase but Processing, a pass of handleTask only reads: of all its requests, to the
  -- toolbox, to Kubernetes and to the disk daemons, none may change anything, whatever the
  -- replies are.
  pub handle_task-Reads :
      (log : Log)
      → c.status.phase ≢ processing
      → count_calls is_change (handle_task env c log).1 ≡ count_calls is_change log
  unfolding handle_task with_latest prepare_abort_status current_time_string now
  handle_task-Reads log n = latest (get_last? c.status.conditions)
    where
      latest :
          (o : Option TaskCondition)
          → count_calls is_change (with_latest env c o log).1 ≡ count_calls is_change log
      latest none = refl
      latest (some last) = dispatch-Reads c.status.phase last n log
