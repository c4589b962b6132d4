-- ===== src/OsdRemove/Steps.antt =====
-- executor.go and utils.go: the requests that take an OSD, a host or a deployment away.
pub mod Order
use pelagia.Prelude.{
  ℕ, ◌-◌, String, Bool, true, false, not, [], ◌∷◌, sprint, split, contains, if◌then◌else◌,
}
use pelagia.Task.{RemovePhase, in_progress, finished, failed, skipped, RemoveStatus, with_status}
use pelagia.Common.World.{
  Error, Result, ok, err, Env, M, ◌>>=◌, pure, and_then, run_ceph, scale_deployment,
  drop_deployment, current_time_string,
}
use pelagia.Common.Retry.{run_with_retry, wrap}
use pelagia.OsdRemove.Config.{plain_osd_id, osd_number, deploy_name}

-- `retriesForFailedCommand`
abbrev pub retries : ℕ
retries = 5

-- The tries after the first one.
abbrev pub further_tries : ℕ
further_tries = retries - 1

-- The status with the error of a failed request.
abbrev pub failed_with : RemoveStatus → String → RemoveStatus
failed_with s text = record s { status = failed; error = text }

-- `if apierrors.IsNotFound(err) { return nil, nil }`
abbrev pub ignore_not_found : Result (Unit {0}) → Result (Unit {0})
ignore_not_found (ok u) = ok u
ignore_not_found (err e) = if e.not_found then ok tt else err e

module _ (env : Env) where
  -- A retried command of the toolbox.
  unfoldable pub retry_ceph : String → M (Result String)
  retry_ceph command = run_with_retry further_tries (run_ceph env command)

  -- The retried scaling of an OSD's deployment to no replicas.
  unfoldable pub scale_down : String → M (Result (Unit {0}))
  scale_down id =
      run_with_retry further_tries
        (do r ← scale_deployment env (deploy_name id) 0; pure (ignore_not_found r))

  -- The status of a removal whose last request came back.
  unfoldable pub conclude {ℓ} : {A : Type ℓ} → RemoveStatus → Result A → M RemoveStatus
  conclude s (ok _) = do
    t ← current_time_string env
    pure (record s { status = finished; finished_at = t })
  conclude s (err e) = pure (failed_with s e.text)

  -- `removeHostFromCrush`
  unfoldable pub remove_host_from_crush : String → M RemoveStatus
  remove_host_from_crush host = do
    t ← current_time_string env
    r ← retry_ceph (sprint ("ceph osd crush remove " ∷ host ∷ []))
    conclude (record (with_status finished) { started_at = t }) r

  -- `removeOsdDeployment`
  unfoldable pub deleted : String → Result (Unit {0}) → Result (Unit {0})
  deleted name (ok u) = ok u
  deleted name (err e) =
      if e.not_found
      then ok tt
      else err (wrap e (sprint ("failed to delete osd deployment '" ∷ name ∷ "'" ∷ [])))

  unfoldable pub remove_osd_deployment : String → M (Result (Unit {0}))
  remove_osd_deployment name = do r ← drop_deployment env name; pure (deleted name r)

  -- `removeDeployment`
  unfoldable pub remove_deployment : String → M RemoveStatus
  remove_deployment id = do
    let name = deploy_name (plain_osd_id id)
    t ← current_time_string env
    r ← run_with_retry further_tries (remove_osd_deployment name)
    conclude (record (with_status finished) { name = name; started_at = t }) r

  unfoldable pub delete_auth : String → M (Result String)
  delete_auth id = retry_ceph (sprint ("ceph auth del osd." ∷ id ∷ []))

  -- The part of `removeStray` below `dropOsdEntriesAllowed`.
  unfoldable pub drop_stray : String → RemoveStatus → M RemoveStatus
  drop_stray id s = do
    t ← current_time_string env
    scaled ← scale_down id
    r ← and_then scaled (λ _. delete_auth id)
    conclude (record s { started_at = t }) r

  unfoldable pub stray_listed : String → RemoveStatus → Result String → M RemoveStatus
  stray_listed id s (ok output) =
      if contains (split b'\n' output) id
      then pure (record s { status = skipped })
      else drop_stray id s
  stray_listed id s (err e) = pure (failed_with s e.text)

  -- `removeStray`
  unfoldable pub remove_stray : String → RemoveStatus → M RemoveStatus
  remove_stray id s = do listed ← retry_ceph "ceph osd ls"; stray_listed (osd_number id) s listed

  -- The requests of `removeFromCrush`, each made only if the one before it went through.
  unfoldable pub purge : String → M (Result String)
  purge id = do
    scaled ← scale_down id
    and_then scaled (λ _. do
      purged ← retry_ceph (sprint ("ceph osd purge " ∷ id ∷ " --force --yes-i-really-mean-it" ∷ []))
      and_then purged (λ _. delete_auth id))

  -- `removeFromCrush`
  unfoldable pub remove_from_crush : String → RemoveStatus → M RemoveStatus
  remove_from_crush id s = do r ← purge (plain_osd_id id); conclude s r
