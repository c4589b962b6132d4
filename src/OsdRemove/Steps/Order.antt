-- ===== src/OsdRemove/Steps/Order.antt =====
-- `removeFromCrush` of executor.go: nothing is purged before the OSD is down.
use pelagia.Prelude.{ℕ, ◌≡◌, refl, String, Bool, true, false}
use pelagia.Task.{failed, RemoveStatus}
use pelagia.Common.World.{Env, Error, err, Log, Call, ceph, scale_deployment}
use pelagia.Common.Retry.Quiet.{count_calls, run_with_retry-Quiet}
use pelagia.OsdRemove.Config.{plain_osd_id}
use pelagia.OsdRemove.Steps.{scale_down, purge, conclude, remove_from_crush}

-- The commands that a log shows to have been run in the toolbox.
abbrev pub is_command : Call → Bool
is_command (ceph command) = true
is_command _ = false

abbrev pub count_commands : Log → ℕ
count_commands log = count_calls is_command log

module _ (env : Env) where
  scale_down_quiet :
      (id : String) (log : Log) → count_commands (scale_down env id log).1 ≡ count_commands log
  unfolding scale_down scale_deployment
  scale_down_quiet id log = run_with_retry-Quiet is_command refl _ (λ l. refl) _ log

  -- If the deployment of the OSD cannot be scaled down, the removal fails with that error and no
  -- Ceph command is run: the OSD is neither purged nor loses its key.
  pub remove_from_crush-not_scaled :
      (id : String) (s : RemoveStatus) (e : Error) (log : Log)
      → (scale_down env (plain_osd_id id) log).0 ≡ err e
      → ((remove_from_crush env id s log).0.status ≡ failed)
        × ((remove_from_crush env id s log).0.error ≡ e.text)
        × (count_commands (remove_from_crush env id s log).1 ≡ count_commands log)
  unfolding remove_from_crush purge conclude
  remove_from_crush-not_scaled id s e log fails =
      rw fails (refl, refl, scale_down_quiet (plain_osd_id id) log)
