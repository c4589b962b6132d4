-- ===== src/OsdRemove/Outcomes.antt =====
-- The phases that the steps of executor.go lead to.
use pelagia.Prelude.{
  ℕ, ◌≡◌, refl, ◌⊎◌, inl, inr, String, Bool, true, false, if_ind, contains, split,
}
use pelagia.Prelude.Numbers.{has_time_left}
use pelagia.Task.{RemovePhase, in_progress, finished, failed, skipped, RemoveStatus}
use pelagia.Common.World.{Result, ok, err, Env, Log, M}
use pelagia.OsdRemove.Config.{LcmConfig}
use pelagia.OsdRemove.Steps.{conclude, drop_stray, stray_listed, remove_stray, remove_from_crush}
use pelagia.OsdRemove.Rebalance.{still_rebalancing, rebalance_checked, check_rebalance}

-- The OSD needs no more requests of the loops that remove OSDs.
abbrev pub IsSettled : RemovePhase → Type 0
IsSettled p = (p ≡ finished) ⊎ ((p ≡ failed) ⊎ (p ≡ skipped))

abbrev pub Settles : M RemoveStatus → Type 0
Settles m = (log : Log) → IsSettled (m log).0.status

module _ (env : Env) where
  conclude-IsSettled {ℓ} :
      {A : Type ℓ} (s : RemoveStatus) (r : Result A) → Settles (conclude env s r)
  unfolding conclude
  conclude-IsSettled s (ok a) log = inl refl
  conclude-IsSettled s (err e) log = inr (inl refl)

  drop_stray-IsSettled : (id : String) (s : RemoveStatus) → Settles (drop_stray env id s)
  unfolding drop_stray
  drop_stray-IsSettled id s log = conclude-IsSettled _ _ _

  stray_listed-IsSettled :
      (id : String) (s : RemoveStatus) (r : Result String) → Settles (stray_listed env id s r)
  unfolding stray_listed
  stray_listed-IsSettled id s (ok output) log =
      if_ind (λ (k : M RemoveStatus). IsSettled (k log).0.status) (contains (split b'\n' output) id)
        (inr (inr refl)) (drop_stray-IsSettled id s log)
  stray_listed-IsSettled id s (err e) log = inr (inl refl)

  pub remove_stray-IsSettled : (id : String) (s : RemoveStatus) → Settles (remove_stray env id s)
  unfolding remove_stray
  remove_stray-IsSettled id s log = stray_listed-IsSettled _ s _ _

  pub remove_from_crush-IsSettled :
      (id : String) (s : RemoveStatus) → Settles (remove_from_crush env id s)
  unfolding remove_from_crush
  remove_from_crush-IsSettled id s log = conclude-IsSettled s _ _

-- An OSD that rebalances goes on with it, fails, or is ready to be removed.
abbrev pub Rebalances : RemovePhase → RemovePhase → Type 0
Rebalances old p = (p ≡ old) ⊎ ((p ≡ failed) ⊎ (p ≡ in_progress))

module _ (env : Env) (config : LcmConfig) where
  still_rebalancing-Rebalances :
      (s : RemoveStatus) (r : Result ℕ) (log : Log)
      → Rebalances s.status (still_rebalancing env config s r log).0.status
  unfolding still_rebalancing
  still_rebalancing-Rebalances s (ok start) log =
      if_ind (λ (x : RemoveStatus). Rebalances s.status x.status)
        (has_time_left _ start config.osd_pg_rebalance_timeout) (inl refl) (inr (inl refl))
  still_rebalancing-Rebalances s (err e) log = inl refl

  rebalance_checked-Rebalances :
      (s : RemoveStatus) (r : Result Bool) (log : Log)
      → Rebalances s.status (rebalance_checked env config s r log).0.status
  unfolding rebalance_checked
  rebalance_checked-Rebalances s (ok true) log = still_rebalancing-Rebalances s _ log
  rebalance_checked-Rebalances s (ok false) log = inr (inr refl)
  rebalance_checked-Rebalances s (err e) log = inr (inl refl)

  pub check_rebalance-Rebalances :
      (id : String) (s : RemoveStatus) (log : Log)
      → Rebalances s.status (check_rebalance env config id s log).0.status
  unfolding check_rebalance
  check_rebalance-Rebalances id s log = rebalance_checked-Rebalances s _ _
