-- ===== src/Config/Store.antt =====
-- The configurations that are loaded, by namespace, and the Reconcile of
-- pkg/controller/config/controller.go that keeps them.
pub mod Latest
use pelagia.Prelude.{
  ℕ, String, Bool, Option, none, some, List, [], ◌∷◌, Assoc, lookup, insert, remove_key,
  if◌then◌else◌,
}
use pelagia.Common.World.{Error, Result, ok, err}
use pelagia.Config.Params.{
  LcmConfiguration, ControlParams, Parsers, default_lcm_config, default_health_config,
  default_task_config, default_deploy_params,
}
use pelagia.Config.Read.{read_configuration}

-- A call of Reconcile: the namespace, and what the request for the config map comes to.
pub record Request : Type 0 where
  pub namespace : String
  pub reply : Result (Assoc String)

-- `RequeueAfter` in seconds, and whether an error is returned.
pub record LoadOutcome : Type 0 where
  pub requeue_after : ℕ
  pub failed : Bool

abbrev load_finished : LoadOutcome
load_finished = record { requeue_after = 0; failed = Bool.false }

module _ {Affinity Tolerations : Type 0} (parsers : Parsers Affinity Tolerations)
    (control : ControlParams) where
  -- `lcmConfigs`
  abbrev pub Store : Type 0
  Store = Assoc (LcmConfiguration Affinity Tolerations)

  -- `dropConfiguration`
  unfoldable pub drop_configuration : String → Store → Store
  drop_configuration namespace store = remove_key namespace store

  -- `loadConfiguration`
  unfoldable pub load_configuration : String → Assoc String → Store → Store
  load_configuration namespace config store =
      insert namespace (read_configuration parsers config control) store

  unfoldable pub on_config_map : String → Result (Assoc String) → Store → LoadOutcome × Store
  unfolding drop_configuration load_configuration
  on_config_map namespace (ok config) store =
      (load_finished, load_configuration namespace config store)
  on_config_map namespace (err e) store =
      if e.not_found
      then (load_finished, drop_configuration namespace store)
      else (record { requeue_after = 15; failed = Bool.true }, store)

  -- `Reconcile`
  unfoldable pub reconcile_config : Request → Store → LoadOutcome × Store
  unfolding on_config_map
  reconcile_config request store = on_config_map request.namespace request.reply store

  -- The store after a sequence of calls, from the empty one.
  unfoldable pub reconciled : List Request → Store → Store
  unfolding reconcile_config
  reconciled [] store = store
  reconciled (request ∷ requests) store = reconciled requests (reconcile_config request store).1

  -- The default with the parameters of all controllers.
  abbrev pub full_default : LcmConfiguration Affinity Tolerations
  full_default = record default_lcm_config {
    health_params = some default_health_config;
    task_params = some default_task_config;
    deploy_params = some default_deploy_params;
  }

  -- `GetConfiguration`
  unfoldable pub get_configuration : String → Store → LcmConfiguration Affinity Tolerations
  get_configuration namespace store = elim (lookup namespace store) [
    | none ↦ full_default
    | some c ↦ c
  ]
