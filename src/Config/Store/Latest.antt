-- ===== src/Config/Store/Latest.antt =====
-- What GetConfiguration returns, by the history of the config map.
use pelagia.Prelude.{
  ◌≡◌, refl, sym, String, Option, none, some, List, [], ◌∷◌, Assoc, lookup, remove_key,
  lookup-insert, eq_iff, ◌==◌, if◌then◌else◌, arith,
}
use pelagia.Common.World.{Result, ok, err}
use pelagia.Config.Params.{LcmConfiguration, ControlParams, all, Parsers}
use pelagia.Config.Read.{
  read_configuration, read_common, with_controlled, load_health_configuration,
  load_task_configuration, load_ceph_deployment_configuration, csi_managed,
}
use pelagia.Config.Store.{
  Request, Store, drop_configuration, load_configuration, on_config_map, reconcile_config,
  reconciled, full_default, get_configuration,
}

pub lookup-remove_key {ℓ} :
    {V : Type ℓ} (k j : String) (m : Assoc V)
    → lookup j (remove_key k m) ≡ (if k == j then none else lookup j m)
unfolding lookup remove_key
lookup-remove_key k j [] = ground arith
lookup-remove_key k j ((i, w) ∷ m) =
    ground (arith, eq_iff k j, eq_iff i k, eq_iff i j, lookup-remove_key k j m)

-- The state of the config map of a namespace as its replies tell: none as long as there is none,
-- and unchanged by other namespaces and by requests that fail.
abbrev pub told : Option (Assoc String) → Result (Assoc String) → Option (Assoc String)
told before (ok config) = some config
told before (err e) = if e.not_found then none else before

abbrev pub latest : String → Option (Assoc String) → List Request → Option (Assoc String)
latest namespace before [] = before
latest namespace before (r ∷ rs) =
    latest namespace (if r.namespace == namespace then told before r.reply else before) rs

module _ {Affinity Tolerations : Type 0} (parsers : Parsers Affinity Tolerations)
    (control : ControlParams) where
  abbrev loaded : Option (Assoc String) → Option (LcmConfiguration Affinity Tolerations)
  loaded none = none
  loaded (some config) = some (read_configuration parsers config control)

  on_config_map-loaded :
      (namespace own : String) (reply : Result (Assoc String)) (store : Store parsers control)
      (before : Option (Assoc String))
      → lookup namespace store ≡ loaded before
      → lookup namespace (on_config_map parsers control own reply store).1
        ≡ loaded (if own == namespace then told before reply else before)
  unfolding on_config_map drop_configuration load_configuration
  on_config_map-loaded namespace own (ok config) store before h =
      ground (arith, lookup-insert own namespace (read_configuration parsers config control) store)
  on_config_map-loaded namespace own (err e) store before h =
      ground (arith, lookup-remove_key own namespace store)

  reconciled-loaded :
      (namespace : String) (requests : List Request) (store : Store parsers control)
      (before : Option (Assoc String))
      → lookup namespace store ≡ loaded before
      → lookup namespace (reconciled parsers control requests store)
        ≡ loaded (latest namespace before requests)
  unfolding reconciled reconcile_config
  reconciled-loaded namespace [] store before h = h
  reconciled-loaded namespace (r ∷ rs) store before h =
      reconciled-loaded namespace rs (reconcile_config parsers control r store).1
        (if r.namespace == namespace then told before r.reply else before)
        (on_config_map-loaded namespace r.namespace r.reply store before h)

-- The config map that stands for a missing one.
abbrev pub map_or_empty : Option (Assoc String) → Assoc String
map_or_empty none = []
map_or_empty (some config) = config

module _ {Affinity Tolerations : Type 0} (parsers : Parsers Affinity Tolerations) where
  read_configuration-empty : read_configuration parsers [] all ≡ full_default parsers all
  unfolding read_configuration read_common with_controlled load_health_configuration
      load_task_configuration load_ceph_deployment_configuration csi_managed lookup
  read_configuration-empty = refl

  loaded-read :
      (o : Option (Assoc String))
      → elim (loaded parsers all o) [ none ↦ full_default parsers all | some c ↦ c ]
        ≡ read_configuration parsers (map_or_empty o) all
  loaded-read none = sym read_configuration-empty
  loaded-read (some config) = refl

-- Where the parameters of all controllers are read, GetConfiguration returns, after any calls of
-- Reconcile, what ReadConfiguration makes of the latest config map of the namespace, and of an empty
-- one if there is none.
pub get_configuration-latest :
    {Affinity Tolerations : Type 0} (parsers : Parsers Affinity Tolerations) (namespace : String)
    (requests : List Request)
    → get_configuration parsers all namespace (reconciled parsers all requests [])
      ≡ read_configuration parsers (map_or_empty (latest namespace none requests)) all
unfolding get_configuration lookup
get_configuration-latest parsers namespace requests =
    rw (get_configuration, reconciled-loaded parsers all namespace requests [] none refl)
      (loaded-read parsers (latest namespace none requests))
