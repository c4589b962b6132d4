-- ===== src/Config/Samples.antt =====
-- A config map that is read, and a CSI path that is not.
use pelagia.Prelude.{◌≡◌, ◌≢◌, String, true, none, some, List, [], ◌∷◌, Assoc, lookup, insert, refl}
use pelagia.Common.World.{ok}
use pelagia.Config.Params.{Parsers, all}
use pelagia.Config.Read.{read_configuration, csi_manage}
use pelagia.Config.Read.Csi.{read_configuration-ignores}
use pelagia.Config.Store.{Request, reconciled, get_configuration}
use pelagia.Config.Store.Latest.{latest, map_or_empty, get_configuration-latest}

abbrev parsers : Parsers String String
parsers = record {
  parse_level = λ _. none;
  regexp_compiles = λ _. true;
  parse_selector = λ s. some s;
  generate_node_affinity = λ s. some s;
  yaml_to_tolerations = λ s. some s;
}

abbrev kubelet_only : Assoc String
kubelet_only = ("DEPLOYMENT_CSI_KUBELET_PATH", "/var/lib/k0s/kubelet") ∷ []

abbrev two_requests : List Request
two_requests =
    record { namespace = "pelagia"; reply = ok kubelet_only }
    ∷ record { namespace = "other"; reply = ok [] }
    ∷ []

get_configuration-latest_example :
    get_configuration parsers all "pelagia" (reconciled parsers all two_requests [])
    ≡ read_configuration parsers (map_or_empty (latest "pelagia" none two_requests)) all
get_configuration-latest_example = get_configuration-latest parsers "pelagia" two_requests

unmanaged : csi_manage parsers kubelet_only ≢ some true
unfolding lookup
unmanaged e = cc

read_configuration-ignores_example :
    read_configuration parsers
      (insert "DEPLOYMENT_CSI_KEEP_EXISTING_ON_UPGRADE" "true" kubelet_only)
      all
    ≡ read_configuration parsers kubelet_only all
read_configuration-ignores_example =
    read_configuration-ignores parsers kubelet_only "DEPLOYMENT_CSI_KEEP_EXISTING_ON_UPGRADE" "true"
      (refl, refl) unmanaged all
