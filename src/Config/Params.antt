-- ===== src/Config/Params.antt =====
-- The records of pkg/controller/config/config.go and their defaults. A zerolog.Level is its number.
use pelagia.Prelude.{String, Bool, true, false, Option, none, List, [], ◌∷◌}
use pelagia.Prelude.Numbers.{ℤ, pos}

pub record CommonParams : Type 0 where
  pub base_gateway_name : String
  pub base_gateway_namespace : String
  pub disk_daemon_placement_label : String
  pub disk_daemon_port : ℤ
  pub rgw_public_access_label : String
  pub gateway_api_enabled : Bool
  pub keep_ingress : Bool
  pub lcm_full_mode : Bool

pub record HealthParams : Type 0 where
  pub log_level : ℤ
  pub checks_skip : List String
  pub ceph_issues_to_ignore : List String
  pub usage_details_classes_filter : String
  pub usage_details_pools_filter : String

-- The timeout is in nanoseconds.
pub record TaskParams : Type 0 where
  pub log_level : ℤ
  pub osd_pg_rebalance_timeout : ℤ
  pub allow_to_remove_manually_created_lvm : Bool

-- The affinities and tolerations are Kubernetes types.
module _ (Affinity Tolerations : Type 0) where
  pub record CsiDeployParams : Type 0 where
    pub manage : Bool
    pub kubelet_path : String
    pub create_default_rbd_driver : Bool
    pub create_default_ceph_fs_driver : Bool
    pub create_default_nfs_driver : Bool
    pub keep_existing : Bool
    pub deploy_csi_addons : Bool
    pub controller_plugin_node_affinity : Option Affinity
    pub controller_plugin_toleration : Option Tolerations
    pub node_plugin_node_affinity : Option Affinity
    pub node_plugin_toleration : Option Tolerations

  pub record DeployParams : Type 0 where
    pub log_level : ℤ
    pub ceph_image : String
    pub ceph_release : String
    pub rook_image : String
    pub net_pol_enabled : Bool
    pub openstack_ceph_shared_namespace : String
    pub ceph_daemonset_placement_label_exclude : String
    pub drain_request_label_key : String
    pub drain_ready_label_key : String
    pub csi_params : CsiDeployParams
    pub manage_volume_snapshot_classes : Bool

  -- `LcmConfig`
  pub record LcmConfiguration : Type 0 where
    pub rook_namespace : String
    pub common_params : CommonParams
    pub health_params : Option HealthParams
    pub task_params : Option TaskParams
    pub deploy_params : Option DeployParams

-- `ControlParams`
pub data ControlParams : Type 0 where
  all health task cephdeployment : ControlParams

-- The functions of other packages: `zerolog.ParseLevel` of a text in lower case, whether
-- `regexp.Compile` takes a text, the text of what `labels.Parse` reads, and Rook's
-- `GenerateNodeAffinity` and `YamlToTolerations`.
pub record Parsers (Affinity Tolerations : Type 0) : Type 0 where
  pub parse_level : String → Option ℤ
  pub regexp_compiles : String → Bool
  pub parse_selector : String → Option String
  pub generate_node_affinity : String → Option Affinity
  pub yaml_to_tolerations : String → Option Tolerations

-- `zerolog.InfoLevel`
abbrev pub info_level : ℤ
info_level = pos 1

abbrev pub default_common : CommonParams
default_common = record {
  base_gateway_name = "app-gateway";
  base_gateway_namespace = "openstack";
  disk_daemon_placement_label = "pelagia-disk-daemon=true";
  disk_daemon_port = pos 9999;
  rgw_public_access_label = "external_access=rgw";
  gateway_api_enabled = true;
  keep_ingress = false;
  lcm_full_mode = true;
}

abbrev pub default_health_config : HealthParams
default_health_config = record {
  log_level = info_level;
  checks_skip = [];
  ceph_issues_to_ignore =
      "OSDMAP_FLAGS" ∷ "TOO_FEW_PGS" ∷ "SLOW_OPS" ∷ "OLD_CRUSH_TUNABLES"
      ∷ "OLD_CRUSH_STRAW_CALC_VERSION" ∷ "POOL_APP_NOT_ENABLED" ∷ "MON_DISK_LOW" ∷ "RECENT_CRASH"
      ∷ [];
  usage_details_classes_filter = "";
  usage_details_pools_filter = "";
}

-- Half an hour.
abbrev pub default_task_config : TaskParams
default_task_config = record {
  log_level = info_level;
  osd_pg_rebalance_timeout = pos 1800000000000;
  allow_to_remove_manually_created_lvm = false;
}

module _ {Affinity Tolerations : Type 0} where
  abbrev pub default_csi : CsiDeployParams Affinity Tolerations
  default_csi = record {
    manage = true;
    kubelet_path = "/var/lib/kubelet";
    create_default_rbd_driver = true;
    create_default_ceph_fs_driver = true;
    create_default_nfs_driver = false;
    keep_existing = true;
    deploy_csi_addons = false;
    controller_plugin_node_affinity = none;
    controller_plugin_toleration = none;
    node_plugin_node_affinity = none;
    node_plugin_toleration = none;
  }

  abbrev pub default_deploy_params : DeployParams Affinity Tolerations
  default_deploy_params = record {
    log_level = info_level;
    ceph_image = "";
    ceph_release = "";
    rook_image = "";
    net_pol_enabled = false;
    openstack_ceph_shared_namespace = "";
    ceph_daemonset_placement_label_exclude = "";
    drain_request_label_key = "kaas.mirantis.com/lcm-drained";
    drain_ready_label_key = "kaas.mirantis.com/csi-drained";
    csi_params = default_csi;
    manage_volume_snapshot_classes = true;
  }

  -- `defaultLcmConfig`
  abbrev pub default_lcm_config : LcmConfiguration Affinity Tolerations
  default_lcm_config = record {
    rook_namespace = "rook-ceph";
    common_params = default_common;
    health_params = none;
    task_params = none;
    deploy_params = none;
  }
