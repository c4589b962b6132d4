-- ===== src/Config/Read.antt =====
-- The loading of the parameters by pkg/controller/config/config.go.
pub mod Csi
use pelagia.Prelude.{
  String, Bool, true, false, Option, none, some, List, Assoc, split, lookup, if◌then◌else◌,
}
use pelagia.Prelude.Numbers.{ℤ}
use pelagia.Config.Params.{
  CommonParams, HealthParams, TaskParams, CsiDeployParams, DeployParams, LcmConfiguration,
  ControlParams, health, task, cephdeployment, all, Parsers, default_common, default_health_config,
  default_task_config, default_csi, default_deploy_params, default_lcm_config,
}
use pelagia.Config.Values.{
  parse_bool, trim_newline, parse_integer, to_int32, minutes, set_value, set_parsed,
}

abbrev list_of : String → Option (List String)
list_of s = some (split b',' s)

-- What a parser of a pointer or a list returns is set if there is no error.
abbrev pointed {ℓ} : {A : Type ℓ} → Option A → Option (Option A)
pointed none = none
pointed (some a) = some (some a)

abbrev mapped : (ℤ → ℤ) → Option ℤ → Option ℤ
mapped f none = none
mapped f (some n) = some (f n)

abbrev trimmed_bool : String → Option Bool
trimmed_bool s = parse_bool (trim_newline s)

module _ {Affinity Tolerations : Type 0} (parsers : Parsers Affinity Tolerations)
    (config : Assoc String) where
  abbrev regexp_of : String → Option String
  regexp_of s = if parsers.regexp_compiles s then some s else none

  abbrev set_bool : String → Bool → Bool
  set_bool key kept = set_parsed config parse_bool key kept

  -- `loadHealthConfiguration`
  unfoldable pub load_health_configuration : HealthParams
  load_health_configuration =
      let d = default_health_config in
      record {
        log_level = set_parsed config parsers.parse_level "HEALTH_LOG_LEVEL" d.log_level;
        checks_skip = set_parsed config list_of "HEALTH_CHECKS_SKIP" d.checks_skip;
        ceph_issues_to_ignore =
            set_parsed config list_of "HEALTH_CHECKS_CEPH_ISSUES_TO_IGNORE" d.ceph_issues_to_ignore;
        usage_details_classes_filter =
            set_parsed config regexp_of "HEALTH_CHECKS_USAGE_CLASS_FILTER"
              d.usage_details_classes_filter;
        usage_details_pools_filter =
            set_parsed config regexp_of "HEALTH_CHECKS_USAGE_POOLS_FILTER"
              d.usage_details_pools_filter;
      }

  -- `loadTaskConfiguration`
  unfoldable pub load_task_configuration : TaskParams
  load_task_configuration =
      let d = default_task_config in
      record {
        log_level = set_parsed config parsers.parse_level "TASK_LOG_LEVEL" d.log_level;
        osd_pg_rebalance_timeout =
            set_parsed config (λ s. mapped minutes (parse_integer s))
              "TASK_OSD_PG_REBALANCE_TIMEOUT_MIN" d.osd_pg_rebalance_timeout;
        allow_to_remove_manually_created_lvm =
            set_parsed config trimmed_bool "TASK_ALLOW_REMOVE_MANUALLY_CREATED_LVMS"
              d.allow_to_remove_manually_created_lvm;
      }

  -- The parameters under `if val`, with what was set before.
  unfoldable pub load_managed_csi : CsiDeployParams Affinity Tolerations
  load_managed_csi =
      let d : CsiDeployParams Affinity Tolerations = default_csi in
      record {
        manage = true;
        kubelet_path = set_value config "DEPLOYMENT_CSI_KUBELET_PATH" d.kubelet_path;
        create_default_rbd_driver =
            set_bool "DEPLOYMENT_CSI_RBD_DEFAULT_DRIVER_CREATE" d.create_default_rbd_driver;
        create_default_ceph_fs_driver =
            set_bool "DEPLOYMENT_CSI_CEPHFS_DEFAULT_DRIVER_CREATE" d.create_default_ceph_fs_driver;
        create_default_nfs_driver =
            set_bool "DEPLOYMENT_CSI_NFS_DEFAULT_DRIVER_CREATE" d.create_default_nfs_driver;
        keep_existing = set_bool "DEPLOYMENT_CSI_KEEP_EXISTING_ON_UPGRADE" d.keep_existing;
        deploy_csi_addons = set_bool "DEPLOYMENT_CSI_ENABLE_CSIADDONS" d.deploy_csi_addons;
        controller_plugin_node_affinity =
            set_parsed config (λ s. pointed (parsers.generate_node_affinity s))
              "DEPLOYMENT_CSI_CONTROLLER_PLUGIN_NODEAFFINITY" d.controller_plugin_node_affinity;
        controller_plugin_toleration =
            set_parsed config (λ s. pointed (parsers.yaml_to_tolerations s))
              "DEPLOYMENT_CSI_CONTROLLER_PLUGIN_TOLERATIONS" d.controller_plugin_toleration;
        node_plugin_node_affinity =
            set_parsed config (λ s. pointed (parsers.generate_node_affinity s))
              "DEPLOYMENT_CSI_NODE_PLUGIN_NODEAFFINITY" d.node_plugin_node_affinity;
        node_plugin_toleration =
            set_parsed config (λ s. pointed (parsers.yaml_to_tolerations s))
              "DEPLOYMENT_CSI_NODE_PLUGIN_TOLERATIONS" d.node_plugin_toleration;
      }

  -- What the value of the parameter that manages the drivers makes of them: a value that is missing
  -- or that does not parse leaves all as it was.
  unfoldable pub csi_managed : Option Bool → CsiDeployParams Affinity Tolerations
  unfolding load_managed_csi
  csi_managed none = default_csi
  csi_managed (some false) = record default_csi { manage = false }
  csi_managed (some true) = load_managed_csi

  abbrev pub csi_manage : Option Bool
  csi_manage = elim (lookup "DEPLOYMENT_CSI_DRIVERS_MANAGE" config) [
    | none ↦ none
    | some s ↦ parse_bool s
  ]

  -- `loadCephDeploymentConfiguration`
  unfoldable pub load_ceph_deployment_configuration : DeployParams Affinity Tolerations
  unfolding csi_managed
  load_ceph_deployment_configuration =
      let d : DeployParams Affinity Tolerations = default_deploy_params in
      record {
        log_level = set_parsed config parsers.parse_level "DEPLOYMENT_LOG_LEVEL" d.log_level;
        ceph_image = set_value config "DEPLOYMENT_CEPH_IMAGE" d.ceph_image;
        ceph_release = set_value config "DEPLOYMENT_CEPH_RELEASE" d.ceph_release;
        rook_image = set_value config "DEPLOYMENT_ROOK_IMAGE" d.rook_image;
        net_pol_enabled = set_bool "DEPLOYMENT_NETPOL_ENABLED" d.net_pol_enabled;
        openstack_ceph_shared_namespace =
            set_value config "DEPLOYMENT_OPENSTACK_CEPH_SHARED_NAMESPACE"
              d.openstack_ceph_shared_namespace;
        ceph_daemonset_placement_label_exclude =
            set_parsed config parsers.parse_selector "DEPLOYMENT_LABEL_TO_EXCLUDE_CEPH_DAEMONSETS"
              d.ceph_daemonset_placement_label_exclude;
        drain_request_label_key =
            set_value config "DEPLOYMENT_DRAIN_REQUEST_LABEL_KEY" d.drain_request_label_key;
        drain_ready_label_key =
            set_value config "DEPLOYMENT_DRAIN_READY_LABEL_KEY" d.drain_ready_label_key;
        csi_params = csi_managed csi_manage;
        manage_volume_snapshot_classes =
            set_bool "DEPLOYMENT_MANAGE_VOLUMESNAPSHOTCLASSES" d.manage_volume_snapshot_classes;
      }

  unfoldable pub read_common : CommonParams
  read_common =
      let d = default_common in
      record {
        base_gateway_name = set_value config "GATEWAY_BASE_NAME" d.base_gateway_name;
        base_gateway_namespace = set_value config "GATEWAY_BASE_NAMESPACE" d.base_gateway_namespace;
        disk_daemon_placement_label =
            set_parsed config parsers.parse_selector "DISK_DAEMON_PLACEMENT_NODES_SELECTOR"
              d.disk_daemon_placement_label;
        disk_daemon_port =
            set_parsed config (λ s. mapped to_int32 (parse_integer s)) "DISK_DAEMON_API_PORT"
              d.disk_daemon_port;
        rgw_public_access_label =
            set_parsed config parsers.parse_selector "RGW_PUBLIC_ACCESS_SERVICE_SELECTOR"
              d.rgw_public_access_label;
        gateway_api_enabled = set_bool "GATEWAY_API_ENABLED" d.gateway_api_enabled;
        keep_ingress = set_bool "KEEP_INGRESS" d.keep_ingress;
        lcm_full_mode = set_bool "OSD_LCM_FULL_MODE" d.lcm_full_mode;
      }

  -- The parameters of the controllers that are asked for.
  unfoldable pub with_controlled :
      ControlParams → LcmConfiguration Affinity Tolerations → LcmConfiguration Affinity Tolerations
  unfolding load_health_configuration load_task_configuration load_ceph_deployment_configuration
  with_controlled health c = record c { health_params = some load_health_configuration }
  with_controlled task c = record c { task_params = some load_task_configuration }
  with_controlled cephdeployment c = record c {
    deploy_params = some load_ceph_deployment_configuration;
  }
  with_controlled all c = record c {
    health_params = some load_health_configuration;
    task_params = some load_task_configuration;
    deploy_params = some load_ceph_deployment_configuration;
  }

  -- `ReadConfiguration`
  unfoldable pub read_configuration : ControlParams → LcmConfiguration Affinity Tolerations
  unfolding read_common with_controlled
  read_configuration control =
      let d : LcmConfiguration Affinity Tolerations = default_lcm_config in
      with_controlled control (record d {
        rook_namespace = set_value config "ROOK_NAMESPACE" d.rook_namespace;
        common_params = read_common;
      })
