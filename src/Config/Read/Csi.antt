-- ===== src/Config/Read/Csi.antt =====
-- The parameters of the CSI drivers.
use pelagia.Prelude.{
  ◌≡◌, ◌≢◌, refl, sym, ◌∙◌, ap, String, Bool, true, false, false≢true, Option, none, some, Assoc,
  lookup, insert, lookup-insert, has_prefix, eq_iff, ◌==◌, Bool-cases, inl, inr,
}
use pelagia.Config.Params.{
  Parsers, ControlParams, health, task, cephdeployment, all, LcmConfiguration,
}
use pelagia.Config.Read.{
  csi_managed, csi_manage, load_health_configuration, load_task_configuration,
  load_ceph_deployment_configuration, read_common, with_controlled, read_configuration,
}

-- A parameter of the drivers other than the one that manages them.
abbrev pub IsCsiParam : String → Type 0
IsCsiParam key =
    (has_prefix key "DEPLOYMENT_CSI_" ≡ true) × ((key == "DEPLOYMENT_CSI_DRIVERS_MANAGE") ≡ false)

module _ (config : Assoc String) (key value : String) where
  lookup-other :
      (other : String)
      → (key == other) ≡ false
      → lookup other (insert key value config) ≡ lookup other config
  lookup-other other h = rw (lookup-insert key other value config, h) refl

  -- A name that is not one of the drivers' is another one.
  lookup-no_csi :
      has_prefix key "DEPLOYMENT_CSI_" ≡ true
      → (other : String) → has_prefix other "DEPLOYMENT_CSI_" ≡ false
      → lookup other (insert key value config) ≡ lookup other config
  lookup-no_csi is_csi other not_csi = lookup-other other (elim (Bool-cases (key == other)) [
    | inl e ↦ absurd (
        false≢true (
          sym not_csi
          ∙ (ap (λ s. has_prefix s "DEPLOYMENT_CSI_") (sym ((eq_iff key other).0 e)) ∙ is_csi)))
    | inr e ↦ e
  ])

module _ {Affinity Tolerations : Type 0} (parsers : Parsers Affinity Tolerations)
    (config : Assoc String) (key value : String) (is_param : IsCsiParam key) where
  abbrev changed : Assoc String
  changed = insert key value config

  same :
      (other : String)
      → has_prefix other "DEPLOYMENT_CSI_" ≡ false
      → lookup other changed ≡ lookup other config
  same = lookup-no_csi config key value is_param.0

  csi_managed-same :
      (manage : Option Bool)
      → manage ≢ some true
      → csi_managed parsers changed manage ≡ csi_managed parsers config manage
  unfolding csi_managed
  csi_managed-same none h = refl
  csi_managed-same (some false) h = refl
  csi_managed-same (some true) h = absurd (h refl)

  load_health_configuration-same :
      load_health_configuration parsers changed ≡ load_health_configuration parsers config
  unfolding load_health_configuration
  load_health_configuration-same =
      rw
        (
          same "HEALTH_LOG_LEVEL" refl,
          same "HEALTH_CHECKS_SKIP" refl,
          same "HEALTH_CHECKS_CEPH_ISSUES_TO_IGNORE" refl,
          same "HEALTH_CHECKS_USAGE_CLASS_FILTER" refl,
          same "HEALTH_CHECKS_USAGE_POOLS_FILTER" refl,
        )
        refl

  load_task_configuration-same :
      load_task_configuration parsers changed ≡ load_task_configuration parsers config
  unfolding load_task_configuration
  load_task_configuration-same =
      rw
        (
          same "TASK_LOG_LEVEL" refl,
          same "TASK_OSD_PG_REBALANCE_TIMEOUT_MIN" refl,
          same "TASK_ALLOW_REMOVE_MANUALLY_CREATED_LVMS" refl,
        )
        refl

  read_common-same : read_common parsers changed ≡ read_common parsers config
  unfolding read_common
  read_common-same =
      rw
        (
          same "GATEWAY_BASE_NAME" refl,
          same "GATEWAY_BASE_NAMESPACE" refl,
          same "DISK_DAEMON_PLACEMENT_NODES_SELECTOR" refl,
          same "DISK_DAEMON_API_PORT" refl,
          same "RGW_PUBLIC_ACCESS_SERVICE_SELECTOR" refl,
          same "GATEWAY_API_ENABLED" refl,
          same "KEEP_INGRESS" refl,
          same "OSD_LCM_FULL_MODE" refl,
        )
        refl

  csi_manage-same : csi_manage parsers changed ≡ csi_manage parsers config
  csi_manage-same =
      rw (csi_manage, lookup-other config key value "DEPLOYMENT_CSI_DRIVERS_MANAGE" is_param.1) refl

  module _ (unmanaged : csi_manage parsers config ≢ some true) where
    csi_params-same :
        csi_managed parsers changed (csi_manage parsers changed)
        ≡ csi_managed parsers config (csi_manage parsers config)
    csi_params-same =
        ap (csi_managed parsers changed) csi_manage-same
        ∙ csi_managed-same (csi_manage parsers config) unmanaged

    load_ceph_deployment_configuration-same :
        load_ceph_deployment_configuration parsers changed
        ≡ load_ceph_deployment_configuration parsers config
    unfolding load_ceph_deployment_configuration
    load_ceph_deployment_configuration-same =
        rw
          (
            same "DEPLOYMENT_LOG_LEVEL" refl,
            same "DEPLOYMENT_CEPH_IMAGE" refl,
            same "DEPLOYMENT_CEPH_RELEASE" refl,
            same "DEPLOYMENT_ROOK_IMAGE" refl,
            same "DEPLOYMENT_NETPOL_ENABLED" refl,
            same "DEPLOYMENT_OPENSTACK_CEPH_SHARED_NAMESPACE" refl,
            same "DEPLOYMENT_LABEL_TO_EXCLUDE_CEPH_DAEMONSETS" refl,
            same "DEPLOYMENT_DRAIN_REQUEST_LABEL_KEY" refl,
            same "DEPLOYMENT_DRAIN_READY_LABEL_KEY" refl,
            same "DEPLOYMENT_MANAGE_VOLUMESNAPSHOTCLASSES" refl,
            csi_params-same,
          )
          refl

    with_controlled-same :
        (control : ControlParams) (c : LcmConfiguration Affinity Tolerations)
        → with_controlled parsers changed control c ≡ with_controlled parsers config control c
    unfolding with_controlled
    with_controlled-same health c = rw load_health_configuration-same refl
    with_controlled-same task c = rw load_task_configuration-same refl
    with_controlled-same cephdeployment c = rw load_ceph_deployment_configuration-same refl
    with_controlled-same all c =
        rw
          (
            load_health_configuration-same, load_task_configuration-same,
            load_ceph_deployment_configuration-same,
          )
          refl

    -- Unless the parameter that manages the drivers is there and says true, any other parameter of
    -- the drivers may be added or changed without an effect on what ReadConfiguration returns, for
    -- whichever controllers are read.
    pub read_configuration-ignores :
        (control : ControlParams)
        → read_configuration parsers changed control ≡ read_configuration parsers config control
    unfolding read_configuration
    read_configuration-ignores control =
        with_controlled-same control _
        ∙ ap (with_controlled parsers config control)
            (rw (same "ROOK_NAMESPACE" refl, read_common-same) refl)
