-- ===== src/Lib.antt =====
-- Verification of the OSD removal, the OSD analysis and the disk daemon of Pelagia, the lifecycle manager of Rook Ceph clusters.
--
-- A CephOsdRemoveTask asks for OSDs to be taken out of a cluster. The task controller
-- (pkg/controller/osdremove-task) validates the task, waits for the user's approval and for the
-- Rook operator to be stopped, and then takes the OSDs out one after another: it lowers the weight
-- of an OSD, waits until its placement groups have moved, purges it, runs a job that cleans its
-- disks, and removes its deployment. Each call of Reconcile makes one step and writes the new status
-- of the task, from which the next call goes on.
--
-- Files and what they model:
--   Prelude and Prelude/: shared tests, lists, texts and maps. A Go map with text keys is an
--     association list, and a range over the map runs along the list.
--   Task, Task/Job: the CephOsdRemoveTask resource (pkg/apis/ceph.pelagia.lcm/v1alpha1/
--     task_types.go) and the disk cleanup job.
--   Common/Objects: what is read of other resources and of Ceph's answers (pkg/common/ceph_types.go).
--   Common/World: the environment. Every request to Ceph or Kubernetes (RunCephToolboxCLI,
--     ScaleDeployment, GetNodeList, the client calls) adds an entry to a log, and its reply is an
--     arbitrary function of the log, so that a theorem about all environments covers every
--     interleaving of the controller with the cluster, failures included.
--   Common/Retry: RunFuncWithRetry (pkg/common/general_utils.go).
--   Common/Tree: FindDiskName (pkg/common/lcm_utils.go), on fuel. Common/Version: version.go.
--   OsdRemove/Config, Phase, Processer, Controller: task_types.go, phase.go, processer.go and
--     controller.go of pkg/controller/osdremove-task. handle_task is handleTask, reconcile is
--     Reconcile; the requeue flag of the pass is returned beside the new status.
--     Processer/Written is what Reconcile does to a stored status besides handleTask; the theorems on
--     the history of a task run over calls of both kinds.
--   OsdRemove/Steps, Rebalance: the removal steps and the waits of executor.go, with utils.go.
--   OsdRemove/Jobs/Build: cleanup_job.go; OsdRemove/Jobs/Run: getJobData and handleJobRun.
--   OsdRemove/Process/Collect, Finished, Pass: processOsdRemoveTask, by its loops.
--   Common/Disks: the reports of the disk daemon (pkg/common/disk_daemon_types.go) and the helpers of
--     lcm_utils.go and k8s_utils.go that read them.
--   OsdRemove/Spec: spec_handler.go, which plans what a task removes. Hosts and Plan are
--     getOsdsForCleanup; Find and Discovery are findOsdsForCleanUp, for a task that names no hosts;
--     Complete, ByOsd, ByDevice and Verify are verifyOsdsForCleanUp; Volumes and Context are what both
--     share; Devices is inSpec and the devices of a volume, Zap is checkDeviceZapping; Metadata is helpers.go;
--     Report is the part of utils.go that asks the disk daemons.
--   Config: config.go and controller.go of pkg/controller/config, the parameters that all controllers
--     read: Params has the records and defaults, Values what a text sets, Read the loaders, and Store
--     the configurations by namespace.
--   DiskDaemon: pkg/disk-daemon, the program that reports the disks and the OSDs of a node. Devices is
--     processLsblkInfo with loopOverDevices, Mapping is diskToOsdMap, Osds and Report are checkOsds,
--     Pass is checkDisks and prepareReport, Equal is reflect.DeepEqual at these types, and Volumes has
--     the types of utils.go. What the commands print is parsed: it is an answer of the model.
--   Health: spec_osd_verification.go of pkg/controller/health, the analysis of the OSDs against the
--     spec, whose result the task controller asks for before it plans. Osds is getOsdClusterDetails;
--     Analysis/Devices, Usage, Extra and Run are runSpecAnalysis by its parts; Node is
--     getNodeAnalyseStatus; Threads is prepareSpecAnalysis, with its threads as moves that a schedule
--     puts in an order; Status is getSpecAnalysisStatus, with what prepareSpecAnalysis returns as a
--     parameter. Refusal is about both controllers.
--   The modules below these state and prove what holds of them; the modules named Samples have concrete tasks, nodes and environments.
--
-- Numbers: integers that the source parses are signed, with the bounds of 64 bits. The timeout of
-- the rebalance is a signed duration. Points of time and counts are natural numbers. The source
-- subtracts times before it compares them; the model compares sums. A port is cut to 32 bits and
-- a timeout to 64, as the source does. Loops are recursions over the list of their range. The
-- retry loop recurses on the number of tries left, of which there is at least one, and
-- FindDiskName on fuel, of which the theorem on its end says how much is enough; findDisks has
-- fuel for the same reason, and a pass of the disk daemon has no result if either has not ended;
-- numbers are printed with up to twenty digits, enough for every 64-bit number, and ReplaceAll
-- has as many rounds as the text has characters.
--
-- Parameters: the replies of the environment, the clock and its text form, json.Unmarshal, the
-- truncation of names by Rook, its parsers of affinities and tolerations, zerolog's levels, the regular expressions and label selectors of specs, and
-- strings.EqualFold.
--
-- The maps of the spec handler are values; where the source shares one map between two entries, the
-- comment of the module says so. The device lists that slices.Compact changes in place are results
-- of checkOsds.
--
-- Not modelled: log messages, the text of the bash templates (represented by the template and its
-- values), the shell commands of the disk daemon and its API, the rest of the health controller,
-- the other controllers (deployment, infra, secret), the connector and the generated clients.
pub mod Prelude
pub mod Common
pub mod Task
pub mod Config
pub mod DiskDaemon
pub mod Health
pub mod OsdRemove
