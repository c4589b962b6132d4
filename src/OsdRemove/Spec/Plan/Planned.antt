-- ===== src/OsdRemove/Spec/Plan/Planned.antt =====
-- spec_handler.go: the entries of the cleanup map, by the loops that write them.
use pelagia.Prelude.{
  subst, ◌&&◌, ◌≡◌, sym, ap, ◌∙◌, inl, inr, String, Bool, true, false, false≢true, Option, none,
  some, List, [], ◌∷◌, All, Assoc, insert, lookup, lookup-insert, is_empty, Bool-cases,
  Option-cases, if_ind, eq_iff, ◌==◌, if◌then◌else◌,
}
use pelagia.Task.{OsdMapping, HostMapping, NodeCleanUpSpec, no_host}
use pelagia.Common.Objects.{OsdInfo, OsdMetadataInfo}
use pelagia.Common.World.{Env, M, Log}
use pelagia.OsdRemove.Config.{TaskConfig, stray_osd_node_marker}
use pelagia.OsdRemove.Spec.Metadata.{ClusterOsds}
use pelagia.OsdRemove.Spec.Hosts.{OsdHostInfo}
use pelagia.OsdRemove.Spec.Hosts.Stored.{info_of}
use pelagia.OsdRemove.Spec.Report.{ReportOrIssues}
use pelagia.OsdRemove.Spec.Volumes.{Search}
use pelagia.OsdRemove.Spec.Context.{start_search, Gate, analysis_gate, go, refused, skip, gated}
use pelagia.OsdRemove.Spec.Discovery.{
  found_host, plan_host, plan_strays, conclude_scan, found_report, found_unasked, find_host,
  find_hosts, sorted_info, find_osds_for_clean_up,
}
use pelagia.OsdRemove.Spec.Verify.{
  asked_host, host_refusal, plan_asked, asked_unreported, unasked_refusal, conclude_clean,
  asked_report, ask_host, verify_host, verify_hosts, verify_strays, verify_osds_for_clean_up,
}

-- A host's mapping, with the OSDs that are found for it.
abbrev pub mapping_with : HostMapping → Assoc OsdMapping → Bool → HostMapping
mapping_with m osds missed = record m { osd_mapping = osds; volumes_info_missed = missed }

module _ (P : String → HostMapping → Type 0) where
  abbrev pub Holds : Assoc HostMapping → Type 0
  Holds cleanup = (host : String) (m : HostMapping) → lookup host cleanup ≡ some m → P host m

  abbrev Planned : Search → Type 0
  Planned s = Holds s.info.cleanup_map

  insert-Holds :
      (name : String) (new : HostMapping) (cleanup : Assoc HostMapping)
      → P name new
      → Holds cleanup
      → Holds (insert name new cleanup)
  insert-Holds name new cleanup p h host m e = elim (Bool-cases (name == host)) [
    | inl same ↦
        subst (λ x. P x m) ((eq_iff name host).0 same)
          (subst (P name)
            (own (ap (λ b. if b then some new else lookup host cleanup) (sym same) ∙ there)) p)
    | inr other ↦
        h host m (ap (λ b. if b then some new else lookup host cleanup) (sym other) ∙ there)
  ]
    where
      there : (if name == host then some new else lookup host cleanup) ≡ some m
      there = sym (lookup-insert name host new cleanup) ∙ e

      own : some new ≡ some m → new ≡ m
      own e = ap (λ o. elim o [ none ↦ new | some x ↦ x ]) e

  nothing : Holds []
  unfolding lookup
  nothing host m e = absurd (false≢true (ap (λ o. elim o [ none ↦ false | some _ ↦ true ]) e))

  abbrev pub Plans : M Search → Type 0
  Plans m = (log : Log) → Planned (m log).0

  branch-Plans : (b : Bool) (m n : M Search) → Plans m → Plans n → Plans (if b then m else n)
  branch-Plans true m n x y = x
  branch-Plans false m n x y = y

  gated-Plans :
      (gate : Gate) (s : Search) (run : M Search) → Planned s → Plans run → Plans (gated gate s run)
  gated-Plans go s run h r log = r log
  gated-Plans (refused text) s run h r log = h
  gated-Plans (skip text) s run h r log = h

  -- What P asks of a host that is found.
  abbrev pub Finds : String → OsdHostInfo → Type 0
  Finds host h =
      (osds : Assoc OsdMapping) (missed : Bool) → P host (mapping_with (found_host h) osds missed)

  -- What P asks of a host that the task names and that is not refused.
  abbrev pub Asks : String → OsdHostInfo → NodeCleanUpSpec → Type 0
  Asks host h n =
      host_refusal host h n ≡ none
      → (osds : Assoc OsdMapping) (missed : Bool)
      → P host (mapping_with (asked_host h n) osds missed)

  module _ (env : Env) (c : TaskConfig) (k : ClusterOsds) where
    plan_host-Planned :
        (host : String) (h : OsdHostInfo) (m : HostMapping) (s : Search)
        → P host m
        → Planned s
        → Planned (plan_host host h m s)
    unfolding plan_host
    plan_host-Planned host h m s p q = if_ind Planned _ (insert-Holds host m _ p q) q

    found_report-Planned :
        (host : String) (h : OsdHostInfo) (r : ReportOrIssues) (s : Search)
        → Finds host h
        → Planned s
        → Planned (found_report env c k host h r s)
    unfolding found_report conclude_scan
    found_report-Planned host h (none, issues) s p q = q
    found_report-Planned host h (some report, issues) s p q = plan_host-Planned host h _ _ (p _ _) q

    found_unasked-Planned :
        (host : String) (h : OsdHostInfo) (s : Search)
        → Finds host h
        → Planned s
        → Planned (found_unasked env c k host h s)
    unfolding found_unasked
    found_unasked-Planned host h s p q = if_ind Planned h.in_spec q (
        if_ind Planned h.in_crush (plan_host-Planned host h _ _ (p _ _) q)
          (plan_host-Planned host h _ _ (p _ _) q))

    find_host-Plans :
        (host : String) (h : OsdHostInfo) (s : Search)
        → Finds host h
        → Planned s
        → Plans (find_host env c k host h s)
    unfolding find_host
    find_host-Plans host h s p q =
        branch-Plans (h.available && h.labeled) _ _
          (gated-Plans (if h.in_spec then analysis_gate c.spec_analysis host else go) s _ q
            (λ log. found_report-Planned host h _ s p q))
          (λ log. found_unasked-Planned host h s p q)

    find_hosts-Plans :
        (hosts : Assoc OsdHostInfo) (s : Search)
        → All (λ e. Finds e.0 e.1) hosts
        → Planned s
        → Plans (find_hosts env c k hosts s)
    unfolding find_hosts
    find_hosts-Plans [] s p q log = q
    find_hosts-Plans ((host, h) ∷ more) s (p, ps) q log =
        find_hosts-Plans more _ ps (find_host-Plans host h s p q log) _

    asked_unreported-Planned :
        (host : String) (h : OsdHostInfo) (n : NodeCleanUpSpec) (s : Search)
        → ((osds : Assoc OsdMapping) (missed : Bool)
            → P host (mapping_with (asked_host h n) osds missed))
        → Planned s
        → Planned (asked_unreported k host h n s)
    unfolding asked_unreported plan_asked
    asked_unreported-Planned host h n s p q = elim (Option-cases (unasked_refusal host h n)) [
      | inl e ↦ rw (asked_unreported, e) (if_ind Planned _ (insert-Holds host _ _ (p _ _) q) q)
      | inr (w, e) ↦ rw (asked_unreported, e) q
    ]

    asked_report-Planned :
        (host : String) (h : OsdHostInfo) (n : NodeCleanUpSpec) (r : ReportOrIssues) (s : Search)
        → ((osds : Assoc OsdMapping) (missed : Bool)
            → P host (mapping_with (asked_host h n) osds missed))
        → Planned s
        → Planned (asked_report env c k host h n r s)
    unfolding asked_report conclude_clean
    asked_report-Planned host h n (none, issues) s p q = q
    asked_report-Planned host h n (some report, issues) s p q =
        if_ind Planned _ q (insert-Holds host _ _ (p _ _) q)

    ask_host-Plans :
        (host : String) (h : OsdHostInfo) (n : NodeCleanUpSpec) (s : Search)
        → Asks host h n
        → Planned s
        → Plans (ask_host env c k host h n s)
    unfolding ask_host
    ask_host-Plans host h n s p q log = elim (Option-cases (host_refusal host h n)) [
      | inl e ↦
          rw (ask_host, e)
            (branch-Plans (h.available && h.labeled) _ _
              (λ l. asked_report-Planned host h n _ s (p e) q)
              (λ l. asked_unreported-Planned host h n s (p e) q) log)
      | inr (w, e) ↦ rw (ask_host, e) q
    ]

    verify_hosts-Plans :
        (hosts : Assoc OsdHostInfo) (nodes : Assoc NodeCleanUpSpec) (s : Search)
        → All (λ e. Asks e.0 (info_of e.0 hosts) e.1) nodes
        → Planned s
        → Plans (verify_hosts env c k hosts nodes s)
    unfolding verify_hosts verify_host
    verify_hosts-Plans hosts [] s p q log = q
    verify_hosts-Plans hosts ((host, n) ∷ more) s (p, ps) q log =
        verify_hosts-Plans hosts more _ ps
          (branch-Plans (host == stray_osd_node_marker) _ _ (λ l. q)
            (gated-Plans _ s _ q (ask_host-Plans host (info_of host hosts) n s p q)) log)
          _

  -- What P asks of the entry for strays.
  abbrev pub Strays : Type 0
  Strays = (osds : Assoc OsdMapping) → P stray_osd_node_marker (mapping_with no_host osds false)

  plan_strays-Planned :
      (k : ClusterOsds) (s : Search) → Strays → Planned s → Planned (plan_strays k s)
  unfolding plan_strays
  plan_strays-Planned k s p q =
      if_ind Planned (is_empty s.strays) q (insert-Holds stray_osd_node_marker _ _ (p _) q)

  verify_strays-Planned :
      (k : ClusterOsds) (n : Option NodeCleanUpSpec) (s : Search)
      → Strays
      → Planned s
      → Planned (verify_strays k n s)
  unfolding verify_strays
  verify_strays-Planned k none s p q = q
  verify_strays-Planned k (some n) s p q =
      if_ind Planned (is_empty n.cleanup_by_osd) q
        (if_ind Planned _ q (insert-Holds stray_osd_node_marker _ _ (p _) q))

  module _ (env : Env) (c : TaskConfig) (metadata : List OsdMetadataInfo) (infos : List OsdInfo)
      (strays : Strays) where
    pub find_osds_for_clean_up-Holds :
        (hosts : Assoc OsdHostInfo) (log : Log)
        → All (λ e. Finds e.0 e.1) hosts
        → Holds (find_osds_for_clean_up env c hosts metadata infos log).0.cleanup_map
    unfolding find_osds_for_clean_up sorted_info start_search
    find_osds_for_clean_up-Holds hosts log p =
        plan_strays-Planned _ _ strays
          (find_hosts-Plans env c _ hosts (start_search metadata) p nothing log)

    pub verify_osds_for_clean_up-Holds :
        (nodes : Assoc NodeCleanUpSpec) (hosts : Assoc OsdHostInfo) (log : Log)
        → All (λ e. Asks e.0 (info_of e.0 hosts) e.1) nodes
        → Holds (verify_osds_for_clean_up env c nodes hosts metadata infos log).0.cleanup_map
    unfolding verify_osds_for_clean_up sorted_info start_search
    verify_osds_for_clean_up-Holds nodes hosts log p =
        verify_strays-Planned _ _ _ strays
          (verify_hosts-Plans env c _ hosts nodes (start_search metadata) p nothing log)
