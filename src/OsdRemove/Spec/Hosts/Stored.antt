-- ===== src/OsdRemove/Spec/Hosts/Stored.antt =====
-- getOsdsForCleanup of spec_handler.go: the hosts that the CephCluster names are marked as such.
use pelagia.Prelude.{
  ℕ, suc, ◌≡◌, ◌≢◌, refl, sym, ◌∙◌, inl, inr, String, Bool, true, false, false≢true, List, [], ◌∷◌,
  any, Assoc, insert, lookup_or, IsMap, insert-IsMap, lookup_or-insert, Bool-cases, if_ind, eq_iff,
  arith, ◌==◌,
}
use pelagia.Task.{NodeCleanUpSpec}
use pelagia.Common.Objects.{StorageNode, Node}
use pelagia.OsdRemove.Spec.Hosts.{
  OsdHostInfo, no_host_info, pick_host, add_crush_hosts, add_spec_hosts, add_k8s_hosts, hosts_of,
}

-- The CephCluster names the host.
abbrev pub is_stored : String → List StorageNode → Bool
is_stored host storage = any (λ (node : StorageNode). node.name == host) storage

-- What the hosts tell of one.
abbrev pub info_of : String → Assoc OsdHostInfo → OsdHostInfo
info_of host hosts = lookup_or no_host_info host hosts

module _ (nodes : Assoc NodeCleanUpSpec) where
  crush-IsMap :
      (crush : Assoc (List ℕ)) (hosts : Assoc OsdHostInfo)
      → IsMap hosts
      → IsMap (add_crush_hosts nodes crush hosts)
  unfolding add_crush_hosts
  crush-IsMap [] hosts h = h
  crush-IsMap ((name, osds) ∷ more) hosts h =
      crush-IsMap more _ (if_ind IsMap (pick_host nodes name) (insert-IsMap name _ hosts h) h)

  spec-IsMap :
      (idx : ℕ) (storage : List StorageNode) (hosts : Assoc OsdHostInfo)
      → IsMap hosts
      → IsMap (add_spec_hosts nodes idx storage hosts)
  unfolding add_spec_hosts
  spec-IsMap idx [] hosts h = h
  spec-IsMap idx (node ∷ more) hosts h =
      spec-IsMap (suc idx) more _
        (if_ind IsMap (pick_host nodes node.name) (insert-IsMap node.name _ hosts h) h)

  module _ (host : String) where
    abbrev IsMarked : Assoc OsdHostInfo → Type 0
    IsMarked hosts = (info_of host hosts).in_spec ≡ true

    -- A host that is marked stays so when another entry is written, or its own with the mark.
    insert-IsMarked :
        (name : String) (info : OsdHostInfo) (hosts : Assoc OsdHostInfo)
        → (name ≡ host → info.in_spec ≡ true)
        → (name ≢ host → IsMarked hosts)
        → IsMarked (insert name info hosts)
    insert-IsMarked name info hosts own h = elim (Bool-cases (name == host)) [
      | inl e ↦
          rw (lookup_or-insert no_host_info name host info hosts, e) (own ((eq_iff name host).0 e))
      | inr e ↦ rw (lookup_or-insert no_host_info name host info hosts, e) (h (differ e))
    ]
      where
        differ : (name == host) ≡ false → name ≢ host
        differ e same = false≢true (sym e ∙ (eq_iff name host).1 same)

    spec-keeps :
        (idx : ℕ) (storage : List StorageNode) (hosts : Assoc OsdHostInfo)
        → IsMarked hosts
        → IsMarked (add_spec_hosts nodes idx storage hosts)
    unfolding add_spec_hosts
    spec-keeps idx [] hosts h = h
    spec-keeps idx (node ∷ more) hosts h = spec-keeps (suc idx) more _ (
        if_ind IsMarked (pick_host nodes node.name)
          (insert-IsMarked node.name _ hosts (λ _. refl) (λ _. h)) h)

    spec-marks :
        (idx : ℕ) (storage : List StorageNode) (hosts : Assoc OsdHostInfo)
        → pick_host nodes host ≡ true
        → is_stored host storage ≡ true
        → IsMarked (add_spec_hosts nodes idx storage hosts)
    unfolding add_spec_hosts
    spec-marks idx [] hosts picked h = absurd (false≢true h)
    spec-marks idx (node ∷ more) hosts picked h = elim (Bool-cases (node.name == host)) [
      | inl e ↦ spec-keeps (suc idx) more _ (
          rw ((eq_iff node.name host).0 e, picked)
            (insert-IsMarked host _ hosts (λ _. refl) (λ n. absurd (n refl))))
      | inr e ↦ spec-marks (suc idx) more _ picked (tail e h)
    ]
      where
        tail :
            (node.name == host) ≡ false
            → is_stored host (node ∷ more) ≡ true
            → is_stored host more ≡ true
        tail e h = ground arith

module _ (nodes : Assoc NodeCleanUpSpec) (matches : String → List (String × String) → Bool)
    (label : String) where
  k8s-IsMap :
      (k8s : List Node) (hosts : Assoc OsdHostInfo)
      → IsMap hosts
      → IsMap (add_k8s_hosts nodes matches label k8s hosts)
  unfolding add_k8s_hosts
  k8s-IsMap [] hosts h = h
  k8s-IsMap (node ∷ more) hosts h =
      k8s-IsMap more _ (if_ind IsMap _ (insert-IsMap node.name _ hosts h) h)

  module _ (host : String) where
    k8s-keeps :
        (k8s : List Node) (hosts : Assoc OsdHostInfo)
        → IsMarked nodes host hosts
        → IsMarked nodes host (add_k8s_hosts nodes matches label k8s hosts)
    unfolding add_k8s_hosts
    k8s-keeps [] hosts h = h
    k8s-keeps (node ∷ more) hosts h = k8s-keeps more _ (
        if_ind (IsMarked nodes host) _
          (insert-IsMarked nodes host node.name _ hosts (λ e. rw e h) (λ _. h)) h)

  pub hosts_of-IsMap :
      (crush : Assoc (List ℕ)) (storage : List StorageNode) (k8s : List Node)
      → IsMap (hosts_of nodes matches label crush storage k8s)
  unfolding hosts_of
  hosts_of-IsMap crush storage k8s =
      k8s-IsMap k8s _ (spec-IsMap nodes 0 storage _ (crush-IsMap nodes crush [] tt))

  -- A host that the CephCluster names, and that the task is about, is marked.
  pub hosts_of-stored :
      (host : String) (crush : Assoc (List ℕ)) (storage : List StorageNode) (k8s : List Node)
      → pick_host nodes host ≡ true
      → is_stored host storage ≡ true
      → (info_of host (hosts_of nodes matches label crush storage k8s)).in_spec ≡ true
  unfolding hosts_of
  hosts_of-stored host crush storage k8s picked h =
      k8s-keeps host k8s _ (spec-marks nodes host 0 storage _ picked h)
