-- ===== src/OsdRemove/Processer/Changes.antt =====
-- What the guards of `handleTask` say of the spec, the cluster and the CephDeployment.
use mathlib.Core.Bool.{decide, decide_iff}
use pelagia.Prelude.{
  false≢true, ℕ, ◌≡◌, refl, sym, ap, ◌∙◌, String, Bool, true, false, ◌&&◌, Option, none, some, ◌++◌,
  arith, is_empty, nat_eq,
}
use pelagia.Task.{Nodes-discrete, TaskCondition}
use pelagia.OsdRemove.Config.{TaskConfig}
use pelagia.OsdRemove.Phase.{spec_nodes}
use pelagia.OsdRemove.Processer.{spec_changes, is_held, generation_of, is_generation, unless}

-- Nodes and CephCluster are as they were when the latest condition was written.
pub record IsUnchanged (c : TaskConfig) (latest : TaskCondition) : Type 0 where
  pub same_nodes : latest.nodes ≡ spec_nodes c.task.spec
  pub same_generation :
      generation_of latest.ceph_cluster_spec_version ≡ some c.ceph_cluster.generation

-- A CephDeployment, if there is one, is on hold, and the OSD analysis is about the current spec.
pub record IsReady (c : TaskConfig) : Type 0 where
  pub held : is_held c.ceph_deployment_phase ≡ true
  pub analysed : c.validated_generation ≡ c.ceph_cluster.generation

is_empty-unless : (a b : Bool) (s t : String) → is_empty (unless a s ++ unless b t) ≡ (a && b)
is_empty-unless true true s t = refl
is_empty-unless true false s t = refl
is_empty-unless false b s t = refl

is_generation-some : (n : ℕ) (m : Option ℕ) → is_generation n m ≡ true → m ≡ some n
is_generation-some n none e = absurd (false≢true e)
is_generation-some n (some m) e = ap some (ground arith)

is_generation-same : (n : ℕ) (m : Option ℕ) → m ≡ some n → is_generation n m ≡ true
is_generation-same n none e = cc
is_generation-same n (some m) e = ground arith

and-true : (a b : Bool) → (a && b) ≡ true → (a ≡ true) × (b ≡ true)
and-true true b e = (refl, e)
and-true false b e = absurd (false≢true e)

-- `specChanges` reports a change exactly when there is one.
pub spec_changes-IsUnchanged :
    (c : TaskConfig) (latest : TaskCondition)
    → is_empty (spec_changes c latest) ≡ true
    → IsUnchanged c latest
unfolding spec_changes
spec_changes-IsUnchanged c latest e =
    let both =
      and-true
        (is_generation c.ceph_cluster.generation (generation_of latest.ceph_cluster_spec_version))
        (decide (Nodes-discrete latest.nodes (spec_nodes c.task.spec)))
        (sym (is_empty-unless _ _ _ _) ∙ e) in
    record {
      same_nodes = (decide_iff (Nodes-discrete _ _)).0 both.1;
      same_generation = is_generation-some _ _ both.0;
    }

pub spec_changes-not-IsUnchanged :
    (c : TaskConfig) (latest : TaskCondition)
    → is_empty (spec_changes c latest) ≡ false
    → ¬ IsUnchanged c latest
unfolding spec_changes
spec_changes-not-IsUnchanged c latest e u =
    let same_generation =
      is_generation-same c.ceph_cluster.generation (generation_of latest.ceph_cluster_spec_version)
        u.same_generation in
    let same_nodes =
      (decide_iff (Nodes-discrete latest.nodes (spec_nodes c.task.spec))).1 u.same_nodes in
    false≢true (sym e ∙ is_empty-unless _ _ _ _ ∙ rw same_generation same_nodes)

pub held-IsReady :
    (c : TaskConfig)
    → (is_held c.ceph_deployment_phase && nat_eq c.validated_generation c.ceph_cluster.generation)
      ≡ true
    → IsReady c
held-IsReady c e = ground arith
