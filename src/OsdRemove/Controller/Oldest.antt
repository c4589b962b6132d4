-- ===== src/OsdRemove/Controller/Oldest.antt =====
-- `getOldestCephOsdRemoveTaskName` of controller.go: whose turn it is.
use pelagia.Prelude.{
  subst, ◌++◌, ◌≤◌, ◌≡◌, ◌∙◌, sym, inl, inr, true, Option, none, some, List, [], ◌∷◌, ltb, arith,
  All, Bool-cases, false≢true,
}
use mathlib.Core.List.{
  append-nil, append_assoc, Mem, mem-append_left, mem-append_right, mem-cons_self,
}
use pelagia.Task.{OsdRemoveTask}
use pelagia.OsdRemove.Controller.{check_task_active, choose, oldest_from}

abbrev pub IsActive : OsdRemoveTask → Type 0
IsActive t = check_task_active t.status ≡ true

-- The task is not younger than any active one of the list.
abbrev pub Precedes : OsdRemoveTask → List OsdRemoveTask → Type 0
Precedes t = All (λ u. IsActive u → t.created ≤ u.created)

-- What the loop knows of its candidate after the tasks it has seen.
pub data Found (seen : List OsdRemoveTask) : Option OsdRemoveTask → Type 0 where
  nobody : All (λ u. ¬ IsActive u) seen → Found seen none
  oldest : (t : OsdRemoveTask) → Mem t seen → IsActive t → Precedes t seen → Found seen (some t)

module _ {κ} (P : OsdRemoveTask → Type κ) where
  All-snoc : (us : List OsdRemoveTask) (u : OsdRemoveTask) → All P us → P u → All P (us ++ u ∷ [])
  All-snoc [] u _ p = (p, tt)
  All-snoc (v ∷ us) u (q, qs) p = (q, All-snoc us u qs p)

Precedes-trans :
    (t u : OsdRemoveTask) (us : List OsdRemoveTask)
    → t.created ≤ u.created
    → Precedes u us
    → Precedes t us
Precedes-trans t u [] le p = tt
Precedes-trans t u (v ∷ us) le (q, qs) =
    (λ active. omega (arith, le, q active), Precedes-trans t u us le qs)

unless_active :
    (t : OsdRemoveTask) (us : List OsdRemoveTask) → All (λ u. ¬ IsActive u) us → Precedes t us
unless_active t [] _ = tt
unless_active t (u ∷ us) (n, ns) = (λ active. absurd (n active), unless_active t us ns)

choose-Found :
    (seen : List OsdRemoveTask) (best : Option OsdRemoveTask) (u : OsdRemoveTask)
    → Found seen best
    → Found (seen ++ u ∷ []) (choose best u)
unfolding choose
choose-Found seen none u (nobody ns) = elim (Bool-cases (check_task_active u.status)) [
  | inl active ↦ rw active (
      oldest u (mem-append_right seen mem-cons_self) active
        (All-snoc _ seen u (unless_active u seen ns) (λ _. omega arith)))
  | inr closed ↦
      rw closed (nobody (All-snoc _ seen u ns (λ active. false≢true (sym closed ∙ active))))
]
choose-Found seen (some t) u (oldest _ m a p) = elim (Bool-cases (check_task_active u.status)) [
  | inl active ↦ elim (Bool-cases (ltb u.created t.created)) [
    | inl younger ↦
        rw (active, younger)
          (oldest u (mem-append_right seen mem-cons_self) active (
            All-snoc _ seen u (Precedes-trans u t seen (ground (arith, younger)) p)
              (λ _. omega arith)))
    | inr not_older ↦
        rw (active, not_older)
          (oldest t (mem-append_left (u ∷ []) m) a
            (All-snoc _ seen u p (λ _. ground (arith, not_older))))
  ]
  | inr closed ↦ rw closed (
      oldest t (mem-append_left (u ∷ []) m) a
        (All-snoc _ seen u p (λ active. absurd (false≢true (sym closed ∙ active)))))
]

oldest_from-Found :
    (seen tasks : List OsdRemoveTask) (best : Option OsdRemoveTask)
    → Found seen best
    → Found (seen ++ tasks) (oldest_from best tasks)
unfolding oldest_from
oldest_from-Found seen [] best f = subst (λ us. Found us best) (sym (append-nil seen)) f
oldest_from-Found seen (u ∷ tasks) best f =
    subst (λ us. Found us (oldest_from (choose best u) tasks)) (append_assoc seen (u ∷ []) tasks)
      (oldest_from-Found (seen ++ u ∷ []) tasks (choose best u) (choose-Found seen best u f))

-- The task whose turn it is is an active one of the list that no active one is older than, and
-- there is one unless no task is active.
pub oldest_from-Oldest : (tasks : List OsdRemoveTask) → Found tasks (oldest_from none tasks)
oldest_from-Oldest tasks = oldest_from-Found [] tasks none (nobody tt)
