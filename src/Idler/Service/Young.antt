-- ===== src/Idler/Service/Young.antt =====
-- The ages of the pods that the service idler looks at.
use mathlib.Core.List.{Memᴰ}
use aergia_controller.Base.{
  String, ◌≡◌, refl, true, false, Option, none, some, List, [], ◌∷◌, inl, inr, ℕ, ℤ, sub_ℕ, lt_ℤ,
  Bool-cases, arith,
}
use aergia_controller.Stdlib.{Stdlib}
use aergia_controller.Kube.{
  Namespace, Deployment, Pod, Result, ok, err, requirements, matching, Cluster,
}
use aergia_controller.World.{World, returned, pure, continue, gets, ◌>>=◌, deref, on_reply, read}
use aergia_controller.Idler.Config.{Idler}
use aergia_controller.Idler.Helpers.{generate_label_requirements}
use aergia_controller.Idler.Checks.{is_past_interval, mark_idle}
use aergia_controller.Idler.Service.{check_deployments, idle_environment}
use aergia_controller.Idler.Service.EachIdled.{HasReplicas}

-- The pod has started, and has run for longer than the interval.
abbrev pub IsOld : ℤ → ℕ → Pod → Type 0
IsOld interval now pod =
    (start : ℕ) × (pod.start_time ≡ some start) × (lt_ℤ interval (sub_ℕ now start) ≡ true)

is_past_interval-IsOld :
    (interval : ℤ) (now : ℕ) (pod : Pod)
    → is_past_interval interval now pod ≡ true
    → IsOld interval now pod
unfolding is_past_interval
is_past_interval-IsOld interval now pod h = by_start pod.start_time refl
  where
    by_start : (o : Option ℕ) → pod.start_time ≡ o → IsOld interval now pod
    by_start none e = cc
    by_start (some start) e = (start, e, ground arith)

mark_idle_young :
    (interval : ℤ) (now : ℕ) (pods : List Pod)
    → ((p : Pod) → Memᴰ p pods → ¬ IsOld interval now p)
    → mark_idle interval now false pods ≡ false
unfolding mark_idle
mark_idle_young interval now [] young = refl
mark_idle_young interval now (p ∷ pods) young =
    elim (Bool-cases (is_past_interval interval now p)) [
      | inl e ↦ absurd (young p (Memᴰ.head refl) (is_past_interval-IsOld interval now p e))
      | inr e ↦ rw e (mark_idle_young interval now pods (λ q m. young q (Memᴰ.tail m)))
    ]

module _ (K : Cluster) (L : Stdlib) (h : Idler) where
  -- No pod of the deployment is old, as far as its pods can be listed.
  abbrev pub IsYoung : String → ℤ → World K → Deployment → Type 0
  IsYoung ns interval w d =
      (pods : List Pod)
      → K.list_pods w.cluster (some ns) (matching ((h.selectors.service_name, d.name) ∷ []))
        ≡ ok pods
      → (p : Pod) → Memᴰ p pods
      → ¬ IsOld interval (K.now w.cluster) p

  check_deployments_young :
      (ns : String) (interval : ℤ) (ds : List Deployment) (w : World K)
      → ((d : Deployment) → Memᴰ d ds → HasReplicas d)
      → ((d : Deployment) → Memᴰ d ds → IsYoung ns interval w d)
      → check_deployments K L h ns interval ds false w ≡ (returned false, w)
  unfolding check_deployments ◌>>=◌ continue deref pure read gets on_reply
  check_deployments_young ns interval [] w pre young = refl
  check_deployments_young ns interval (d ∷ ds) w pre young =
      let rest =
        check_deployments_young ns interval ds w (λ e m. pre e (Memᴰ.tail m))
          (λ e m. young e (Memᴰ.tail m)) in
      by_reply (pre d (Memᴰ.head refl)) rest _ refl
    where
      by_reply :
          HasReplicas d
          → check_deployments K L h ns interval ds false w ≡ (returned false, w)
          → (r : Result (List Pod))
          → K.list_pods w.cluster (some ns) (matching ((h.selectors.service_name, d.name) ∷ [])) ≡ r
          → check_deployments K L h ns interval (d ∷ ds) false w ≡ (returned false, w)
      by_reply (n, e) rest (ok pods) p =
          let m =
            mark_idle_young interval (K.now w.cluster) pods (young d (Memᴰ.head refl) pods p) in
          rw e (rw p (rw m rest))
      by_reply (n, e) rest (err x) p = rw e (rw p)

  -- An environment whose idling is not forced is left as it is if no pod of any of its deployments
  -- has run for longer than the interval, as far as the pods can be listed, where the deployments
  -- can be listed and have a number of replicas, and their selectors are valid.
  pub idle_environment_young :
      (ns : Namespace) (i j : ℤ) (w : World K) (reqs : List K.Requirement) (ds : List Deployment)
      → generate_label_requirements K h.selectors.service.deployments w ≡ (returned reqs, w)
      → K.list_deployments w.cluster ns.name (requirements reqs) ≡ ok ds
      → ((d : Deployment) → Memᴰ d ds → HasReplicas d)
      → ((d : Deployment) → Memᴰ d ds → IsYoung ns.name i w d)
      → idle_environment K L h ns i j false false w ≡ (returned tt, w)
  unfolding idle_environment ◌>>=◌ continue read gets on_reply pure
  idle_environment_young ns i j w reqs ds made listed pre young =
      rw made (rw listed (rw (check_deployments_young ns.name i ds w pre young)))
