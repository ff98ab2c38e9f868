-- ===== src/Unidler/Unidle/EachUnidled.antt =====
-- The loop of the unidling over the deployments that it has listed.
use mathlib.Core.List.{Memᴰ}
use aergia_controller.Base.{
  String, ◌≡◌, refl, ap, Bool, true, false, ◌&&◌, Option, none, some, List, [], ◌∷◌, ◌⊎◌, inl, inr,
  ℤ, is_zero, lookup, Bool-cases, arith,
}
use aergia_controller.Kube.{Namespace, Deployment, Patch, Result, ok, requirements, Cluster}
use aergia_controller.Kube.Lawful.{IsLawful, merge_deployment, accepted}
use aergia_controller.World.{
  World, returned, pure, continue, gets, ◌>>=◌, for_each, deref, on_reply, read, poll,
  patch_deployment,
}
use aergia_controller.World.Keeps.{Keeps}
use aergia_controller.World.Unchanged.{
  DeploymentsSame, DeploymentsSame-IsPreorder, patch_ingress-DeploymentsSame,
  patch_namespace-DeploymentsSame, count-DeploymentsSame,
}
use aergia_controller.World.Each.{
  deployments, is_at, AreApart, MadeOf, ActsAt, returns_each, makes_each, made_kept,
  get-patch_deployment, get-patch_deployment_other,
}
use aergia_controller.Idler.Service.EachIdled.{HasReplicas}
use aergia_controller.Unidler.Unidle.{
  new_replicas, unidle_deployment_patch, is_true, defer_unlock, unidle_deployment, finish_unidle,
  unidle_all, unidle_watched, unidle,
}
use aergia_controller.Unidler.Unidle.RoundTrip.{idled_key, replicas_key, merge-unidled}
use aergia_controller.Unidler.Unidle.OnlyUnidles.{IsUnidled, merge-IsUnidled}
use aergia_controller.Unidler.Unidle.Walk.{finish_unidle-Keeps}

abbrev are_zero : Option ℤ → Bool
are_zero none = false
are_zero (some n) = is_zero n

-- Labelled as idled, with no replicas.
abbrev pub was_idled : Deployment → Bool
was_idled d = is_true (lookup idled_key d.labels) && are_zero d.replicas

-- The same, or unidled if it was idled, with the number of replicas that was saved.
abbrev pub UnidledFrom : Deployment → Deployment → Type 0
UnidledFrom d d' =
    ((was_idled d ≡ false) × (d' ≡ d))
    ⊎ ((was_idled d ≡ true)
        × IsUnidled d'
        × (d'.replicas ≡ some (new_replicas (lookup replicas_key d.annotations))))

module _ (K : Cluster) (law : IsLawful K)
    (accepts : (s : K.State) (ns name : String) (p : Patch) (d : Deployment)
      → K.get_deployment s ns name ≡ ok d
      → accepted (K.patch_deployment s ns name p).1 ≡ true) where
  abbrev unidled_patch : Deployment → Patch
  unidled_patch d = unidle_deployment_patch (new_replicas (lookup replicas_key d.annotations))

  abbrev patched : Deployment → World K → World K
  patched d w = (patch_deployment K d.namespace d.name (unidled_patch d) w).1

  unidle_deployment_idled :
      (d : Deployment) (w : World K)
      → HasReplicas d
      → was_idled d ≡ true
      → unidle_deployment K d w ≡ (returned tt, patched d w)
  unfolding unidle_deployment ◌>>=◌ patch_deployment deref pure
  unidle_deployment_idled d w (n, e) i = ground arith

  unidle_deployment_other :
      (d : Deployment) (w : World K)
      → HasReplicas d
      → was_idled d ≡ false
      → unidle_deployment K d w ≡ (returned tt, w)
  unfolding unidle_deployment ◌>>=◌ patch_deployment deref pure
  unidle_deployment_other d w (n, e) i = ground arith

  patched_there :
      (d : Deployment) (w : World K)
      → K.get_deployment w.cluster d.namespace d.name ≡ ok d
      → K.get_deployment (patched d w).cluster d.namespace d.name
        ≡ ok (merge_deployment (unidled_patch d) d)
  unfolding patch_deployment
  patched_there d w there = get-patch_deployment K law w.cluster _ d (accepts _ _ _ _ d there) there

  patched_others :
      (d : Deployment) (w : World K) (ns name : String)
      → is_at (deployments K) d ns name ≡ false
      → K.get_deployment (patched d w).cluster ns name ≡ K.get_deployment w.cluster ns name
  unfolding patch_deployment
  patched_others d w ns name far = get-patch_deployment_other K law w.cluster _ d ns name far

  unidle_deployment-ActsAt : ActsAt (deployments K) HasReplicas UnidledFrom (unidle_deployment K)
  unidle_deployment-ActsAt = record {
    returns = λ d w r. elim (Bool-cases (was_idled d)) [
      | inl i ↦ ap (λ y. y.0) (unidle_deployment_idled d w r i)
      | inr i ↦ ap (λ y. y.0) (unidle_deployment_other d w r i)
    ];
    makes = λ d w r there. elim (Bool-cases (was_idled d)) [
      | inl i ↦ rw (unidle_deployment_idled d w r i) (
        merge_deployment (unidled_patch d) d,
        patched_there d w there,
        inr (i, merge-IsUnidled (lookup replicas_key d.annotations) d, (merge-unidled _ d).0),
      )
      | inr i ↦ rw (unidle_deployment_other d w r i) (d, there, inl (i, refl))
    ];
    leaves = λ d w ns name r far. elim (Bool-cases (was_idled d)) [
      | inl i ↦ rw (unidle_deployment_idled d w r i) (patched_others d w ns name far)
      | inr i ↦ rw (unidle_deployment_other d w r i)
    ];
  }

module _ (K : Cluster) (law : IsLawful K)
    (quiet : (condition : K.State → Result Bool) (s : K.State) (ns name : String)
      → K.get_deployment (K.poll condition s).0 ns name ≡ K.get_deployment s ns name) where
  poll-DeploymentsSame : (c : K.State → Result Bool) → Keeps (DeploymentsSame K) (poll K c)
  unfolding poll
  poll-DeploymentsSame c = record { at = λ w. record { at = λ ns name. quiet c w.cluster ns name } }

  finish_unidle-DeploymentsSame :
      (ns : Namespace) (ds : List Deployment) → Keeps (DeploymentsSame K) (finish_unidle K ns ds)
  finish_unidle-DeploymentsSame =
      finish_unidle-Keeps K (DeploymentsSame-IsPreorder K) (patch_ingress-DeploymentsSame K law)
        (patch_namespace-DeploymentsSame K law) (count-DeploymentsSame K law) poll-DeploymentsSame

  module _
      (accepts : (s : K.State) (ns name : String) (p : Patch) (d : Deployment)
        → K.get_deployment s ns name ≡ ok d
        → accepted (K.patch_deployment s ns name p).1 ≡ true) where
    abbrev Made : Deployment → World K → Type 0
    Made = MadeOf (deployments K) HasReplicas UnidledFrom

    unidle_all_each :
        (ns : Namespace) (ds : List Deployment) (w : World K)
        → AreApart (deployments K) ds
        → ((d : Deployment) → Memᴰ d ds → HasReplicas d)
        → ((d : Deployment) → Memᴰ d ds → K.get_deployment w.cluster d.namespace d.name ≡ ok d)
        → (d : Deployment) → Memᴰ d ds
        → Made d (unidle_all K ns ds w).1
    unfolding unidle_all ◌>>=◌ continue
    unidle_all_each ns ds w apart pre there d m =
        let body = unidle_deployment-ActsAt K law accepts in
        let w1 : World K = (for_each ds (unidle_deployment K) w).1 in
        rw
          (returns_each (deployments K) HasReplicas UnidledFrom (unidle_deployment K) body ds w pre)
          (made_kept (deployments K) HasReplicas UnidledFrom (unidle_deployment K) body d w1
            (finish_unidle K ns ds w1).1
            (makes_each (deployments K) HasReplicas UnidledFrom (unidle_deployment K) body ds w
              apart pre there d m)
            (((finish_unidle-DeploymentsSame ns ds).at w1).at d.namespace d.name))

    -- Over a lawful cluster, if the deployments of a namespace can be listed, exist under names of
    -- their own and have a number of replicas, no patch of an existing one is refused, and nothing
    -- else changes deployments while it polls, then after the unidling each of them that was
    -- labelled as idled with no replicas has the number of replicas that was saved, or 1 where that
    -- is no positive number, and is labelled as not idled, and each other one is as it was.
    pub unidle_each :
        (ns : Namespace) (r : K.Requirement) (ds : List Deployment) (w : World K)
        → K.new_requirement "idling.amazee.io/watch" "=" ("true" ∷ []) ≡ some r
        → K.list_deployments w.cluster ns.name (requirements (r ∷ [])) ≡ ok ds
        → AreApart (deployments K) ds
        → ((d : Deployment) → Memᴰ d ds → HasReplicas d)
        → ((d : Deployment) → Memᴰ d ds → K.get_deployment w.cluster d.namespace d.name ≡ ok d)
        → (d : Deployment) → Memᴰ d ds
        → MadeOf (deployments K) HasReplicas UnidledFrom d (unidle K ns w).1
    unfolding unidle defer_unlock unidle_watched ◌>>=◌ continue deref pure read gets on_reply
    unidle_each ns r ds w made listed apart pre there d m =
        rw made (rw listed (unidle_all_each ns ds w apart pre there d m))
