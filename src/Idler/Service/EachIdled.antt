-- ===== src/Idler/Service/EachIdled.antt =====
-- The loop of the service idler over the deployments that it has listed.
use mathlib.Core.List.{Memᴰ}
use aergia_controller.Base.{
  String, ◌≡◌, ap, Bool, true, false, some, List, ℤ, ◌==◌, lookup, lookup-insert, arith,
}
use aergia_controller.Strings.Decimal.{itoa}
use aergia_controller.Stdlib.{Stdlib}
use aergia_controller.Kube.{Deployment, Patch, ok, Cluster}
use aergia_controller.Kube.Lawful.{IsLawful, merge, merge_deployment, accepted}
use aergia_controller.World.{World, returned, pure, ◌>>=◌, deref, read, patch_deployment}
use aergia_controller.World.Each.{
  deployments, is_at, AreApart, MadeOf, ActsAt, returns_each, makes_each, get-patch_deployment,
  get-patch_deployment_other,
}
use aergia_controller.Idler.Config.{Idler}
use aergia_controller.Idler.Patches.{saved_replicas, idle_deployment_patch}
use aergia_controller.Idler.Service.{idle_deployment, idle_deployments}
use aergia_controller.Idler.Service.OnlyIdles.{IsIdled, merge-IsIdled}

-- The pointer to the number of replicas is not nil, as the API server sees to.
abbrev pub HasReplicas : Deployment → Type 0
HasReplicas d = (n : ℤ) × (d.replicas ≡ some n)

-- Idled, with the number of replicas of before saved, or 1 for none.
abbrev pub IdledFrom : Deployment → Deployment → Type 0
IdledFrom d d' =
    (n : ℤ) × (d.replicas ≡ some n)
    × IsIdled d'
    × (lookup "idling.amazee.io/unidle-replicas" d'.annotations ≡ some (itoa (saved_replicas n)))

saved-merge :
    (n : ℤ) (at : String) (fi fs : Bool) (d : Deployment)
    → lookup "idling.amazee.io/unidle-replicas"
        (merge_deployment (idle_deployment_patch n at fi fs) d).annotations
      ≡ some (itoa (saved_replicas n))
unfolding idle_deployment_patch merge ◌==◌
saved-merge n at fi fs d = simp lookup-insert

module _ (K : Cluster) (law : IsLawful K)
    (accepts : (s : K.State) (ns name : String) (p : Patch) (d : Deployment)
      → K.get_deployment s ns name ≡ ok d
      → accepted (K.patch_deployment s ns name p).1 ≡ true)
    (L : Stdlib) (h : Idler) (dry : h.dry_run ≡ false) (fi fs : Bool) where
  -- The one patch of a round.
  abbrev patched : Deployment → ℤ → World K → World K
  patched d n w =
      (patch_deployment K d.namespace d.name (idle_deployment_patch n (K.timestamp w.cluster) fi fs)
        w).1

  idle_deployment_eq :
      (d : Deployment) (n : ℤ) (w : World K)
      → d.replicas ≡ some n
      → idle_deployment K L h fi fs d w ≡ (returned tt, patched d n w)
  unfolding idle_deployment ◌>>=◌ read patch_deployment deref pure
  idle_deployment_eq d n w e = ground arith

  patched_there :
      (d : Deployment) (n : ℤ) (w : World K)
      → K.get_deployment w.cluster d.namespace d.name ≡ ok d
      → K.get_deployment (patched d n w).cluster d.namespace d.name
        ≡ ok (merge_deployment (idle_deployment_patch n (K.timestamp w.cluster) fi fs) d)
  unfolding patch_deployment
  patched_there d n w there =
      get-patch_deployment K law w.cluster _ d (accepts _ _ _ _ d there) there

  patched_others :
      (d : Deployment) (n : ℤ) (w : World K) (ns name : String)
      → is_at (deployments K) d ns name ≡ false
      → K.get_deployment (patched d n w).cluster ns name ≡ K.get_deployment w.cluster ns name
  unfolding patch_deployment
  patched_others d n w ns name far = get-patch_deployment_other K law w.cluster _ d ns name far

  idle_deployment-ActsAt :
      ActsAt (deployments K) HasReplicas IdledFrom (idle_deployment K L h fi fs)
  idle_deployment-ActsAt = record {
    returns = λ d w (n, e). ap (λ y. y.0) (idle_deployment_eq d n w e);
    makes = λ d w (n, e) there. rw (idle_deployment_eq d n w e) (
      merge_deployment (idle_deployment_patch n (K.timestamp w.cluster) fi fs) d,
      patched_there d n w there,
      (
        n,
        e,
        merge-IsIdled n (K.timestamp w.cluster) fi fs d,
        saved-merge n (K.timestamp w.cluster) fi fs d,
      ),
    );
    leaves = λ d w ns name (n, e) far.
        rw (idle_deployment_eq d n w e) (patched_others d n w ns name far);
  }

  -- Not in a dry run, and where no patch of an existing deployment is refused, the idling of a list
  -- of deployments that exist under names of their own and have a number of replicas returns, and
  -- each of them is scaled to zero, with the labels that the unidler looks for, and has its number
  -- of replicas saved, or 1 where that is not positive.
  pub idle_deployments_each :
      (ds : List Deployment) (w : World K)
      → AreApart (deployments K) ds
      → ((d : Deployment) → Memᴰ d ds → HasReplicas d)
      → ((d : Deployment) → Memᴰ d ds → K.get_deployment w.cluster d.namespace d.name ≡ ok d)
      → ((idle_deployments K L h ds fi fs w).0 ≡ returned tt)
        × ((d : Deployment)
            → Memᴰ d ds
            → MadeOf (deployments K) HasReplicas IdledFrom d (idle_deployments K L h ds fi fs w).1)
  unfolding idle_deployments
  idle_deployments_each ds w apart pre there = (
    returns_each (deployments K) HasReplicas IdledFrom (idle_deployment K L h fi fs)
        idle_deployment-ActsAt ds w pre,
    makes_each (deployments K) HasReplicas IdledFrom (idle_deployment K L h fi fs)
        idle_deployment-ActsAt ds w apart pre there,
  )
