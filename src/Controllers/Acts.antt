-- ===== src/Controllers/Acts.antt =====
-- What the reconciler does once the action that a label asked for has returned.
use mathlib.Core.Option.{some-injective}
use aergia_controller.Base.{String, ◌≡◌, ◌≢◌, refl, true, false, none, some, ◌==◌, ==_iff}
use aergia_controller.Stdlib.{Stdlib}
use aergia_controller.Kube.{Namespace, Patch, ok, Cluster}
use aergia_controller.Kube.Lawful.{IsLawful, accepted}
use aergia_controller.World.{World, returned, Action, pure, continue, ◌>>=◌, patch_namespace}
use aergia_controller.Idler.Config.{Idler}
use aergia_controller.Controllers.{remove_label_patch, act_and_remove_label}
use aergia_controller.Controllers.Labels.{Lacks, removed-Lacks}

pub differ : (k l : String) → (k == l) ≡ false → some k ≢ some l
differ k l e p = let same = (==_iff k l).1 (some-injective k l p) in cc

-- Deployments and ingresses are read as before.
pub record ObjectsSame (K : Cluster) (w w' : World K) : Type 0 where
  pub deployments :
      (ns name : String) → K.get_deployment w'.cluster ns name ≡ K.get_deployment w.cluster ns name
  pub ingresses :
      (ns name : String) → K.get_ingress w'.cluster ns name ≡ K.get_ingress w.cluster ns name

module _ (K : Cluster) (law : IsLawful K)
    (accepts_namespace : (s : K.State) (name : String) (p : Patch) (ns : Namespace)
      → K.get_namespace s name ≡ ok ns
      → accepted (K.patch_namespace s name p).1 ≡ true)
    (L : Stdlib) (h : Idler) where
  -- The removal of the label changes no deployment and no ingress.
  pub after_label :
      (ns : Namespace) (label : String) (act : Action (World K) (Unit {0})) (w : World K)
      → (act w).0 ≡ returned tt
      → let y = act_and_remove_label K L h ns label act w in
        (y.0 ≡ returned none)
        × Lacks K law accepts_namespace label y.1.cluster ns.name
        × ObjectsSame K (act w).1 y.1
  unfolding act_and_remove_label ◌>>=◌ continue pure patch_namespace
  after_label ns label act w e = rw e (
    refl,
    removed-Lacks K law accepts_namespace label ns.name (act w).1.cluster,
    record {
      deployments =
          law.deployment-patch_namespace (act w).1.cluster ns.name (remove_label_patch label);
      ingresses = law.ingress-patch_namespace (act w).1.cluster ns.name (remove_label_patch label);
    },
  )
