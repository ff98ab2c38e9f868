-- ===== src/Idler/Service/Refused.antt =====
-- What the service idler does where an ingress cannot be patched.
use mathlib.Core.List.{Memᴰ}
use aergia_controller.Base.{
  String, ◌<>◌, ◌≡◌, ◌∙◌, ap, Bool, true, false, none, some, List, [], ◌∷◌, Option-cases, arith,
  inl, inr,
}
use aergia_controller.Stdlib.{Stdlib}
use aergia_controller.Kube.{Namespace, Deployment, Ingress, Result, ok, err, requirements, Cluster}
use aergia_controller.Kube.Lawful.{IsLawful}
use aergia_controller.World.{
  World, returned, Action, pure, continue, gets, ◌>>=◌, on_reply, on_error, read, patch_ingress,
}
use aergia_controller.World.Unchanged.{
  DeploymentsSame-IsPreorder, patch_ingress-DeploymentsSame, patch_namespace-DeploymentsSame,
  count-DeploymentsSame,
}
use aergia_controller.Idler.Config.{Idler}
use aergia_controller.Idler.Helpers.{generate_label_requirements}
use aergia_controller.Idler.Patches.{idle_ingress_patch}
use aergia_controller.Idler.Service.{patch_ingresses, patch_all_ingress, patch_and_idle}
use aergia_controller.Idler.Service.Walk.{patch_all_ingress-Keeps}

module _ (K : Cluster) (L : Stdlib) (h : Idler) (dry : h.dry_run ≡ false) where
  -- The cluster refuses the patch of an ingress, whatever else is the case.
  abbrev pub IsRefused : Ingress → Type 0
  IsRefused i =
      (s : K.State)
      → (e : String) × ((K.patch_ingress s i.namespace i.name (idle_ingress_patch i)).1 ≡ some e)

  -- It returns an error.
  abbrev pub Fails : {A : Type 0} → Action (World K) (Result A) → World K → Type 0
  Fails m w = (e : String) × ((m w).0 ≡ returned (err e))

  patch-Fails :
      (i : Ingress) (is : List Ingress) (patched : Bool) (w : World K) (e : String)
      → (K.patch_ingress w.cluster i.namespace i.name (idle_ingress_patch i)).1 ≡ some e
      → Fails (patch_ingresses K L h (i ∷ is) patched) w
  unfolding patch_ingresses ◌>>=◌ continue patch_ingress on_error pure
  patch-Fails i is patched w e p = ("error patching ingress " <> i.name, rw (dry, p))

  patch_goes_on :
      (i : Ingress) (is : List Ingress) (patched : Bool) (w : World K)
      → (K.patch_ingress w.cluster i.namespace i.name (idle_ingress_patch i)).1 ≡ none
      → ((w' : World K) → Fails (patch_ingresses K L h is true) w')
      → Fails (patch_ingresses K L h (i ∷ is) patched) w
  unfolding patch_ingresses ◌>>=◌ continue patch_ingress on_error
  patch_goes_on i is patched w p rest = rw (dry, p) (rest _)

  patch_ingresses_refused :
      (is : List Ingress) (i : Ingress) (patched : Bool) (w : World K)
      → Memᴰ i is
      → IsRefused i
      → Fails (patch_ingresses K L h is patched) w
  patch_ingresses_refused [] i patched w m refusal = elim m [ ]
  patch_ingresses_refused (j ∷ is) i patched w (Memᴰ.head e) refusal =
      let refused = rw e at refusal in
      let (x, p) = refused w.cluster in patch-Fails j is patched w x p
  patch_ingresses_refused (j ∷ is) i patched w (Memᴰ.tail m) refusal =
      elim (Option-cases (K.patch_ingress w.cluster j.namespace j.name (idle_ingress_patch j)).1) [
        | inl p ↦
            patch_goes_on j is patched w p (λ w'. patch_ingresses_refused is i true w' m refusal)
        | inr (x, p) ↦ patch-Fails j is patched w x p
      ]

  patch_all_ingress_refused :
      (ns : Namespace) (w : World K) (reqs : List K.Requirement) (is : List Ingress) (i : Ingress)
      → h.selectors.service.skip_ingress_patch ≡ false
      → generate_label_requirements K h.selectors.service.ingress w ≡ (returned reqs, w)
      → K.list_ingresses w.cluster ns.name (requirements reqs) ≡ ok is
      → Memᴰ i is
      → IsRefused i
      → Fails (patch_all_ingress K L h ns) w
  unfolding patch_all_ingress ◌>>=◌ continue read gets on_reply pure
  patch_all_ingress_refused ns w reqs is i patch made listed m refusal =
      let (e, p) = patch_ingresses_refused is i false w m refusal in (e, ground arith)

  -- Nothing follows an error.
  patch_and_idle_failed :
      (ns : Namespace) (ds : List Deployment) (fi fs : Bool) (w : World K)
      → Fails (patch_all_ingress K L h ns) w
      → patch_and_idle K L h ns ds fi fs w ≡ (returned tt, (patch_all_ingress K L h ns w).1)
  unfolding patch_and_idle ◌>>=◌ continue on_reply pure
  patch_and_idle_failed ns ds fi fs w (e, p) = rw p

  -- Over a lawful cluster, if the ingresses of a namespace can be listed, the patch of ingresses is
  -- not switched off, this is no dry run, and the cluster refuses the patch of one of them, then no
  -- deployment is changed: an environment whose visitors would not reach the unidler is not idled.
  pub patch_and_idle_refused :
      (law : IsLawful K) (ns : Namespace) (ds : List Deployment) (fi fs : Bool) (w : World K)
      (reqs : List K.Requirement) (is : List Ingress) (i : Ingress)
      → h.selectors.service.skip_ingress_patch ≡ false
      → generate_label_requirements K h.selectors.service.ingress w ≡ (returned reqs, w)
      → K.list_ingresses w.cluster ns.name (requirements reqs) ≡ ok is
      → Memᴰ i is
      → IsRefused i
      → (ns' name : String)
      → K.get_deployment (patch_and_idle K L h ns ds fi fs w).1.cluster ns' name
        ≡ K.get_deployment w.cluster ns' name
  patch_and_idle_refused law ns ds fi fs w reqs is i patch made listed m refusal ns' name =
      let kept =
        (patch_all_ingress-Keeps K L h (DeploymentsSame-IsPreorder K)
            (patch_ingress-DeploymentsSame K law) (patch_namespace-DeploymentsSame K law)
            (count-DeploymentsSame K law) ns).at
          w in
      ap (λ y. K.get_deployment y.1.cluster ns' name)
        (patch_and_idle_failed ns ds fi fs w
          (patch_all_ingress_refused ns w reqs is i patch made listed m refusal))
      ∙ kept.at ns' name
