-- ===== src/Unidler/Unidle/Ingresses.antt =====
-- The ingresses of a namespace that is unidled.
use mathlib.Core.List.{Memᴰ}
use mathlib.Core.Path.{subst}
use aergia_controller.Base.{
  String, ◌≡◌, refl, Bool, true, false, ◌&&◌, some, List, [], ◌∷◌, ◌==◌, ==_iff, Bool-cases, inl,
  inr, arith,
}
use aergia_controller.Kube.{
  Namespace, Deployment, Ingress, Patch, Result, ok, err, requirements, Cluster,
}
use aergia_controller.Kube.Lawful.{IsLawful, accepted}
use aergia_controller.World.{
  World, returned, pure, gets, modify, continue, ◌>>=◌, for_each, deref, on_reply, read, count,
  patch_namespace,
}
use aergia_controller.World.Each.{ingresses, is_at, AreApart, ActsAt, makes_each, leaves_others}
use aergia_controller.World.Returns.{Returns-for_each}
use aergia_controller.Idler.Service.EachIdled.{HasReplicas}
use aergia_controller.Unidler.Checks.{restore_ingress, remove_code_from_ingress}
use aergia_controller.Unidler.Checks.Clears.{IsClear, restore_ingress-ActsAt}
use aergia_controller.Unidler.Unidle.{
  unidled_namespace_patch, unidle_deployment, wait_for_pods, defer_unlock, finish_unidle,
  unidle_all, unidle_watched, unidle,
}
use aergia_controller.Unidler.Unidle.NoPanic.{
  unidle_deployment-Returns, wait_for_pods-Returns, remove_code_from_ingress-Returns,
  unidle_returns,
}

both : (a b : Bool) → (a && b) ≡ true → (a ≡ true) × (b ≡ true)
both a b e = (ground arith, ground arith)

-- How a list of ingresses shows what there is: each once, under its own name, and none left out.
pub record ListsIngresses (K : Cluster) : Type 0 where
  pub named :
      (s : K.State) (ns name : String) (i : Ingress)
      → K.get_ingress s ns name ≡ ok i
      → (i.namespace ≡ ns) × (i.name ≡ name)
  pub apart :
      (s : K.State) (ns : String) (is : List Ingress)
      → K.list_ingresses s ns (requirements []) ≡ ok is
      → AreApart (ingresses K) is
  pub there :
      (s : K.State) (ns : String) (is : List Ingress)
      → K.list_ingresses s ns (requirements []) ≡ ok is
      → (i : Ingress) → Memᴰ i is
      → K.get_ingress s i.namespace i.name ≡ ok i
  pub complete :
      (s : K.State) (ns name : String) (is : List Ingress) (i : Ingress)
      → K.list_ingresses s ns (requirements []) ≡ ok is
      → K.get_ingress s ns name ≡ ok i
      → Memᴰ i is

module _ (K : Cluster) (law : IsLawful K) (lists : ListsIngresses K)
    (accepts : (s : K.State) (ns name : String) (p : Patch) (i : Ingress)
      → K.get_ingress s ns name ≡ ok i
      → accepted (K.patch_ingress s ns name p).1 ≡ true) where
  abbrev body : ActsAt (ingresses K) (λ i. Unit) (λ i i'. IsClear i') (restore_ingress K)
  body = restore_ingress-ActsAt K law accepts

  clear_of : (j i : Ingress) (r : Result Ingress) → r ≡ ok j → r ≡ ok i → IsClear j → IsClear i
  clear_of j i r e f clear = let same : j ≡ i = cc in subst IsClear same clear

  -- What is there does not stand where nothing is.
  elsewhere :
      {s : K.State} {x : String} (j : Ingress) (ns name : String)
      → K.get_ingress s j.namespace j.name ≡ ok j
      → K.get_ingress s ns name ≡ err x
      → is_at (ingresses K) j ns name ≡ false
  elsewhere {s} {x} j ns name there f = elim (Bool-cases (is_at (ingresses K) j ns name)) [
    | inr e ↦ e
    | inl e ↦
        let (p, q) = both (j.namespace == ns) (j.name == name) e in
        let a = (==_iff j.namespace ns).0 p in let b = (==_iff j.name name).0 q in absurd (cc)
  ]

  -- After the loop every ingress of the namespace is clear.
  for_each-IsClear :
      (ns : String) (is : List Ingress) (w : World K)
      → K.list_ingresses w.cluster ns (requirements []) ≡ ok is
      → (name : String) (i : Ingress)
      → K.get_ingress (for_each is (restore_ingress K) w).1.cluster ns name ≡ ok i
      → IsClear i
  for_each-IsClear ns is w listed name i e = by_reply (K.get_ingress w.cluster ns name) refl
    where
      by_reply : (r : Result Ingress) → K.get_ingress w.cluster ns name ≡ r → IsClear i
      by_reply (ok j) f =
          let (a, b) = lists.named w.cluster ns name j f in
          let (j', g, clear) =
            makes_each (ingresses K) (λ i. Unit) (λ i i'. IsClear i') (restore_ingress K) body is w
              (lists.apart w.cluster ns is listed) (λ x m. tt) (lists.there w.cluster ns is listed)
              j (lists.complete w.cluster ns name is j listed f) in
          clear_of j' i (K.get_ingress (for_each is (restore_ingress K) w).1.cluster ns name)
            (rw (a, b) at g) e clear
      by_reply (err x) f =
          let kept =
            leaves_others (ingresses K) (λ i. Unit) (λ i i'. IsClear i') (restore_ingress K) body is
              w ns name (λ x m. tt)
              (λ j m. elsewhere j ns name (lists.there w.cluster ns is listed j m) f) in
          cc

  module _ (ns : Namespace)
      (listable : (s : K.State)
        → (is : List Ingress) × (K.list_ingresses s ns.name (requirements []) ≡ ok is)) where
    abbrev AllClear : World K → Type 0
    AllClear w =
        (name : String) (i : Ingress) → K.get_ingress w.cluster ns.name name ≡ ok i → IsClear i

    remove_code-AllClear : (w : World K) → AllClear (remove_code_from_ingress K ns.name w).1
    unfolding remove_code_from_ingress ◌>>=◌ read gets continue on_reply
    remove_code-AllClear w name i =
        let (is, e) = listable w.cluster in rw e (for_each-IsClear ns.name is w e name i)

    -- What comes after the ingresses changes none of them.
    finish-AllClear : (ds : List Deployment) (w : World K) → AllClear (finish_unidle K ns ds w).1
    unfolding finish_unidle ◌>>=◌ continue count modify patch_namespace pure
    finish-AllClear ds w name i =
        let (u, waited) =
          (Returns-for_each ds (wait_for_pods K ns.name)
              (λ d _. wait_for_pods-Returns K ns.name d)).at
            w in
        let w1 : World K = (for_each ds (wait_for_pods K ns.name) w).1 in
        let (v, removed) = (remove_code_from_ingress-Returns K ns.name).at w1 in
        rw waited (
          rw removed (
            rw (law.ingress-patch_namespace _ ns.name unidled_namespace_patch ns.name name)
              (remove_code-AllClear w1 name i)))

    unidle_all-AllClear :
        (ds : List Deployment) (w : World K)
        → ((d : Deployment) → Memᴰ d ds → HasReplicas d)
        → AllClear (unidle_all K ns ds w).1
    unfolding unidle_all ◌>>=◌ continue
    unidle_all-AllClear ds w pre name i =
        let (u, scaled) =
          (Returns-for_each ds (unidle_deployment K)
              (λ d m. unidle_deployment-Returns K d (pre d m))).at
            w in
        rw scaled (finish-AllClear ds (for_each ds (unidle_deployment K) w).1 name i)

    unidle-AllClear :
        (r : K.Requirement) (ds : List Deployment) (w : World K)
        → K.new_requirement "idling.amazee.io/watch" "=" ("true" ∷ []) ≡ some r
        → K.list_deployments w.cluster ns.name (requirements (r ∷ [])) ≡ ok ds
        → ((d : Deployment) → Memᴰ d ds → HasReplicas d)
        → AllClear (unidle K ns w).1
    unfolding unidle defer_unlock unidle_watched ◌>>=◌ continue deref pure read gets on_reply
    unidle-AllClear r ds w made listed pre name i =
        rw made (rw listed (unidle_all-AllClear ds w pre name i))

    -- Over a lawful cluster, if the deployments of a namespace can be listed and have a number of
    -- replicas, its ingresses can be listed at any time, each once, under its own name and with
    -- none left out, and no patch of an existing ingress is refused, then the unidling of the
    -- namespace returns, whatever comes of the deployments, and no ingress of the namespace lists
    -- the code 503 or the middleware of aergia any more.
    pub unidle_ingresses :
        (r : K.Requirement) (ds : List Deployment) (w : World K)
        → K.new_requirement "idling.amazee.io/watch" "=" ("true" ∷ []) ≡ some r
        → K.list_deployments w.cluster ns.name (requirements (r ∷ [])) ≡ ok ds
        → ((d : Deployment) → Memᴰ d ds → HasReplicas d)
        → ((unidle K ns w).0 ≡ returned tt)
          × ((name : String) (i : Ingress)
              → K.get_ingress (unidle K ns w).1.cluster ns.name name ≡ ok i
              → IsClear i)
    unidle_ingresses r ds w made listed pre =
        (unidle_returns K ns r ds w made listed pre, unidle-AllClear r ds w made listed pre)
