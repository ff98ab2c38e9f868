-- ===== src/Idler/Service/Ingresses.antt =====
-- The loop of the service idler over the ingresses that it has listed.
use mathlib.Core.List.{Memᴰ}
use aergia_controller.Base.{
  String, ◌<>◌, if◌then◌else◌, ◌≡◌, refl, ◌∙◌, sym, ap, Bool, true, false, some, List, [], ◌∷◌,
  ==_refl, contains, value_at, Option-cases, inl, inr, arith,
}
use aergia_controller.Strings.Split.{split, LacksComma}
use aergia_controller.Stdlib.{Stdlib}
use aergia_controller.Kube.{Namespace, Ingress, Patch, Result, ok, err, requirements, Cluster}
use aergia_controller.Kube.Lawful.{IsLawful, merge_ingress, accepted}
use aergia_controller.World.{
  World, returned, Action, pure, continue, gets, modify, count, ◌>>=◌, ◌>>◌, for_each, on_reply,
  on_error, read, patch_ingress, patch_namespace,
}
use aergia_controller.World.Keeps.{Keeps, Keeps-pure, Keeps-bind, Keeps-for_each}
use aergia_controller.World.Unchanged.{
  IngressesSame, NamespacesSame, NamespacesSame-IsPreorder, patch_ingress-NamespacesSame,
}
use aergia_controller.World.Each.{
  ingresses, is_at, AreApart, MadeOf, IsPresent, ActsAt, makes_each, made_kept, get-patch_ingress,
  get-patch_ingress_other,
}
use aergia_controller.Idler.Config.{Idler}
use aergia_controller.Idler.Helpers.{add_status_code, generate_label_requirements}
use aergia_controller.Idler.Patches.{
  custom_http_errors, router_middlewares, middleware, idle_ingress_patch, idled_namespace_patch,
}
use aergia_controller.Idler.Service.{patch_ingresses, label_idled, patch_all_ingress}
use aergia_controller.Unidler.Helpers.Codes.{contains-add_status_code}
use aergia_controller.Unidler.Checks.RoundTrip.{idled_annotations}

-- The ingress controller sends its visitors to aergia: the code and the middleware are listed.
abbrev pub IsRouted : Ingress → Type 0
IsRouted i =
    (contains (split (value_at custom_http_errors i.annotations)) "503" ≡ true)
    × (contains (split (value_at router_middlewares i.annotations)) (middleware i.namespace) ≡ true)

-- The name of the middleware is one entry of a list.
abbrev pub IsNamed : Ingress → Type 0
IsNamed i = LacksComma (middleware i.namespace)

abbrev pub RoutedFrom : Ingress → Ingress → Type 0
RoutedFrom i i' = IsRouted i'

if_false : {A : Type 0} (b : Bool) (x y : A) → b ≡ false → (if b then x else y) ≡ y
if_false b x y e = rw e

contains_added :
    (codes code : String)
    → LacksComma code
    → contains (split (add_status_code codes code)) code ≡ true
contains_added codes code lacks =
    contains-add_status_code codes code code lacks ∙ ground (arith, ==_refl code)

merge-IsRouted : (i : Ingress) → IsNamed i → IsRouted (merge_ingress (idle_ingress_patch i) i)
merge-IsRouted i lacks =
    let (e, f) = idled_annotations i in
    (
      rw e (
          contains_added (value_at custom_http_errors i.annotations) "503"
            (refl, (refl, (refl, tt)))),
      rw f (
          contains_added (value_at router_middlewares i.annotations) (middleware i.namespace)
            lacks),
    )

module _ (K : Cluster) (law : IsLawful K)
    (accepts : (s : K.State) (ns name : String) (p : Patch) (i : Ingress)
      → K.get_ingress s ns name ≡ ok i
      → accepted (K.patch_ingress s ns name p).1 ≡ true)
    (L : Stdlib) (h : Idler) (dry : h.dry_run ≡ false) where
  -- The patch of a round.
  abbrev put : Ingress → Action (World K) (Unit {0})
  put i = patch_ingress K i.namespace i.name (idle_ingress_patch i) >> pure tt

  put-ActsAt : ActsAt (ingresses K) IsNamed RoutedFrom put
  unfolding ◌>>=◌ continue patch_ingress pure
  put-ActsAt = record {
    returns = λ i w _. refl;
    makes = λ i w lacks there. (
      merge_ingress (idle_ingress_patch i) i,
      get-patch_ingress K law w.cluster _ i (accepts _ _ _ _ i there) there,
      merge-IsRouted i lacks,
    );
    leaves = λ i w ns name _ far. get-patch_ingress_other K law w.cluster _ i ns name far;
  }

  put-NamespacesSame : (is : List Ingress) → Keeps (NamespacesSame K) (for_each is put)
  put-NamespacesSame is = Keeps-for_each (NamespacesSame-IsPreorder K) is put λ i.
      Keeps-bind (NamespacesSame-IsPreorder K) _ _
        (patch_ingress-NamespacesSame K law i.namespace i.name (idle_ingress_patch i))
        λ _. Keeps-pure (NamespacesSame-IsPreorder K) tt

  abbrev AllPresent : List Ingress → World K → Type 0
  AllPresent is w = (i : Ingress) → Memᴰ i is → IsPresent (ingresses K) IsNamed RoutedFrom w i

  -- A round, where this is no dry run.
  abbrev attempt : Ingress → List Ingress → Action (World K) (Result Bool)
  attempt i is = patch_ingress K i.namespace i.name (idle_ingress_patch i) >>= λ e.
      on_error e (λ _. pure (err ("error patching ingress " <> i.name)))
        (patch_ingresses K L h is true)

  first :
      (i : Ingress) (is : List Ingress) (patched : Bool)
      → patch_ingresses K L h (i ∷ is) patched ≡ attempt i is
  unfolding patch_ingresses
  first i is patched = if_false h.dry_run (patch_ingresses K L h is patched) (attempt i is) dry

  -- A round whose patch is accepted.
  round :
      (i : Ingress) (is : List Ingress) (patched : Bool) (w : World K)
      → IsPresent (ingresses K) IsNamed RoutedFrom w i
      → patch_ingresses K L h (i ∷ is) patched w ≡ patch_ingresses K L h is true (put i w).1
  unfolding ◌>>=◌ continue patch_ingress on_error pure
  round i is patched w there =
      ap (λ act. act w) (first i is patched)
      ∙ elim (Option-cases
          (K.patch_ingress w.cluster i.namespace i.name (idle_ingress_patch i)).1) [
            | inl e ↦ rw e
            | inr (x, e) ↦
                let ok_there = accepts w.cluster _ _ (idle_ingress_patch i) i there in
                let no : accepted (some x) ≡ true = rw e at ok_there in absurd (cc)
          ]

  next :
      (i : Ingress) (is : List Ingress) (w : World K)
      → for_each (i ∷ is) put w ≡ for_each is put (put i w).1
  unfolding for_each ◌>>=◌ continue patch_ingress pure
  next i is w = refl

  put_others :
      (i j : Ingress) (w : World K)
      → is_at (ingresses K) i j.namespace j.name ≡ false
      → K.get_ingress (put i w).1.cluster j.namespace j.name
        ≡ K.get_ingress w.cluster j.namespace j.name
  unfolding ◌>>=◌ continue patch_ingress pure
  put_others i j w e = get-patch_ingress_other K law w.cluster _ i j.namespace j.name e

  -- Where every patch is accepted it is a loop without a result of its own.
  patch_ingresses_eq :
      (is : List Ingress) (patched : Bool) (w : World K)
      → AreApart (ingresses K) is
      → AllPresent is w
      → (p : Bool) × (patch_ingresses K L h is patched w ≡ (returned (ok p), (for_each is put w).1))
  patch_ingresses_eq [] patched w apart there =
      (patched, unfold patch_ingresses for_each pure in refl)
  patch_ingresses_eq (i ∷ is) patched w (far, apart) there =
      let (p, e) =
        patch_ingresses_eq is true (put i w).1 apart
          (λ j m. put_others i j w (far j m) ∙ there j (Memᴰ.tail m)) in
      (
        p,
        round i is patched w (there i (Memᴰ.head refl))
            ∙ e
            ∙ ap (λ x. (returned (ok p), x.1)) (sym (next i is w)),
      )

  module _
      (accepts_namespace : (s : K.State) (name : String) (p : Patch) (n : Namespace)
        → K.get_namespace s name ≡ ok n
        → accepted (K.patch_namespace s name p).1 ≡ true) where
    label_idled-IngressesSame :
        (ns m : Namespace) (patched : Bool) (w : World K)
        → K.get_namespace w.cluster ns.name ≡ ok m
        → ((label_idled K L h ns patched w).0 ≡ returned (ok tt))
          × IngressesSame K w (label_idled K L h ns patched w).1
    unfolding label_idled ◌>>=◌ continue count modify patch_namespace on_error pure
    label_idled-IngressesSame ns m false w there = (refl, record { at = λ ns' name. refl })
    label_idled-IngressesSame ns m true w there =
        elim (Option-cases (K.patch_namespace w.cluster ns.name idled_namespace_patch).1) [
          | inl e ↦ (
            rw e,
            record {
              at = λ ns' name.
                  rw e
                    (law.ingress-patch_namespace w.cluster ns.name idled_namespace_patch ns' name);
            },
          )
          | inr (x, e) ↦
              let ok_there = accepts_namespace w.cluster ns.name idled_namespace_patch m there in
              let no : accepted (some x) ≡ true = rw e at ok_there in absurd (cc)
        ]

    patch_all_ingress_eq :
        (ns : Namespace) (w : World K) (reqs : List K.Requirement) (is : List Ingress) (p : Bool)
        (w1 : World K)
        → h.selectors.service.skip_ingress_patch ≡ false
        → generate_label_requirements K h.selectors.service.ingress w ≡ (returned reqs, w)
        → K.list_ingresses w.cluster ns.name (requirements reqs) ≡ ok is
        → patch_ingresses K L h is false w ≡ (returned (ok p), w1)
        → patch_all_ingress K L h ns w ≡ label_idled K L h ns p w1
    unfolding patch_all_ingress ◌>>=◌ continue read gets on_reply
    patch_all_ingress_eq ns w reqs is p w1 skip made listed e = ground arith

    -- The ingresses of a namespace are all routed.
    pub patch_all_ingress_each :
        (ns m : Namespace) (w : World K) (reqs : List K.Requirement) (is : List Ingress)
        → h.selectors.service.skip_ingress_patch ≡ false
        → generate_label_requirements K h.selectors.service.ingress w ≡ (returned reqs, w)
        → K.list_ingresses w.cluster ns.name (requirements reqs) ≡ ok is
        → K.get_namespace w.cluster ns.name ≡ ok m
        → AreApart (ingresses K) is
        → ((i : Ingress) → Memᴰ i is → IsNamed i)
        → AllPresent is w
        → ((patch_all_ingress K L h ns w).0 ≡ returned (ok tt))
          × ((i : Ingress)
              → Memᴰ i is
              → MadeOf (ingresses K) IsNamed RoutedFrom i (patch_all_ingress K L h ns w).1)
    patch_all_ingress_each ns m w reqs is skip made listed there apart named present =
        let (p, e) = patch_ingresses_eq is false w apart present in
        let w1 : World K = (for_each is put w).1 in
        let (returns, kept) =
          label_idled-IngressesSame ns m p w1 (((put-NamespacesSame is).at w).at ns.name ∙ there) in
        rw (patch_all_ingress_eq ns w reqs is p w1 skip made listed e) (
          returns,
          λ i mem.
              made_kept (ingresses K) IsNamed RoutedFrom put put-ActsAt i w1
                (label_idled K L h ns p w1).1
                (makes_each (ingresses K) IsNamed RoutedFrom put put-ActsAt is w apart named present
                  i mem)
                (kept.at i.namespace i.name),
        )
