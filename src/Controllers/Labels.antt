-- ===== src/Controllers/Labels.antt =====
-- The label that asked for an action, after it.
use mathlib.Core.Option.{some-injective}
use aergia_controller.Base.{
  String, ◌≡◌, ◌≢◌, refl, sym, ◌∙◌, Bool, true, false, ◌&&◌, Option, none, some, ◌⊎◌, inl, inr,
  if◌then◌else◌, ◌==◌, ==_refl, lookup, lookup-erase,
}
use aergia_controller.Stdlib.{Stdlib}
use aergia_controller.Kube.{Namespace, Patch, Result, ok, err, Cluster}
use aergia_controller.Kube.Lawful.{IsLawful, merge, merge_namespace, on_ok, accepted}
use aergia_controller.World.{
  World, Outcome, returned, panicked, Action, pure, continue, gets, ◌>>=◌, on_reply,
  patch_namespace, read,
}
use aergia_controller.Idler.Config.{Idler}
use aergia_controller.Controllers.{
  remove_label_patch, act_and_remove_label, reconcile_namespace, reconcile,
}
use aergia_controller.Unidler.Unidle.{is_true}

merged_eq : (m n : Namespace) → ok m ≡ ok n → m ≡ n
merged_eq m n e = cc

-- What a namespace asks for: a forced scaling before a forced idling before an unidling.
abbrev pub asked : Namespace → Option String
asked ns =
    if is_true (lookup "idling.amazee.io/force-scaled" ns.labels)
    then some "idling.amazee.io/force-scaled"
    else if is_true (lookup "idling.amazee.io/force-idled" ns.labels)
    then some "idling.amazee.io/force-idled"
    else if is_true (lookup "idling.amazee.io/unidle" ns.labels)
    then some "idling.amazee.io/unidle"
    else none

module _ (K : Cluster) (law : IsLawful K)
    (accepts : (s : K.State) (name : String) (p : Patch) (ns : Namespace)
      → K.get_namespace s name ≡ ok ns
      → accepted (K.patch_namespace s name p).1 ≡ true) where
  -- What is read after the removal of a label lacks it.
  abbrev pub Lacks : String → K.State → String → Type 0
  Lacks label s name =
      (ns : Namespace) → K.get_namespace s name ≡ ok ns → lookup label ns.labels ≡ none

  lookup-remove_label :
      (label : String) (ns : Namespace)
      → lookup label (merge_namespace (remove_label_patch label) ns).labels ≡ none
  unfolding merge
  lookup-remove_label label ns = rw (lookup-erase label label ns.labels, ==_refl label)

  label_of_merged :
      (label : String) (r : Result Namespace) (ns : Namespace)
      → on_ok (merge_namespace (remove_label_patch label)) r ≡ ok ns
      → lookup label ns.labels ≡ none
  label_of_merged label (ok m) ns e =
      let none_there = lookup-remove_label label m in
      rw (sym (merged_eq (merge_namespace (remove_label_patch label) m) ns e)) none_there
  label_of_merged label (err x) ns e = cc

  gone :
      (b : Bool) (x : String) (ns : Namespace) (f : Namespace → Namespace)
      → (if b then on_ok f (err x) else err x) ≢ ok ns
  gone true x ns f e = cc
  gone false x ns f e = cc

  pub removed-Lacks :
      (label name : String) (s : K.State)
      → Lacks label (K.patch_namespace s name (remove_label_patch label)).0 name
  removed-Lacks label name s ns e = by_reply (K.get_namespace s name) refl
    where
      p : Patch
      p = remove_label_patch label

      by_reply : (r : Result Namespace) → K.get_namespace s name ≡ r → lookup label ns.labels ≡ none
      by_reply (ok m) f = label_of_merged label (K.get_namespace s name) ns (
          sym
            (law.namespace-patch_namespace s name p name ∙ rw (accepts s name p m f, ==_refl name))
          ∙ e)
      by_reply (err x) f = absurd (
          gone (accepted (K.patch_namespace s name p).1 && name == name) x ns (merge_namespace p)
            (sym (law.namespace-patch_namespace s name p name ∙ rw f) ∙ e))

  -- A panic, or no error and the label gone.
  abbrev pub IsDone : String → String → Outcome (Option String) × World K → Type 0
  IsDone label name y =
      ((e : String) × (y.0 ≡ panicked e)) ⊎ ((y.0 ≡ returned none) × Lacks label y.1.cluster name)

  -- After an action.
  act_and_remove_label-IsDone :
      (L : Stdlib) (h : Idler) (ns : Namespace) (label : String) (act : Action (World K) (Unit {0}))
      (w : World K)
      → IsDone label ns.name (act_and_remove_label K L h ns label act w)
  unfolding act_and_remove_label ◌>>=◌ continue pure patch_namespace
  act_and_remove_label-IsDone L h ns label act w = by_outcome (act w).0 (act w).1
    where
      by_outcome :
          (o : Outcome (Unit {0})) (w1 : World K)
          → let (r, w') =
              continue {B = Option String} o
                (λ _. patch_namespace K ns.name (remove_label_patch label) >>= λ _. pure none)
                w1 in
            ((e : String) × (r ≡ panicked e))
            ⊎ ((r ≡ returned none) × Lacks label w'.cluster ns.name)
      by_outcome (returned _) w1 = inr (refl, removed-Lacks label ns.name w1.cluster)
      by_outcome (panicked e) w1 = inl (e, refl)

  -- The first test that holds chooses the label and the action.
  IsDone-of_asked :
      (a b c : Bool) (k l m : String) (x y z : Action (World K) (Option String))
      (name label : String) (w : World K)
      → IsDone k name (x w)
      → IsDone l name (y w)
      → IsDone m name (z w)
      → (if a then some k else if b then some l else if c then some m else none) ≡ some label
      → IsDone label name ((if a then x else if b then y else if c then z else pure none) w)
  IsDone-of_asked true b c k l m x y z name label w p q r e = rw (sym (some-injective k label e)) p
  IsDone-of_asked false true c k l m x y z name label w p q r e =
      rw (sym (some-injective l label e)) q
  IsDone-of_asked false false true k l m x y z name label w p q r e =
      rw (sym (some-injective m label e)) r
  IsDone-of_asked false false false k l m x y z name label w p q r e = cc

  reconcile_namespace-IsDone :
      (L : Stdlib) (h : Idler) (ns : Namespace) (label : String) (w : World K)
      → asked ns ≡ some label
      → IsDone label ns.name (reconcile_namespace K L h ns w)
  unfolding reconcile_namespace
  reconcile_namespace-IsDone L h ns label w e =
      IsDone-of_asked (is_true (lookup "idling.amazee.io/force-scaled" ns.labels))
        (is_true (lookup "idling.amazee.io/force-idled" ns.labels))
        (is_true (lookup "idling.amazee.io/unidle" ns.labels)) _ _ _ _ _ _ ns.name label w
        (act_and_remove_label-IsDone L h ns _ _ w) (act_and_remove_label-IsDone L h ns _ _ w)
        (act_and_remove_label-IsDone L h ns _ _ w) e

  -- Over a lawful cluster, where no patch of a namespace that exists is refused, the reconciling of
  -- a namespace that asks for an action panics, or gives no error and the label that asked is gone
  -- from the namespace, whatever went wrong in the action. Of several labels a forced scaling comes
  -- before a forced idling before an unidling.
  pub reconcile-IsDone :
      (L : Stdlib) (h : Idler) (name : String) (ns : Namespace) (label : String) (w : World K)
      → K.get_namespace w.cluster name ≡ ok ns
      → asked ns ≡ some label
      → IsDone label name (reconcile K L h name w)
  unfolding reconcile ◌>>=◌ read gets continue on_reply
  reconcile-IsDone L h name ns label w e a =
      rw e (rw (sym (law.named w.cluster name ns e)) (reconcile_namespace-IsDone L h ns label w a))
