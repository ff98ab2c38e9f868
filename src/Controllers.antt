-- ===== src/Controllers.antt =====
-- internal/controllers: the reconciler of the namespaces and its event filter. Log lines are left
-- out.
pub mod Errors
pub mod Labels
pub mod Walk
pub mod Acts
pub mod Unidles
pub mod Idles
pub mod Restores
use aergia_controller.Base.{
  String, Bool, true, false, Option, none, some, List, [], ◌∷◌, if◌then◌else◌, lookup, value_at,
}
use aergia_controller.Stdlib.{Stdlib}
use aergia_controller.Kube.{Namespace, Patch, Cluster}
use aergia_controller.World.{World, Action, pure, ◌>>=◌, ◌>>◌, on_reply, patch_namespace, read}
use aergia_controller.Idler.Config.{Idler}
use aergia_controller.Idler.Service.{kubernetes_service_idler}
use aergia_controller.Unidler.Unidle.{is_true, unidle}

-- `NamespacePredicates`: every event passes.
pub data Event : Type 0 where
  create delete update generic : Event

unfoldable pub passes : Event → Bool
passes create = true
passes delete = true
passes update = true
passes generic = true

-- `SetupWithManager`: the namespace of an event that passes the filter is reconciled.
unfoldable pub watch : Event → String → Option String
unfolding passes
watch e name = if passes e then some name else none

-- The removal of a label.
abbrev pub remove_label_patch : String → Patch
remove_label_patch label = record { replicas = none; labels = (label, none) ∷ []; annotations = [] }

module _ (K : Cluster) (L : Stdlib) (h : Idler) where
  unfoldable pub ignore_not_found : String → Option String
  ignore_not_found e = if K.is_not_found e then none else some e

  -- The label goes after the action; an error of the patch is logged.
  unfoldable pub act_and_remove_label :
      Namespace → String → Action (World K) (Unit {0}) → Action (World K) (Option String)
  act_and_remove_label ns label act = do
    act
    patch_namespace K ns.name (remove_label_patch label)
    pure none

  abbrev project : Namespace → String
  project ns = value_at h.selectors.labels.project_name ns.labels

  -- What the labels of the namespace ask for, the first of them alone.
  unfoldable pub reconcile_namespace : Namespace → Action (World K) (Option String)
  reconcile_namespace ns =
      if is_true (lookup "idling.amazee.io/force-scaled" ns.labels)
      then act_and_remove_label ns "idling.amazee.io/force-scaled"
          (kubernetes_service_idler K L h ns (project ns) false true)
      else if is_true (lookup "idling.amazee.io/force-idled" ns.labels)
      then act_and_remove_label ns "idling.amazee.io/force-idled"
          (kubernetes_service_idler K L h ns (project ns) true false)
      else if is_true (lookup "idling.amazee.io/unidle" ns.labels)
      then act_and_remove_label ns "idling.amazee.io/unidle" (unidle K ns)
      else pure none

  -- `Reconcile`, with its error.
  unfoldable pub reconcile : String → Action (World K) (Option String)
  reconcile name = do
    r ← read K (λ c. K.get_namespace c name)
    on_reply r reconcile_namespace (λ e. pure (ignore_not_found e))
