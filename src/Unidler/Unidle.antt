-- ===== src/Unidler/Unidle.antt =====
-- `Unidle` of internal/handlers/unidler/unidler.go. Log lines are left out, but for the nil pointer
-- that one of them reads.
pub mod RoundTrip
pub mod Walk
pub mod Locks
pub mod OnlyUnidles
pub mod EachUnidled
pub mod Bounds
pub mod NoPanic
pub mod Ingresses
use aergia_controller.Base.{
  ◌+◌, String, Bool, true, false, not, ◌&&◌, Option, none, some, List, [], ◌∷◌, ℤ, pos, is_zero,
  is_positive, ◌==◌, if◌then◌else◌, lookup,
}
use aergia_controller.Strings.Decimal.{atoi}
use aergia_controller.Kube.{Namespace, Deployment, Patch, requirements, Cluster}
use aergia_controller.World.{
  Metrics, World, Outcome, Action, pure, ◌>>=◌, ◌>>◌, for_each, deref, on_reply, patch_namespace,
  patch_deployment, poll, read, count,
}
use aergia_controller.Unidler.Checks.{has_running_pod, remove_code_from_ingress}

-- The number of the annotation, if it is one and positive, or else 1.
unfoldable pub new_replicas : Option String → ℤ
unfolding atoi
new_replicas none = pos 1
new_replicas (some value) =
    let (unidle_replicas, parsed) = atoi value in
    if parsed && is_positive unidle_replicas then unidle_replicas else pos 1

unfoldable pub unidle_deployment_patch : ℤ → Patch
unidle_deployment_patch n = record {
  replicas = some n;
  labels =
      ("idling.amazee.io/idled", some "false")
      ∷ ("idling.amazee.io/force-idled", none)
      ∷ ("idling.amazee.io/force-scaled", none)
      ∷ [];
  annotations = ("idling.amazee.io/idled-at", none) ∷ [];
}

abbrev pub unidled_namespace_patch : Patch
unidled_namespace_patch = record {
  replicas = none;
  labels = ("idling.amazee.io/idled", some "false") ∷ [];
  annotations = [];
}

abbrev pub is_true : Option String → Bool
is_true none = false
is_true (some v) = v == "true"

-- `sync.Map.Delete`
unfoldable pub remove_lock : String → List String → List String
remove_lock k [] = []
remove_lock k (l ∷ ls) = let rest = remove_lock k ls in if l == k then rest else l ∷ rest

module _ (K : Cluster) where
  -- `defer`: the lock goes whether the body returns or panics.
  unfoldable pub defer_unlock : {A : Type 0} → String → Action (World K) A → Action (World K) A
  defer_unlock name body w =
      let (r, w') = body w in (r, record w' { locks = remove_lock name w'.locks })

  -- An error of the patch is logged, and the loop goes on.
  unfoldable pub unidle_deployment : Deployment → Action (World K) (Unit {0})
  unidle_deployment d =
      if not (is_true (lookup "idling.amazee.io/idled" d.labels)) then pure tt else do
        n ← deref d.replicas
        if not (is_zero n) then pure tt else do
          patch_deployment K d.namespace d.name (
              unidle_deployment_patch
                (new_replicas (lookup "idling.amazee.io/unidle-replicas" d.annotations)))
          pure tt

  -- An error, that of the time over included, is logged, and the loop goes on.
  unfoldable pub wait_for_pods : String → Deployment → Action (World K) (Unit {0})
  wait_for_pods ns d = do poll K (has_running_pod K ns d.name); pure tt

  -- What follows the scaling of the deployments.
  unfoldable pub finish_unidle : Namespace → List Deployment → Action (World K) (Unit {0})
  finish_unidle ns ds = do
    for_each ds (wait_for_pods ns.name)
    remove_code_from_ingress K ns.name
    count K (λ m. record m { unidle_events = m.unidle_events + 1 })
    patch_namespace K ns.name unidled_namespace_patch
    pure tt

  -- What follows where the deployments could be listed.
  unfoldable pub unidle_all : Namespace → List Deployment → Action (World K) (Unit {0})
  unidle_all ns ds = do for_each ds unidle_deployment; finish_unidle ns ds

  -- The body of `Unidle`.
  unfoldable pub unidle_watched : Namespace → Action (World K) (Unit {0})
  unidle_watched ns = do
    requirement ← deref (K.new_requirement "idling.amazee.io/watch" "=" ("true" ∷ []))
    r ← read K (λ c. K.list_deployments c ns.name (requirements (requirement ∷ [])))
    on_reply r (unidle_all ns) (λ _. pure tt)

  -- `Unidle`, with the deferred `Delete` of the lock.
  unfoldable pub unidle : Namespace → Action (World K) (Unit {0})
  unidle ns = defer_unlock ns.name (unidle_watched ns)
