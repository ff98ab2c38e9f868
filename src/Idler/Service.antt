-- ===== src/Idler/Service.antt =====
-- internal/handlers/idler/service.go and service-kubernetes.go: the idling of the deployments of a
-- namespace. Log lines are left out, but for the nil pointer that one of them reads.
pub mod Walk
pub mod DryRun
pub mod Guards
pub mod OnlyIdles
pub mod EachIdled
pub mod Refused
pub mod Young
pub mod NoPanic
pub mod Ingresses
pub mod Forced
use aergia_controller.Base.{
  ℕ, ◌+◌, ◌-◌, ◌%◌, ◌^◌, String, ◌<>◌, Bool, true, false, not, ◌&&◌, ◌||◌, Option, none, some, List,
  [], ◌∷◌, ℤ, pos, negsuc, sub_ℕ, is_positive, lt_ℤ, eqb, if◌then◌else◌, ◌==◌, lookup, value_at,
}
use aergia_controller.Strings.Dashes.{collapse_dashes}
use aergia_controller.Strings.Decimal.{itoa, atoi}
use aergia_controller.Stdlib.{Stdlib}
use aergia_controller.Kube.{
  Namespace, Deployment, Pod, Ingress, Changes, Patch, Result, ok, err, requirements, matching,
  PromValue, vector, other, Cluster,
}
use aergia_controller.World.{
  Metrics, World, Action, pure, ◌>>=◌, ◌>>◌, for_each, deref, on_reply, on_error, patch_namespace,
  patch_deployment, patch_ingress, read, count,
}
use aergia_controller.Idler.Config.{Idler}
use aergia_controller.Idler.Helpers.{generate_label_requirements, add_status_code}
use aergia_controller.Idler.Checks.{
  interval_override, has_running_build, mark_idle, add_hits, nginx_query, traefik_query,
}
use aergia_controller.Idler.Patches.{
  idle_deployment_patch, idle_ingress_patch, idled_namespace_patch,
}

module _ (K : Cluster) (L : Stdlib) (h : Idler) where
  unfoldable pub idle_deployment : Bool → Bool → Deployment → Action (World K) (Unit {0})
  idle_deployment force_idle force_scale d = if h.dry_run then pure tt else do
    n ← deref d.replicas
    at ← read K K.timestamp
    patch_deployment K d.namespace d.name (idle_deployment_patch n at force_idle force_scale)
    pure tt

  unfoldable pub idle_deployments : List Deployment → Bool → Bool → Action (World K) (Unit {0})
  idle_deployments ds force_idle force_scale = for_each ds (idle_deployment force_idle force_scale)

  -- The loop over the ingresses, with whether one was patched. It ends at the first error.
  unfoldable pub patch_ingresses : List Ingress → Bool → Action (World K) (Result Bool)
  patch_ingresses [] patched = pure (ok patched)
  patch_ingresses (i ∷ is) patched =
      let skip = patch_ingresses is patched in
      let next = patch_ingresses is true in
      if h.dry_run then skip else do
        e ← patch_ingress K i.namespace i.name (idle_ingress_patch i)
        on_error e (λ _. pure (err ("error patching ingress " <> i.name))) next

  -- The namespace is labelled if an ingress was patched.
  unfoldable pub label_idled : Namespace → Bool → Action (World K) (Result (Unit {0}))
  label_idled ns patched = if not patched then pure (ok tt) else do
    count K (λ m. record m { service_idle_events = m.service_idle_events + 1 })
    e ← patch_namespace K ns.name idled_namespace_patch
    on_error e (λ _. pure (err ("error patching namespace " <> ns.name))) (pure (ok tt))

  -- `patchIngress`
  unfoldable pub patch_all_ingress : Namespace → Action (World K) (Result (Unit {0}))
  patch_all_ingress ns = if h.selectors.service.skip_ingress_patch then pure (ok tt) else do
    reqs ← generate_label_requirements K h.selectors.service.ingress
    r ← read K (λ c. K.list_ingresses c ns.name (requirements reqs))
    on_reply r
        (λ is. do p ← patch_ingresses is false; on_reply p (label_idled ns) (λ e. pure (err e)))
        (λ _. pure (err "error getting ingress"))

  -- The loop over the deployments, with the idle flag before it. The source compares the pointer
  -- `Replicas` with that of a new variable, and two pointers to different variables are never
  -- equal: it looks at the pods of every deployment. The log line reads the pointer.
  -- An error ends the loop and keeps the flag.
  unfoldable pub check_deployments : String → ℤ → List Deployment → Bool → Action (World K) Bool
  check_deployments ns interval [] idle = pure idle
  check_deployments ns interval (d ∷ ds) idle =
      let next = check_deployments ns interval ds in
      do
        deref d.replicas
        r ←
            read K
              (λ c. K.list_pods c (some ns) (matching ((h.selectors.service_name, d.name) ∷ [])))
        now ← read K K.now
        on_reply r (λ pods. next (mark_idle interval now idle pods)) (λ _. pure idle)

  -- The hits of both ingress controllers.
  unfoldable pub count_hits : String → ℤ → Action (World K) (Result ℕ)
  count_hits ns interval = do
    r ← read K (λ c. K.query c (nginx_query ns (L.duration_string interval)))
    on_reply r
        (λ v. do
          r2 ← read K (λ c. K.query c (traefik_query ns (L.duration_string interval)))
          on_reply r2 (λ v2. pure (ok (add_hits (add_hits 0 v) v2))) (λ e. pure (err e)))
        (λ e. pure (err e))

  -- The ingresses first: without their annotations the environment would never be unidled.
  unfoldable pub patch_and_idle :
      Namespace → List Deployment → Bool → Bool → Action (World K) (Unit {0})
  patch_and_idle ns ds force_idle force_scale = do
    r ← patch_all_ingress ns
    on_reply r (λ _. idle_deployments ds force_idle force_scale) (λ _. pure tt)

  -- The check of the hits, which a forced action leaves out.
  unfoldable pub idle_if_no_hits :
      Namespace → ℤ → List Deployment → Bool → Bool → Action (World K) (Unit {0})
  idle_if_no_hits ns interval ds force_idle force_scale =
      if h.selectors.service.skip_hit_check || force_idle || force_scale
      then patch_and_idle ns ds force_idle force_scale
      else do
        r ← count_hits ns.name interval
        on_reply r
            (λ hits. if eqb hits 0 then patch_and_idle ns ds force_idle force_scale else pure tt)
            (λ _. pure tt)

  -- What follows where no build runs.
  unfoldable pub idle_environment : Namespace → ℤ → ℤ → Bool → Bool → Action (World K) (Unit {0})
  idle_environment ns pod_interval prometheus_interval force_idle force_scale = do
    reqs ← generate_label_requirements K h.selectors.service.deployments
    r ← read K (λ c. K.list_deployments c ns.name (requirements reqs))
    on_reply r
        (λ ds. do
          idle ← check_deployments ns.name pod_interval ds false
          if idle || force_idle || force_scale
              then idle_if_no_hits ns prometheus_interval ds force_idle force_scale
              else pure tt)
        (λ _. pure tt)

  -- Whether a build runs or waits. If the builds cannot be listed, none does.
  unfoldable pub running_build : String → List K.Requirement → Action (World K) Bool
  running_build ns reqs = if h.selectors.service.skip_build_check then pure false else do
    r ← read K (λ c. K.list_pods c (some ns) (requirements reqs))
    pure (on_reply r has_running_build (λ _. false))

  -- `KubernetesServiceIdler`. The name of the project is not used.
  unfoldable pub kubernetes_service_idler :
      Namespace → String → Bool → Bool → Action (World K) (Unit {0})
  kubernetes_service_idler ns lagoon_project force_idle force_scale = do
    reqs ← generate_label_requirements K h.selectors.service.builds
    let pod_interval =
        interval_override L h.pod_check_interval
          (lookup "idling.amazee.io/pod-interval" ns.annotations)
    let prometheus_interval =
        interval_override L h.prometheus_check_interval
          (lookup "idling.amazee.io/prometheus-interval" ns.annotations)
    running ← running_build ns.name reqs
    if running
        then pure tt
        else idle_environment ns pod_interval prometheus_interval force_idle force_scale

  -- Both labels are `1`, and the label of the type is there.
  unfoldable pub is_selected : Namespace → Bool
  is_selected ns =
      let labels = h.selectors.labels in
      elim (lookup labels.project_idling ns.labels) [
        | none ↦ false
        | some project_auto_idle ↦ elim (lookup labels.environment_idling ns.labels) [
          | none ↦ false
          | some environment_auto_idle ↦ elim (lookup labels.environment_type ns.labels) [
            | none ↦ false
            | some _ ↦ environment_auto_idle == "1" && project_auto_idle == "1"
          ]
        ]
      ]

  -- `ServiceIdler`
  unfoldable pub service_idler : Action (World K) (Unit {0})
  service_idler = do
    reqs ← generate_label_requirements K h.selectors.service.namespace
    r ← read K (λ c. K.list_namespaces c (requirements reqs))
    on_reply r
        (λ nss. for_each nss (λ ns.
          if is_selected ns
          then kubernetes_service_idler ns (value_at h.selectors.labels.project_name ns.labels)
              false false
          else pure tt))
        (λ _. pure tt)
