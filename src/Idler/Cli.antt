-- ===== src/Idler/Cli.antt =====
-- internal/handlers/idler/cli.go and cli-kubernetes.go: the idling of the cli deployments of a
-- namespace. Log lines are left out, but for the nil pointer that one of them reads.
pub mod Walk
pub mod OnlyScales
pub mod Guards
pub mod Processes
pub mod NoPanic
use aergia_controller.Base.{
  ℕ, ◌+◌, String, Bool, true, false, not, ◌&&◌, ◌||◌, Option, none, some, List, [], ◌∷◌, ℤ, pos,
  is_positive, if◌then◌else◌, ◌==◌, lookup, StringMap,
}
use aergia_controller.Strings.Decimal.{atoi}
use aergia_controller.Strings.Trim.{trim_space, last_slice}
use aergia_controller.Kube.{
  Namespace, Container, Deployment, Pod, Patch, Result, ok, err, requirements, matching, Cluster,
}
use aergia_controller.World.{
  Metrics, World, Action, pure, panic, ◌>>=◌, ◌>>◌, for_each, deref, on_reply, on_error,
  patch_deployment, read, count,
}
use aergia_controller.Idler.Config.{Idler}
use aergia_controller.Idler.Helpers.{generate_label_requirements}
use aergia_controller.Idler.Exec.{exec_pod}

-- The loop over the builds, with its `break`.
unfoldable pub has_running_cli_build : List Pod → Bool
has_running_cli_build [] = false
has_running_cli_build (build ∷ builds) = build.phase == "Running" || has_running_cli_build builds

-- The environment of a container, with the `break` of its loop.
unfoldable pub env_has_crons : StringMap → Bool
env_has_crons [] = false
env_has_crons ((name, value) ∷ env) = (name == "CRONJOBS" && not (value == "")) || env_has_crons env

unfoldable pub has_crons : List Container → Bool
unfolding env_has_crons
has_crons [] = false
has_crons (c ∷ cs) = env_has_crons c.env || has_crons cs

-- Whether the number at the end of the output is positive. The source reads the last byte alone.
unfoldable pub is_busy : String → Bool
unfolding atoi
is_busy digit = let (n, parsed) = atoi digit in parsed && is_positive n

abbrev pub process_command : List String
process_command = "/bin/sh" ∷ "-c" ∷ "pgrep -P 0|tail -n +3|wc -l|tr -d ' '" ∷ []

abbrev pub scale_patch : Patch
scale_patch = record { replicas = some (pos 0); labels = []; annotations = [] }

module _ (K : Cluster) (h : Idler) where
  -- The slice panics where nothing is left of the output.
  unfoldable pub last_byte : Option String → Action (World K) String
  last_byte none = panic "slice bounds out of range [-1:]"
  last_byte (some digit) = pure digit

  -- The event is counted also where the patch fails.
  unfoldable pub scale_cli : Deployment → Action (World K) (Unit {0})
  scale_cli d = if h.dry_run then pure tt else do
    patch_deployment K d.namespace d.name scale_patch
    count K (λ m. record m { cli_idle_events = m.cli_idle_events + 1 })

  -- What follows the command: the deployment is scaled where no process is counted.
  unfoldable pub check_processes : Deployment → String × String → Action (World K) (Unit {0})
  check_processes d out = do
    digit ← last_byte (last_slice (trim_space out.0))
    if is_busy digit then pure tt else scale_cli d

  -- One round of the loop and what follows it. An error of the command ends the loop.
  unfoldable pub check_pod :
      String → Deployment → Pod → Action (World K) (Unit {0}) → Action (World K) (Unit {0})
  check_pod ns d pod rest = if h.selectors.cli.skip_process_check then scale_cli d >> rest else do
    r ← read K (λ c. exec_pod K c pod.name ns process_command)
    on_reply r (λ out. check_processes d out >> rest) (λ _. pure tt)

  -- The loop over the pods: the deployment is scaled at each pod without processes.
  unfoldable pub scale_at_pods : String → Deployment → List Pod → Action (World K) (Unit {0})
  scale_at_pods ns d [] = pure tt
  scale_at_pods ns d (pod ∷ pods) = check_pod ns d pod (scale_at_pods ns d pods)

  -- The comparison of two pointers never holds, so no deployment counts as idled; the log line
  -- reads the pointer.
  unfoldable pub check_cli_deployment : String → Deployment → Action (World K) (Unit {0})
  check_cli_deployment ns d = do
    deref d.replicas
    if not h.selectors.cli.skip_cron_check && has_crons d.containers then pure tt else do
      reqs ← generate_label_requirements K h.selectors.cli.pods
      r ← read K (λ c. K.list_pods c (some ns) (requirements reqs))
      on_reply r (scale_at_pods ns d) (λ _. pure tt)

  -- Whether a build runs. If the builds cannot be listed, none does.
  unfoldable pub running_cli_build : String → List K.Requirement → Action (World K) Bool
  running_cli_build ns reqs = if h.selectors.cli.skip_build_check then pure false else do
    r ← read K (λ c. K.list_pods c (some ns) (requirements reqs))
    pure (on_reply r has_running_cli_build (λ _. false))

  unfoldable pub idle_cli_deployments : String → Action (World K) (Unit {0})
  idle_cli_deployments ns = do
    reqs ← generate_label_requirements K h.selectors.cli.deployments
    r ← read K (λ c. K.list_deployments c ns (requirements reqs))
    on_reply r (λ ds. for_each ds (check_cli_deployment ns)) (λ _. pure tt)

  -- `kubernetesCLI`
  unfoldable pub kubernetes_cli : Namespace → Action (World K) (Unit {0})
  kubernetes_cli ns = do
    reqs ← generate_label_requirements K h.selectors.cli.builds
    running ← running_cli_build ns.name reqs
    if running then pure tt else idle_cli_deployments ns.name

  -- Both labels are `1`.
  unfoldable pub is_cli_selected : Namespace → Bool
  is_cli_selected ns =
      let labels = h.selectors.labels in
      elim (lookup labels.project_idling ns.labels) [
        | none ↦ false
        | some project_auto_idle ↦ elim (lookup labels.environment_idling ns.labels) [
          | none ↦ false
          | some environment_auto_idle ↦ environment_auto_idle == "1" && project_auto_idle == "1"
        ]
      ]

  -- `CLIIdler`
  unfoldable pub cli_idler : Action (World K) (Unit {0})
  cli_idler = do
    reqs ← generate_label_requirements K h.selectors.cli.namespace
    r ← read K (λ c. K.list_namespaces c (requirements reqs))
    on_reply r
        (λ nss. for_each nss (λ ns. if is_cli_selected ns then kubernetes_cli ns else pure tt))
        (λ _. pure tt)
