-- ===== src/Idler/Cli/Walk.antt =====
-- One walk through the cli idler: what the scaling of a deployment keeps, the whole of it keeps.
use aergia_controller.Base.{String, Option, none, some, List, [], ◌∷◌}
use aergia_controller.Kube.{Namespace, Deployment, Pod, Cluster}
use aergia_controller.World.{World, Action, pure, ◌>>=◌}
use aergia_controller.World.Keeps.{
  IsPreorder, Keeps, Keeps-pure, Keeps-panic, Keeps-deref, Keeps-bind, Keeps-for_each, Keeps-if,
  Keeps-on_reply,
}
use aergia_controller.Idler.Config.{Idler}
use aergia_controller.Idler.Service.Walk.{Keeps-read, generate-Keeps}
use aergia_controller.Idler.Cli.{
  last_byte, scale_cli, check_processes, check_pod, scale_at_pods, check_cli_deployment,
  running_cli_build, idle_cli_deployments, kubernetes_cli, cli_idler,
}

module _ (K : Cluster) (h : Idler) {R : World K → World K → Type 0} (P : IsPreorder R)
    (keeps_scale : (d : Deployment) → Keeps R (scale_cli K h d)) where
  last_byte-Keeps : (o : Option String) → Keeps R (last_byte K h o)
  unfolding last_byte
  last_byte-Keeps none = Keeps-panic P _
  last_byte-Keeps (some digit) = Keeps-pure P _

  check_processes-Keeps :
      (d : Deployment) (out : String × String) → Keeps R (check_processes K h d out)
  unfolding check_processes
  check_processes-Keeps d out =
      search (keeps_scale, last_byte-Keeps, Keeps-pure P, Keeps-bind P, Keeps-if) depth 8

  check_pod-Keeps :
      (ns : String) (d : Deployment) (pod : Pod) (rest : Action (World K) (Unit {0}))
      → Keeps R rest
      → Keeps R (check_pod K h ns d pod rest)
  unfolding check_pod
  check_pod-Keeps ns d pod rest kept =
      Keeps-if h.selectors.cli.skip_process_check _ _
        (λ _. Keeps-bind P (scale_cli K h d) (λ _. rest) (keeps_scale d) (λ _. kept))
        (λ _. Keeps-bind P _ _ (Keeps-read K P _) λ r.
          Keeps-on_reply r (λ out. check_processes K h d out >>= λ _. rest) (λ _. pure tt)
            (λ out. Keeps-bind P _ (λ _. rest) (check_processes-Keeps d out) (λ _. kept))
            (λ _. Keeps-pure P tt))

  scale_at_pods-Keeps :
      (ns : String) (d : Deployment) (pods : List Pod) → Keeps R (scale_at_pods K h ns d pods)
  unfolding scale_at_pods
  scale_at_pods-Keeps ns d [] = Keeps-pure P _
  scale_at_pods-Keeps ns d (pod ∷ pods) =
      check_pod-Keeps ns d pod (scale_at_pods K h ns d pods) (scale_at_pods-Keeps ns d pods)

  pub check_cli_deployment-Keeps :
      (ns : String) (d : Deployment) → Keeps R (check_cli_deployment K h ns d)
  unfolding check_cli_deployment
  check_cli_deployment-Keeps ns d =
      search
        (
          scale_at_pods-Keeps,
          generate-Keeps K P,
          Keeps-read K P,
          Keeps-deref P,
          Keeps-pure P,
          Keeps-bind P,
          Keeps-if,
          Keeps-on_reply,
        )
        depth 12

  running_cli_build-Keeps :
      (ns : String) (reqs : List K.Requirement) → Keeps R (running_cli_build K h ns reqs)
  unfolding running_cli_build
  running_cli_build-Keeps ns reqs =
      search (Keeps-pure P, Keeps-read K P, Keeps-bind P, Keeps-if) depth 9

  idle_cli_deployments-Keeps : (ns : String) → Keeps R (idle_cli_deployments K h ns)
  unfolding idle_cli_deployments
  idle_cli_deployments-Keeps ns =
      search
        (
          check_cli_deployment-Keeps,
          generate-Keeps K P,
          Keeps-read K P,
          Keeps-pure P,
          Keeps-bind P,
          Keeps-for_each P,
          Keeps-on_reply,
        )
        depth 12

  pub kubernetes_cli-Keeps : (ns : Namespace) → Keeps R (kubernetes_cli K h ns)
  unfolding kubernetes_cli
  kubernetes_cli-Keeps ns =
      search
        (
          idle_cli_deployments-Keeps,
          running_cli_build-Keeps,
          generate-Keeps K P,
          Keeps-pure P,
          Keeps-bind P,
          Keeps-if,
        )
        depth 12

  pub cli_idler-Keeps : Keeps R (cli_idler K h)
  unfolding cli_idler
  cli_idler-Keeps =
      search
        (
          kubernetes_cli-Keeps,
          generate-Keeps K P,
          Keeps-read K P,
          Keeps-pure P,
          Keeps-bind P,
          Keeps-for_each P,
          Keeps-if,
          Keeps-on_reply,
        )
        depth 12
