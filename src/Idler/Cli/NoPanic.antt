-- ===== src/Idler/Cli/NoPanic.antt =====
-- The panics of the cli idler.
use mathlib.Core.List.{Memᴰ}
use aergia_controller.Base.{String, ◌<>◌, ◌≡◌, Option, none, some, List, [], ◌∷◌, not, ◌&&◌}
use aergia_controller.Strings.Trim.{trim_space, last_slice}
use aergia_controller.Kube.{
  Namespace, Deployment, Pod, Result, ok, err, Selector, requirements, Cluster,
}
use aergia_controller.World.{World, returned, Action, pure, ◌>>=◌, ◌>>◌, on_reply, read, on_error}
use aergia_controller.World.Returns.{
  Returns, Returns-pure, Returns-deref, Returns-bind, Returns-for_each, Returns-if,
  Returns-on_reply, Returns-read, Returns-count, Returns-patch_deployment, Returns-answered,
}
use aergia_controller.Idler.Config.{Idler}
use aergia_controller.Idler.Exec.{exec_pod}
use aergia_controller.Idler.Service.EachIdled.{HasReplicas}
use aergia_controller.Idler.Service.NoPanic.{AreValid, generate-Returns}
use aergia_controller.Idler.Cli.{
  process_command, last_byte, scale_cli, check_processes, check_pod, scale_at_pods, has_crons,
  check_cli_deployment, running_cli_build, idle_cli_deployments, kubernetes_cli, cli_idler,
}

-- Something but spaces is printed.
abbrev pub IsPrinted : String → Type 0
IsPrinted out = (digit : String) × (last_slice (trim_space out) ≡ some digit)

-- No error has come before.
given :
    (a b c d : Option String) (r : Result (String × String)) (out : String × String)
    → on_error a
        (λ e. err ("unable to get config: " <> e))
        (on_error b
          (λ e. err ("unable to create client: " <> e))
          (on_error c
            (λ e. err ("error adding to scheme: " <> e))
            (on_error d
              (λ e. err ("error while creating Executor: " <> e))
              (on_reply r (λ out. ok out) (λ e. err ("error in Stream: " <> e))))))
      ≡ ok out
    → r ≡ ok out
unfolding on_error on_reply
given none none none none (ok x) out e = e
given none none none none (err x) out e = cc
given none none none (some x) r out e = cc
given none none (some x) d r out e = cc
given none (some x) c d r out e = cc
given (some x) b c d r out e = cc

module _ (K : Cluster) (h : Idler)
    (filled : (s : K.State) (ns : String) (sel : Selector K.Requirement) (ds : List Deployment)
      → K.list_deployments s ns sel ≡ ok ds
      → (d : Deployment) → Memᴰ d ds
      → HasReplicas d)
    (printed : (s : K.State) (pod ns : String) (command : List String) (out : String × String)
      → K.stream s pod ns command ≡ ok out
      → IsPrinted out.0) where
  scale_cli-Returns : (d : Deployment) → Returns (scale_cli K h d)
  unfolding scale_cli
  scale_cli-Returns d =
      search (Returns-patch_deployment K, Returns-count K, Returns-pure, Returns-bind, Returns-if)
        depth 9

  check_processes-Returns :
      (d : Deployment) (out : String × String)
      → IsPrinted out.0
      → Returns (check_processes K h d out)
  unfolding check_processes last_byte
  check_processes-Returns d out (digit, e) = rw e (
      Returns-bind _ _ (Returns-pure digit)
        λ digit'. Returns-if _ _ _ (Returns-pure tt) (scale_cli-Returns d))

  -- What the command gives is what the stream gives.
  exec_pod-stream :
      (s : K.State) (pod ns : String) (out : String × String)
      → exec_pod K s pod ns process_command ≡ ok out
      → K.stream s pod ns process_command ≡ ok out
  unfolding exec_pod
  exec_pod-stream s pod ns out e =
      given K.get_config K.new_for_config K.add_to_scheme (K.new_executor pod ns process_command)
        (K.stream s pod ns process_command) out e

  -- The output of the command is one of the cluster.
  executed-Returns :
      (pod ns : String) (f : String × String → Action (World K) (Unit {0}))
      → ((out : String × String) → IsPrinted out.0 → Returns (f out))
      → Returns
          (read K (λ c. exec_pod K c pod ns process_command) >>= λ r. on_reply r f (λ _. pure tt))
  executed-Returns pod ns f kf =
      Returns-answered K (λ c. exec_pod K c pod ns process_command) f (λ _. pure tt)
        (λ s out e. kf out (printed s pod ns process_command out (exec_pod-stream s pod ns out e)))
        (λ _. Returns-pure tt)

  scale_at_pods-Returns :
      (ns : String) (d : Deployment) (pods : List Pod) → Returns (scale_at_pods K h ns d pods)
  unfolding scale_at_pods check_pod
  scale_at_pods-Returns ns d [] = Returns-pure tt
  scale_at_pods-Returns ns d (pod ∷ pods) =
      let rest = scale_at_pods-Returns ns d pods in
      Returns-if h.selectors.cli.skip_process_check _ _
        (Returns-bind _ _ (scale_cli-Returns d) (λ _. rest))
        (executed-Returns pod.name ns
          (λ out. check_processes K h d out >> scale_at_pods K h ns d pods)
          (λ out p. Returns-bind _ _ (check_processes-Returns d out p) (λ _. rest)))

  running-Returns :
      (ns : String) (reqs : List K.Requirement) → Returns (running_cli_build K h ns reqs)
  unfolding running_cli_build
  running-Returns ns reqs = search (Returns-pure, Returns-read K, Returns-bind, Returns-if) depth 9

  module _ (pods : AreValid K h.selectors.cli.pods)
      (deployments : AreValid K h.selectors.cli.deployments)
      (builds : AreValid K h.selectors.cli.builds) where
    check_cli_deployment-Returns :
        (ns : String) (d : Deployment) → HasReplicas d → Returns (check_cli_deployment K h ns d)
    unfolding check_cli_deployment
    check_cli_deployment-Returns ns d (n, e) = Returns-bind _ _ (Returns-deref d.replicas n e) λ _.
        Returns-if (not h.selectors.cli.skip_cron_check && has_crons d.containers) _ _
          (Returns-pure tt)
          (Returns-bind _ _ (generate-Returns K h.selectors.cli.pods pods) λ reqs.
            Returns-bind _ _ (Returns-read K _)
              λ r. Returns-on_reply r _ _ (scale_at_pods-Returns ns d) (λ _. Returns-pure tt))

    idle_cli_deployments-Returns : (ns : String) → Returns (idle_cli_deployments K h ns)
    unfolding idle_cli_deployments
    idle_cli_deployments-Returns ns =
        Returns-bind _ _ (generate-Returns K h.selectors.cli.deployments deployments) λ reqs.
          Returns-answered K (λ c. K.list_deployments c ns (requirements reqs)) _ _
            (λ c ds e.
              Returns-for_each ds _ (λ d m.
                check_cli_deployment-Returns ns d (filled c ns (requirements reqs) ds e d m)))
            (λ _. Returns-pure tt)

    kubernetes_cli-Returns : (ns : Namespace) → Returns (kubernetes_cli K h ns)
    unfolding kubernetes_cli
    kubernetes_cli-Returns ns =
        Returns-bind _ _ (generate-Returns K h.selectors.cli.builds builds) λ reqs.
          Returns-bind _ _ (running-Returns ns.name reqs) λ running.
            Returns-if running _ _ (Returns-pure tt) (idle_cli_deployments-Returns ns.name)

    -- A pass of the cli idler returns and does not panic, whatever else the cluster answers, if
    -- every selector that it is configured with is valid, every deployment that the cluster lists
    -- has a number of replicas, and every command that is run in a pod prints something but spaces.
    pub cli_idler-Returns :
        AreValid K h.selectors.cli.namespace → (w : World K) → (cli_idler K h w).0 ≡ returned tt
    unfolding cli_idler
    cli_idler-Returns namespaces w =
        let whole : Returns (cli_idler K h) =
          Returns-bind _ _ (generate-Returns K h.selectors.cli.namespace namespaces) λ reqs.
            Returns-bind _ _ (Returns-read K _) λ r.
              Returns-on_reply r _ _
                (λ nss.
                  Returns-for_each nss _
                    (λ ns _. Returns-if _ _ _ (kubernetes_cli-Returns ns) (Returns-pure tt)))
                (λ _. Returns-pure tt) in
        (whole.at w).1
