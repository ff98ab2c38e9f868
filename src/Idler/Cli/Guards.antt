-- ===== src/Idler/Cli/Guards.antt =====
-- When the cli idler leaves a deployment as it is.
use mathlib.Core.List.{Memᴰ}
use aergia_controller.Base.{
  String, ◌≡◌, ◌≢◌, ap, true, false, some, List, [], ◌∷◌, inl, inr, ==_iff, StringMap, arith,
  Option-cases,
}
use aergia_controller.Kube.{Namespace, Container, Deployment, Pod, ok, requirements, Cluster}
use aergia_controller.World.{World, returned, pure, panic, continue, ◌>>=◌, deref, on_reply, read}
use aergia_controller.Idler.Config.{Idler}
use aergia_controller.Idler.Helpers.{generate_label_requirements}
use aergia_controller.Idler.Cli.{
  has_running_cli_build, env_has_crons, has_crons, check_cli_deployment, running_cli_build,
  kubernetes_cli,
}

env_has_crons_mem :
    (env : StringMap) (v : String) → Memᴰ ("CRONJOBS", v) env → v ≢ "" → env_has_crons env ≡ true
unfolding env_has_crons
env_has_crons_mem [] v m h = elim m [ ]
env_has_crons_mem ((n, u) ∷ env) v (Memᴰ.head e) h =
    ground (arith, ap (λ p. p.0) e, ap (λ p. p.1) e, ==_iff n "CRONJOBS", ==_iff u "")
env_has_crons_mem ((n, u) ∷ env) v (Memᴰ.tail m) h = ground (arith, env_has_crons_mem env v m h)

has_crons_mem :
    (cs : List Container) (c : Container) (v : String)
    → Memᴰ c cs
    → Memᴰ ("CRONJOBS", v) c.env
    → v ≢ ""
    → has_crons cs ≡ true
unfolding has_crons
has_crons_mem [] c v m n h = elim m [ ]
has_crons_mem (d ∷ cs) c v (Memᴰ.head e) n h =
    ground (arith, ap Container.env e, env_has_crons_mem c.env v n h)
has_crons_mem (d ∷ cs) c v (Memᴰ.tail m) n h = ground (arith, has_crons_mem cs c v m n h)

running_cli_build_mem :
    (builds : List Pod) (b : Pod)
    → Memᴰ b builds
    → b.phase ≡ "Running"
    → has_running_cli_build builds ≡ true
unfolding has_running_cli_build
running_cli_build_mem [] b m h = elim m [ ]
running_cli_build_mem (c ∷ builds) b (Memᴰ.head e) h =
    ground (arith, ap Pod.phase e, ==_iff c.phase "Running")
running_cli_build_mem (c ∷ builds) b (Memᴰ.tail m) h =
    ground (arith, running_cli_build_mem builds b m h)

module _ (K : Cluster) (h : Idler) where
  -- Unless the check of cron jobs is switched off, a deployment is left as it is by the cli idler
  -- if one of its containers has a variable CRONJOBS that is not empty.
  pub check_cli_deployment_crons :
      (ns : String) (d : Deployment) (w : World K) (c : Container) (v : String)
      → h.selectors.cli.skip_cron_check ≡ false
      → Memᴰ c d.containers
      → Memᴰ ("CRONJOBS", v) c.env
      → v ≢ ""
      → (check_cli_deployment K h ns d w).1 ≡ w
  unfolding check_cli_deployment ◌>>=◌ deref pure panic continue
  check_cli_deployment_crons ns d w c v check m n full =
      let crons = has_crons_mem d.containers c v m n full in
      elim (Option-cases d.replicas) [ inl e ↦ ground arith | inr (k, e) ↦ ground arith ]

  -- Unless the check of builds is switched off, a namespace with a build that runs is left as it is
  -- by the cli idler, if the builds can be listed and their selectors are valid.
  pub kubernetes_cli_build :
      (ns : Namespace) (w : World K) (reqs : List K.Requirement) (builds : List Pod) (b : Pod)
      → h.selectors.cli.skip_build_check ≡ false
      → generate_label_requirements K h.selectors.cli.builds w ≡ (returned reqs, w)
      → K.list_pods w.cluster (some ns.name) (requirements reqs) ≡ ok builds
      → Memᴰ b builds
      → b.phase ≡ "Running"
      → kubernetes_cli K h ns w ≡ (returned tt, w)
  unfolding kubernetes_cli running_cli_build ◌>>=◌ read on_reply
  kubernetes_cli_build ns w reqs builds b check made listed m phase =
      rw (made, check) (rw listed (rw (running_cli_build_mem builds b m phase)))
