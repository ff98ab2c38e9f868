-- ===== src/Main/Settings.antt =====
-- When the program starts and what it starts with.
use aergia_controller.Base.{ℕ, String, ◌<>◌, ◌≡◌, ◌↔◌, none, some, ◌⊎◌, arith}
use aergia_controller.Stdlib.{Stdlib}
use aergia_controller.Kube.{err}
use aergia_controller.Options.{Flags, Variables, ManagerOptions, metrics_server_options, with_env}
use aergia_controller.Main.{Platform, read_selectors, refused, main}

module _ (L : Stdlib) (P : Platform) (v : Variables) (flags : Flags) where
  abbrev f : Flags
  f = with_env v flags

  abbrev options : ManagerOptions
  options = record {
    metrics = metrics_server_options f;
    leader_election = f.enable_leader_election;
    leader_election_id = "aergia-unidler-leader-election-helper";
  }

  -- One of the things that the program needs is not there.
  abbrev pub HasFault : Type 0
  HasFault =
      ((L.parse_duration f.pod_check_interval ≡ none)
        × (L.parse_duration (f.pod_check_interval <> "h") ≡ none))
      ⊎ (L.parse_duration f.prometheus_check_interval ≡ none)
      ⊎ ((e : String) × (read_selectors P f.selectors_file ≡ err e))
      ⊎ ((e : String) × (P.new_manager options ≡ some e))
      ⊎ ((e : String) × (P.new_client f.prometheus_address ≡ some e))

  -- The program ends before it starts its cron jobs and its server exactly if the interval for pods
  -- is no duration, neither as it is nor as a number of hours, or that for Prometheus is none, or
  -- the selectors cannot be read, or the manager or the client of Prometheus cannot be made; its
  -- status is then 1.
  pub main_refused : (n : ℕ) → (main L P v flags ≡ refused n) ↔ ((n ≡ 1) × HasFault)
  unfolding main
  main_refused n = (λ e. ground arith, λ h. ground arith)
