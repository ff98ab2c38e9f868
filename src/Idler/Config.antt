-- ===== src/Idler/Config.antt =====
-- The types of internal/handlers/idler/handler.go: the configuration of the idler.
use aergia_controller.Base.{String, Bool, List, ℤ}

pub record IdlerSelector : Type 0 where
  pub name : String
  pub operator : String
  pub values : List String

pub record NamespaceSelectorsLabels : Type 0 where
  pub project_name : String
  pub environment_name : String
  pub project_idling : String
  pub environment_idling : String
  pub environment_type : String

pub record Cli : Type 0 where
  pub skip_build_check : Bool
  pub skip_cron_check : Bool
  pub skip_process_check : Bool
  pub namespace : List IdlerSelector
  pub builds : List IdlerSelector
  pub deployments : List IdlerSelector
  pub pods : List IdlerSelector

pub record Service : Type 0 where
  pub skip_build_check : Bool
  pub skip_hit_check : Bool
  pub skip_ingress_patch : Bool
  pub namespace : List IdlerSelector
  pub builds : List IdlerSelector
  pub deployments : List IdlerSelector
  pub pods : List IdlerSelector
  pub ingress : List IdlerSelector

-- `Data`, the content of the selectors file.
pub record Selectors : Type 0 where
  pub labels : NamespaceSelectorsLabels
  pub service_name : String
  pub cli : Cli
  pub service : Service

-- The clients and the logger are no part of it.
pub record Idler : Type 0 where
  pub pod_check_interval : ℤ
  pub dry_run : Bool
  pub debug : Bool
  pub selectors : Selectors
  pub prometheus_check_interval : ℤ
