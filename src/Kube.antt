-- ===== src/Kube.antt =====
-- The Kubernetes objects that the program reads and patches, with the fields it uses, and all that
-- it calls and does not implement: the API server behind controller-runtime's client, Prometheus,
-- the clock, the poll loop of apimachinery and the exec of a command in a pod.
pub mod Lawful
use aergia_controller.Base.{
  ℕ, String, Bool, Option, none, some, List, [], ◌∷◌, ℤ, StringMap, insert, erase,
}

pub record Namespace : Type 0 where
  pub name : String
  pub labels : StringMap
  pub annotations : StringMap

-- A container of a pod template, with its environment.
pub record Container : Type 0 where
  pub env : StringMap

-- `replicas` is a pointer. `match_labels` is `Spec.Selector.MatchLabels`: the selector is a pointer
-- too, which the API server requires, and is taken as always there.
pub record Deployment : Type 0 where
  pub namespace : String
  pub name : String
  pub labels : StringMap
  pub annotations : StringMap
  pub replicas : Option ℤ
  pub match_labels : StringMap
  pub containers : List Container

-- `start_time` is in nanoseconds.
pub record Pod : Type 0 where
  pub namespace : String
  pub name : String
  pub phase : String
  pub start_time : Option ℕ

-- `hosts` are the hosts of the rules.
pub record Ingress : Type 0 where
  pub namespace : String
  pub name : String
  pub labels : StringMap
  pub annotations : StringMap
  pub hosts : List String

-- The members of a JSON object in a merge patch. `none` is null.
abbrev pub Changes : Type 0
Changes = List (String × Option String)

-- The merge patches that the program sends.
pub record Patch : Type 0 where
  pub replicas : Option ℤ
  pub labels : Changes
  pub annotations : Changes

pub data Result {ℓ} (A : Type ℓ) : Type ℓ where
  ok : A → Result A
  err : String → Result A

-- Which objects of a list are asked for.
pub data Selector (R : Type 0) : Type 0 where
  requirements : List R → Selector R
  matching : StringMap → Selector R

-- A value of Prometheus: a vector, by the texts of its samples' values, or of another type.
pub data PromValue : Type 0 where
  vector : List String → PromValue
  other : PromValue

-- A patch gives the new state, and an error if it failed. The fields from `get_config` to `stream`
-- are the steps of an exec in a pod; `none` is no error. `poll` runs a condition until it holds,
-- fails or the time is over. `now` is in nanoseconds.
pub record Cluster : Type 1 where
  pub State : Type 0
  pub Requirement : Type 0
  pub new_requirement : String → String → List String → Option Requirement
  pub is_not_found : String → Bool
  pub get_namespace : State → String → Result Namespace
  pub get_deployment : State → String → String → Result Deployment
  pub get_ingress : State → String → String → Result Ingress
  pub list_namespaces : State → Selector Requirement → Result (List Namespace)
  pub list_deployments : State → String → Selector Requirement → Result (List Deployment)
  pub list_pods : State → Option String → Selector Requirement → Result (List Pod)
  pub list_ingresses : State → String → Selector Requirement → Result (List Ingress)
  pub patch_namespace : State → String → Patch → State × Option String
  pub patch_deployment : State → String → String → Patch → State × Option String
  pub patch_ingress : State → String → String → Patch → State × Option String
  pub poll : (State → Result Bool) → State → State × Option String
  pub get_config : Option String
  pub new_for_config : Option String
  pub add_to_scheme : Option String
  pub new_executor : String → String → List String → Option String
  pub stream : State → String → String → List String → Result (String × String)
  pub query : State → String → Result PromValue
  pub now : State → ℕ
  pub timestamp : State → String
