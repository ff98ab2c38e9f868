-- ===== src/Tests/Memory.antt =====
-- A cluster that is kept in memory, as an API server that the theorems can be applied to.
pub mod Laws
use aergia_controller.Base.{
  ℕ, String, ◌≡◌, refl, ◌∙◌, Bool, true, false, ◌&&◌, Option, none, some, List, [], ◌∷◌, ◌==◌,
  ==_iff, contains, if◌then◌else◌, Bool-cases, inl, inr, arith, StringMap, value_at,
}
use aergia_controller.Kube.{
  Namespace, Deployment, Pod, Ingress, Patch, Result, ok, err, Selector, requirements, matching,
  vector, Cluster,
}
use aergia_controller.Kube.Lawful.{
  IsLawful, merge_deployment, merge_ingress, merge_namespace, on_ok, accepted,
}

pub record Store : Type 0 where
  pub namespaces : List Namespace
  pub deployments : List Deployment
  pub ingresses : List Ingress
  pub pods : List Pod
  pub output : String
  pub clock : ℕ

-- `k in (vs)`
pub record LabelIn : Type 0 where
  pub key : String
  pub values : List String

unfoldable pub find : {A : Type 0} → (A → Bool) → List A → Result A
find is [] = err "not found"
find is (x ∷ xs) = if is x then ok x else find is xs

unfoldable pub update : {A : Type 0} → (A → Bool) → (A → A) → List A → List A
update is f [] = []
update is f (x ∷ xs) = (if is x then f x else x) ∷ update is f xs

unfoldable pub filter : {A : Type 0} → (A → Bool) → List A → List A
filter is [] = []
filter is (x ∷ xs) = let rest = filter is xs in if is x then x ∷ rest else rest

-- The error of a missing object.
abbrev pub error_of : {A : Type 0} → Result A → Option String
error_of (ok a) = none
error_of (err e) = some e

unfoldable pub meets : List LabelIn → StringMap → Bool
meets [] m = true
meets (r ∷ rs) m = contains r.values (value_at r.key m) && meets rs m

unfoldable pub selects : Selector LabelIn → StringMap → Bool
unfolding meets
selects (requirements rs) m = meets rs m
selects (matching ls) m = true

abbrev pub named_as : String → Namespace → Bool
named_as name n = n.name == name

abbrev pub deployment_at : String → String → Deployment → Bool
deployment_at ns name d = d.namespace == ns && d.name == name

abbrev pub ingress_at : String → String → Ingress → Bool
ingress_at ns name i = i.namespace == ns && i.name == name

-- A poll asks once.
abbrev poll_once : Result Bool → Option String
poll_once (ok true) = none
poll_once (ok false) = some "timed out"
poll_once (err e) = some e

abbrev require : String → String → List String → Option LabelIn
require name operator values =
    if name == "" then none else some (record { key = name; values = values })

abbrev in_namespace : Option String → Pod → Bool
in_namespace none p = true
in_namespace (some ns) p = p.namespace == ns

abbrev pub memory : Cluster
memory = record {
  State = Store;
  Requirement = LabelIn;
  new_requirement = require;
  is_not_found = λ e. e == "not found";
  get_namespace = λ s name. find (named_as name) s.namespaces;
  get_deployment = λ s ns name. find (deployment_at ns name) s.deployments;
  get_ingress = λ s ns name. find (ingress_at ns name) s.ingresses;
  list_namespaces = λ s sel. ok (filter (λ n. selects sel n.labels) s.namespaces);
  list_deployments =
      λ s ns sel. ok (filter (λ d. d.namespace == ns && selects sel d.labels) s.deployments);
  list_pods = λ s ns sel. ok (filter (in_namespace ns) s.pods);
  list_ingresses =
      λ s ns sel. ok (filter (λ i. i.namespace == ns && selects sel i.labels) s.ingresses);
  patch_namespace = λ s name p. (
    record s { namespaces = update (named_as name) (merge_namespace p) s.namespaces },
    error_of (find (named_as name) s.namespaces),
  );
  patch_deployment = λ s ns name p. (
    record s { deployments = update (deployment_at ns name) (merge_deployment p) s.deployments },
    error_of (find (deployment_at ns name) s.deployments),
  );
  patch_ingress = λ s ns name p. (
    record s { ingresses = update (ingress_at ns name) (merge_ingress p) s.ingresses },
    error_of (find (ingress_at ns name) s.ingresses),
  );
  poll = λ condition s. (s, poll_once (condition s));
  get_config = none;
  new_for_config = none;
  add_to_scheme = none;
  new_executor = λ pod ns command. none;
  stream = λ s pod ns command. ok (s.output, "");
  query = λ s q. ok (vector []);
  now = λ s. s.clock;
  timestamp = λ s. "2024-02-01T12:00:00Z";
}
