-- ===== src/Idler/Checks.antt =====
-- What service-kubernetes.go of internal/handlers/idler looks at before it idles a namespace: the
-- intervals, the builds, the ages of the pods and the hits that Prometheus has counted.
use aergia_controller.Base.{
  ℕ, ◌+◌, ◌-◌, ◌%◌, ◌^◌, String, ◌<>◌, Bool, true, false, ◌||◌, Option, none, some, List, [], ◌∷◌,
  ℤ, pos, negsuc, sub_ℕ, lt_ℤ, if◌then◌else◌, ◌==◌,
}
use aergia_controller.Strings.Decimal.{atoi}
use aergia_controller.Stdlib.{Stdlib}
use aergia_controller.Kube.{Pod, PromValue, vector, other}

-- The interval of the annotation, if there is one that parses, or else that of the controller.
unfoldable pub interval_override : Stdlib → ℤ → Option String → ℤ
interval_override L interval none = interval
interval_override L interval (some text) = elim (L.parse_duration text) [
  | none ↦ interval
  | some t ↦ t
]

-- The loop over the builds, with its `break`.
unfoldable pub has_running_build : List Pod → Bool
has_running_build [] = false
has_running_build (build ∷ builds) =
    build.phase == "Running" || build.phase == "Pending" || has_running_build builds

unfoldable pub is_past_interval : ℤ → ℕ → Pod → Bool
is_past_interval interval now pod = elim pod.start_time [
  | none ↦ false
  | some start ↦ lt_ℤ interval (sub_ℕ now start)
]

-- The loop over the pods of a deployment. `idle` is the flag before it.
unfoldable pub mark_idle : ℤ → ℕ → Bool → List Pod → Bool
mark_idle interval now idle [] = idle
mark_idle interval now idle (pod ∷ pods) =
    mark_idle interval now (if is_past_interval interval now pod then true else idle) pods

-- The bits of an int64.
abbrev bits : ℤ → ℕ
bits (pos n) = n % 2 ^ 64
bits (negsuc n) = 2 ^ 64 - 1 - n % 2 ^ 64

-- `numHits += hits` over the samples, where a value that is no int counts as what `Atoi` gives.
unfoldable pub add_hits : ℕ → PromValue → ℕ
add_hits hits (vector []) = hits
add_hits hits (vector (v ∷ vs)) = add_hits ((hits + bits (atoi v).0) % 2 ^ 64) (vector vs)
add_hits hits other = hits

abbrev pub nginx_query : String → String → String
nginx_query ns interval =
    "round(sum(increase(nginx_ingress_controller_requests{exported_namespace=\""
    <> (ns <> ("\",status=~\"2[0-9x]{2}\"}[" <> (interval <> "])) by (status))")))

abbrev pub traefik_query : String → String → String
traefik_query ns interval =
    "round(sum(increase(traefik_service_requests_total{exported_service=~\""
    <> (ns <> ("-.*\",code=~\"2[0-9x]{2}\"}[" <> (interval <> "])) by (code))")))
