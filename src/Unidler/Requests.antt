-- ===== src/Unidler/Requests.antt =====
-- What internal/handlers/unidler/handler.go reads from a request, the verification of a request and
-- its metrics.
pub mod Verification
pub mod Hosts
use aergia_controller.Base.{
  ℕ, suc, ◌+◌, ◌-◌, Char, String, ◌<>◌, Bool, true, false, not, ◌&&◌, ◌||◌, Option, none, some,
  List, [], ◌∷◌, ◌++◌, ℤ, pos, ◌==◌, if◌then◌else◌, StringMap, lookup, value_at, contains,
}
use aergia_controller.Strings.{parse_bool}
use aergia_controller.Strings.Split.{split}
use aergia_controller.Strings.Decimal.{atoi, itoa}
use aergia_controller.Stdlib.{Stdlib}
use aergia_controller.Kube.{Namespace, Ingress, Result, ok, err, requirements, Cluster}
use aergia_controller.World.{
  Metrics, World, Action, pure, gets, modify, ◌>>=◌, ◌>>◌, for_each, deref, on_reply, on_error,
  panic, read, count,
}
use aergia_controller.Unidler.Config.{
  Unidler, PageData, Request, format_header_name, code_header_name, content_type_name,
  original_uri_name, namespace_name, ingress_name_name, service_name_name, service_port_name,
  request_id_name, aergia_name, aergia_verifier_name, cache_control_name,
}
use aergia_controller.Unidler.Helpers.{hmac_verifier, hmac_signer}
use aergia_controller.Unidler.Restrictions.{check_access}
use aergia_controller.Unidler.Checks.{check_force_scaled}
use aergia_controller.Unidler.Response.{
  Body, text, page, Exchange, set_header, write_header, write, in_world,
}

-- `r.Header.Get` and `r.URL.Query().Get`
abbrev pub header : Request → String → String
header r name = value_at name r.headers

abbrev pub param : Request → String → String
param r name = value_at name r.query

abbrev head_part : List String → String
head_part [] = ""
head_part (p ∷ ps) = p

-- The format of the response: the first that the request names, or HTML.
unfoldable pub response_format : Request → String
unfolding split
response_format r =
    let format =
      if header r format_header_name == "" then "text/html" else header r format_header_name in
    head_part (split format)

-- The number of the header, or the default.
unfoldable pub response_code : Unidler → Request → ℤ
unfolding atoi
response_code h r =
    let (code, parsed) = atoi (header r code_header_name) in
    if parsed then code else h.default_http_response_code

unfoldable pub request_namespace : Request → String
request_namespace r =
    if param r "namespace" == "" then header r namespace_name else param r "namespace"

-- `for _, host := range rule.Host` goes over the characters of the host.
unfoldable pub has_host : String → String → Bool
has_host hostname String.[] = false
has_host hostname (String.◌∷◌ c host) = String.◌∷◌ c "" == hostname || has_host hostname host

unfoldable pub any_host : String → List String → Bool
unfolding has_host
any_host hostname [] = false
any_host hostname (host ∷ hosts) = has_host hostname host || any_host hostname hosts

-- `&networkv1.Ingress{}`
abbrev pub empty_ingress : Ingress
empty_ingress = record { namespace = ""; name = ""; labels = []; annotations = []; hosts = [] }

-- The loop over the ingresses: the last that fits, or the one before the loop.
unfoldable pub pick_ingress : String → List Ingress → Ingress → Ingress
unfolding any_host
pick_ingress hostname [] ingress = ingress
pick_ingress hostname (i ∷ is) ingress =
    pick_ingress hostname is (if any_host hostname i.hosts then i else ingress)

-- The data of a page from the headers of the request.
unfoldable pub page_data : Unidler → Request → ℤ → String → String → String → String → PageData
unfolding itoa
page_data h r code message namespace ingress_name verifier = record {
  refresh_interval = h.refresh_interval;
  format_header = header r format_header_name;
  code_header = header r code_header_name;
  content_type = header r content_type_name;
  original_uri = header r original_uri_name;
  namespace = namespace;
  ingress_name = ingress_name;
  service_name = header r service_name_name;
  service_port = header r service_port_name;
  request_id = header r request_id_name;
  error_code = itoa code;
  error_message = message;
  verifier = verifier;
}

-- An annotation that is a word of truth.
abbrev pub is_disabled : Option String → Bool
is_disabled none = false
is_disabled (some val) = parse_bool val

abbrev pub disable_verification : String
disable_verification = "idling.amazee.io/disable-request-verification"

module _ (K : Cluster) (L : Stdlib) (h : Unidler) where
  -- The signed name of the namespace, and whether the request may unidle it.
  unfoldable pub verify_request : Request → Namespace → Ingress → Action (World K) (String × Bool)
  verify_request r ns ingress =
      if not h.verified_unidling
      then pure ("", true)
      else if is_disabled (lookup disable_verification ingress.annotations)
      then pure ("", true)
      else if is_disabled (lookup disable_verification ns.annotations)
      then pure ("", true)
      else do
        count K (λ m. record m { verification_requests = m.verification_requests + 1 })
        pure (
          hmac_signer L ns.name h.verified_secret,
          hmac_verifier L ns.name (header r aergia_verifier_name) h.verified_secret,
        )

module _ (K : Cluster) where
  -- The protocol and the time that the request took.
  unfoldable pub set_metrics : Request → ℕ → Action (World K) (Unit {0})
  set_metrics r start = do
    now ← read K K.now
    let proto = itoa r.proto_major <> ("." <> itoa r.proto_minor)
    count K (λ m. record m {
      request_count = λ p. if p == proto then suc (m.request_count p) else m.request_count p;
      request_duration = (proto, now - start) ∷ m.request_duration;
    })
