-- ===== src/Unidler/Config.antt =====
-- The types of internal/handlers/unidler/unidler.go, and the request that the handler reads.
use aergia_controller.Base.{String, Bool, Option, List, ℤ, StringMap}

-- The client and the logger are no part of it, and the locks are part of the world. A slice may be
-- nil.
pub record Unidler : Type 0 where
  pub refresh_interval : ℤ
  pub unidler_http_port : ℤ
  pub debug : Bool
  pub verified_unidling : Bool
  pub verified_secret : String
  pub allowed_user_agents : Option (List String)
  pub blocked_user_agents : Option (List String)
  pub allowed_ips : Option (List String)
  pub blocked_ips : Option (List String)
  pub default_http_response_code : ℤ

pub record PageData : Type 0 where
  pub refresh_interval : ℤ
  pub format_header : String
  pub code_header : String
  pub content_type : String
  pub original_uri : String
  pub namespace : String
  pub ingress_name : String
  pub service_name : String
  pub service_port : String
  pub request_id : String
  pub error_code : String
  pub error_message : String
  pub verifier : String

-- The first value of each header, under the name by which the program asks for it, and of each
-- parameter of the query.
pub record Request : Type 0 where
  pub headers : StringMap
  pub query : StringMap
  pub proto_major : ℤ
  pub proto_minor : ℤ

abbrev pub format_header_name : String
format_header_name = "X-Format"

abbrev pub code_header_name : String
code_header_name = "X-Code"

abbrev pub content_type_name : String
content_type_name = "Content-Type"

abbrev pub original_uri_name : String
original_uri_name = "X-Original-URI"

abbrev pub namespace_name : String
namespace_name = "X-Namespace"

abbrev pub ingress_name_name : String
ingress_name_name = "X-Ingress-Name"

abbrev pub service_name_name : String
service_name_name = "X-Service-Name"

abbrev pub service_port_name : String
service_port_name = "X-Service-Port"

abbrev pub request_id_name : String
request_id_name = "X-Request-ID"

abbrev pub aergia_name : String
aergia_name = "X-Aergia"

abbrev pub aergia_verifier_name : String
aergia_verifier_name = "X-Aergia-Verifier"

abbrev pub cache_control_name : String
cache_control_name = "Cache-Control"
