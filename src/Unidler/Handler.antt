-- ===== src/Unidler/Handler.antt =====
-- internal/handlers/unidler/handler.go, and the favicon of unidler.go. Log lines are left out.
pub mod Locks
pub mod Sent
pub mod Walk
pub mod Whole
pub mod Starts
pub mod NoPanic
pub mod Panics
pub mod Started
pub mod Serves
pub mod Unidles
pub mod Admitted
pub mod Answers
use aergia_controller.Base.{
  ℕ, suc, ◌+◌, ◌-◌, Char, String, ◌<>◌, Bool, true, false, not, ◌&&◌, ◌||◌, Option, none, some,
  List, [], ◌∷◌, ◌++◌, ℤ, pos, ◌==◌, if◌then◌else◌, StringMap, lookup, value_at, contains,
}
use aergia_controller.Strings.{parse_bool}
use aergia_controller.Strings.Split.{split}
use aergia_controller.Strings.Decimal.{atoi, itoa}
use aergia_controller.Stdlib.{Stdlib}
use aergia_controller.Kube.{Namespace, Ingress, Result, ok, err, requirements, Cluster}
use aergia_controller.World.{
  Metrics, World, Action, pure, gets, modify, ◌>>=◌, ◌>>◌, for_each, deref, on_reply, on_error,
  panic, read, count,
}
use aergia_controller.Unidler.Config.{
  Unidler, PageData, Request, format_header_name, code_header_name, content_type_name,
  original_uri_name, namespace_name, ingress_name_name, service_name_name, service_port_name,
  request_id_name, aergia_name, aergia_verifier_name, cache_control_name,
}
use aergia_controller.Unidler.Helpers.{hmac_verifier, hmac_signer}
use aergia_controller.Unidler.Restrictions.{check_access}
use aergia_controller.Unidler.Checks.{check_force_scaled}
use aergia_controller.Unidler.Response.{
  Body, text, page, Exchange, set_header, write_header, write, in_world,
}
use aergia_controller.Unidler.Requests.{
  header, param, response_format, response_code, request_namespace, pick_ingress, empty_ingress,
  page_data, verify_request, set_metrics,
}

module _ (K : Cluster) (L : Stdlib) (h : Unidler) where
  -- `template.Must` panics where the file is no template.
  unfoldable pub render : String → PageData → Action (Exchange K) (Unit {0})
  render file p = on_error (L.template_error file) panic (write K (page file p))

  unfoldable pub generic_error : Request → String → ℤ → Action (Exchange K) (Unit {0})
  generic_error r path code = render (path <> "/error.html") (
      page_data h r code (L.status_text code) (header r namespace_name) (header r ingress_name_name)
        "")

  -- `go h.Unidle(…)`, unless the lock of the namespace is held.
  unfoldable pub start_unidle : String → Namespace → Action (World K) (Unit {0})
  start_unidle name ns = do
    locked ← gets (λ w. contains w.locks name)
    if locked
        then pure tt
        else modify (λ w. record w { locks = name ∷ w.locks; goroutines = w.goroutines ++ ns ∷ [] })

  unfoldable pub allow_verified : String → Namespace → Action (Exchange K) (Unit {0})
  allow_verified name ns = do
    in_world K (count K (λ m. record m { allowed_requests = m.allowed_requests + 1 }))
    set_header K "X-Aergia-Allowed" "true"
    in_world K (start_unidle name ns)

  unfoldable pub require_verification : Action (Exchange K) (Unit {0})
  require_verification = do
    in_world K (count K (λ m. record m { verification_required = m.verification_required + 1 }))
    set_header K "X-Aergia-Verification-Required" "true"

  -- What a request that passes the access check does, and the page that it gets.
  unfoldable pub allow : String → Namespace → String → Bool → Action (Exchange K) String
  allow name ns path verified = do
    force_scaled ← in_world K (check_force_scaled K name)
    if force_scaled then pure (path <> "/forced.html") else do
      if verified then allow_verified name ns else require_verification
      pure (path <> "/unidle.html")

  unfoldable pub deny : Request → String → Action (Exchange K) (Unit {0})
  deny r path = do
    set_header K "X-Aergia-Denied" "true"
    in_world K (count K (λ m. record m { blocked_requests = m.blocked_requests + 1 }))
    generic_error r path (pos 403)

  unfoldable pub is_allowed : Request → Namespace → Ingress → Bool
  is_allowed r ns ingress =
      check_access L h ns.annotations ingress.annotations (header r "User-Agent")
        (header r "True-Client-IP") (split (header r "X-Forwarded-For"))

  -- The page of a request that passes the access check.
  unfoldable pub serve :
      Request
      → ℤ
      → String
      → Namespace
      → Ingress
      → String
      → String × Bool
      → Action (Exchange K) (Unit {0})
  serve r code name ns ingress path v = do
    file ← allow name ns path v.1
    render file (page_data h r code "" name ingress.name v.0)

  -- The answer where the namespace and the ingress are known.
  unfoldable pub answer :
      Request → ℤ → String → Namespace → Ingress → String → ℕ → Action (Exchange K) (Unit {0})
  answer r code name ns ingress path start = do
    v ← in_world K (verify_request K L h r ns ingress)
    if is_allowed r ns ingress then serve r code name ns ingress path v else deny r path
    in_world K (set_metrics K r start)

  -- The answer where the ingress of the header is not found.
  unfoldable pub no_ingress : Request → String → ℕ → Action (Exchange K) (Unit {0})
  no_ingress r path start = do generic_error r path (pos 400); in_world K (set_metrics K r start)

  unfoldable pub find_by_host :
      Request → ℤ → String → String → Namespace → String → ℕ → Action (Exchange K) (Unit {0})
  find_by_host r code hostname name ns path start = do
    g ← in_world K (read K (λ c. K.list_ingresses c name (requirements [])))
    on_reply g (λ is. answer r code name ns (pick_ingress hostname is empty_ingress) path start)
        (λ _. pure tt)

  -- The ingress by its name, or by the host name among all.
  unfoldable pub find_ingress :
      Request → ℤ → String → String → Namespace → String → ℕ → Action (Exchange K) (Unit {0})
  find_ingress r code hostname name ns path start =
      if header r ingress_name_name == ""
      then find_by_host r code hostname name ns path start
      else do
        g ← in_world K (read K (λ c. K.get_ingress c name (header r ingress_name_name)))
        on_reply g (λ ingress. answer r code name ns ingress path start)
            (λ _. no_ingress r path start)

  unfoldable pub no_namespace : Request → ℤ → String → ℕ → Action (Exchange K) (Unit {0})
  no_namespace r code path start = do
    set_header K "X-Aergia-Denied" "true"
    set_header K "X-Aergia-No-Namespace" "true"
    in_world K (count K (λ m. record m { no_namespace_requests = m.no_namespace_requests + 1 }))
    generic_error r path code
    in_world K (set_metrics K r start)

  -- The URL is nil where it does not parse, and `Hostname` reads it.
  unfoldable pub request_hostname : Request → Action (Exchange K) String
  request_hostname r =
      if param r "url" == "" then pure "" else deref (L.url_hostname (param r "url"))

  unfoldable pub copy_header : Request → String → Action (Exchange K) (Unit {0})
  copy_header r name = set_header K name (header r name)

  unfoldable pub debug_headers : Request → Action (Exchange K) (Unit {0})
  debug_headers r =
      for_each
        (format_header_name ∷ code_header_name ∷ content_type_name ∷ original_uri_name
          ∷ namespace_name ∷ ingress_name_name ∷ service_name_name ∷ service_port_name
          ∷ request_id_name ∷ [])
        (copy_header r)

  -- What comes before the status is written.
  unfoldable pub write_head : Request → ℤ → Action (Exchange K) (Unit {0})
  write_head r code = do
    if L.getenv "DEBUG" == "true" then debug_headers r else pure tt
    set_header K content_type_name (response_format r)
    set_header K aergia_name "true"
    set_header K cache_control_name "private,no-store"
    write_header K code

  -- What comes after it.
  unfoldable pub respond : String → Request → ℤ → ℕ → Action (Exchange K) (Unit {0})
  respond path r code start = do
    hostname ← request_hostname r
    let name = request_namespace r
    if name == "" then no_namespace r code path start else do
      g ← in_world K (read K (λ c. K.get_namespace c name))
      on_reply g (λ ns. find_ingress r code hostname name ns path start) (λ _. pure tt)

  -- `ingressHandler`
  unfoldable pub ingress_handler : String → Request → Action (Exchange K) (Unit {0})
  ingress_handler path r = do
    start ← in_world K (read K K.now)
    write_head r (response_code h r)
    respond path r (response_code h r) start

abbrev pub favicon : String
favicon =
    "data:image/x-icon;base64,iVBORw0KGgoAAAANSUhEUgAAAAEAAAABCAYAAAAfFcSJAAAADUlEQVR42mNk+M9QDwADhgGAWjR9awAAAABJRU5ErkJggg=="

unfoldable pub favicon_handler : (K : Cluster) → Action (Exchange K) (Unit {0})
favicon_handler K = do
  set_header K aergia_name "true"
  set_header K content_type_name "image/x-icon"
  set_header K cache_control_name "public, max-age=7776000"
  write K (text (favicon <> "\n"))
