-- ===== src/Unidler/Handler/Whole.antt =====
-- The whole of the walk through the handler: a relation that its writes keep and that an allowed and
-- verified unidling keeps, the handler keeps.
use aergia_controller.Base.{String, ◌≡◌, ◌↔◌, Bool, true, ℕ, ℤ, if◌then◌else◌}
use aergia_controller.Stdlib.{Stdlib}
use aergia_controller.Kube.{Namespace, Ingress, ok, Cluster}
use aergia_controller.World.{Action, ◌>>=◌, continue}
use aergia_controller.World.Keeps.{
  IsPreorder, Keeps, Keeps-pure, Keeps-deref, Keeps-bind, Keeps-if, Keeps-on_reply,
}
use aergia_controller.Unidler.Config.{Unidler, Request}
use aergia_controller.Unidler.Checks.{check_force_scaled}
use aergia_controller.Unidler.Requests.{request_namespace, verify_request}
use aergia_controller.Unidler.Requests.Verification.{IsVerified, verify_request_iff}
use aergia_controller.Unidler.Response.{Exchange, write_header, in_world}
use aergia_controller.Unidler.Handler.{
  is_allowed, start_unidle, allow_verified, require_verification, allow, deny, serve, answer,
  no_ingress, find_by_host, find_ingress, request_hostname, respond, ingress_handler,
}
use aergia_controller.Unidler.Handler.Walk.{
  Within, Within-IsPreorder, IsKept, world_count, Keeps-in_world, force_scaled-Keeps,
  require_verification-Keeps, render-Keeps, deny-Keeps, verify-Keeps, set_metrics-Keeps,
  generic_error-Keeps, head-Keeps, Keeps-read_world, Keeps-answered, no_namespace-Keeps,
}

module _ (K : Cluster) (L : Stdlib) (h : Unidler) {R : Exchange K → Exchange K → Type 0}
    (kept : IsKept K L h R) where
  abbrev P : IsPreorder R
  P = kept.order

  abbrev Q : IsPreorder (Within K R)
  Q = Within-IsPreorder K kept.order

  -- An unidling that keeps the relation.
  pub allow_verified-Keeps :
      (name : String) (ns : Namespace)
      → Keeps (Within K R) (start_unidle K L h name ns)
      → Keeps R (allow_verified K L h name ns)
  unfolding allow_verified
  allow_verified-Keeps name ns started =
      search
        ((world_count K L h kept), kept.header, started, (Keeps-in_world K L h kept), Keeps-bind P)
        depth 9

  allow-Keeps :
      (name : String) (ns : Namespace) (path : String) (verified : Bool)
      → (verified ≡ true → Keeps R (allow_verified K L h name ns))
      → Keeps R (allow K L h name ns path verified)
  unfolding allow
  allow-Keeps name ns path verified allowed =
      Keeps-bind P (in_world K (check_force_scaled K name)) _
        ((Keeps-in_world K L h kept) _ ((force_scaled-Keeps K L h kept) name))
        λ forced.
          Keeps-if forced _ _ (λ _. Keeps-pure P _)
            λ _.
              Keeps-bind P
                (if verified then allow_verified K L h name ns else require_verification K L h) _
                (Keeps-if verified _ _ allowed (λ _. (require_verification-Keeps K L h kept)))
                (λ _. Keeps-pure P _)

  serve-Keeps :
      (r : Request) (code : ℤ) (name : String) (ns : Namespace) (i : Ingress) (path : String)
      (v : String × Bool)
      → (v.1 ≡ true → Keeps R (allow_verified K L h name ns))
      → Keeps R (serve K L h r code name ns i path v)
  unfolding serve
  serve-Keeps r code name ns i path v allowed =
      search (allow-Keeps name ns path v.1 allowed, (render-Keeps K L h kept), Keeps-bind P)

  serve_or_deny-Keeps :
      (r : Request) (code : ℤ) (name : String) (ns : Namespace) (i : Ingress) (path : String)
      (v : String × Bool)
      → (is_allowed K L h r ns i ≡ true → v.1 ≡ true → Keeps R (allow_verified K L h name ns))
      → Keeps R (
          if is_allowed K L h r ns i
          then serve K L h r code name ns i path v
          else deny K L h r path)
  serve_or_deny-Keeps r code name ns i path v allowed =
      Keeps-if (is_allowed K L h r ns i) _ _ (λ e. serve-Keeps r code name ns i path v (allowed e))
        (λ _. (deny-Keeps K L h kept) r path)

  -- The verification, with what its answer says.
  Keeps-verified :
      {B : Type 0} (r : Request) (ns : Namespace) (i : Ingress)
      (f : String × Bool → Action (Exchange K) B)
      → ((v : String × Bool) → ((v.1 ≡ true) ↔ IsVerified K L h r ns i) → Keeps R (f v))
      → Keeps R (in_world K (verify_request K L h r ns i) >>= f)
  unfolding ◌>>=◌ in_world continue
  Keeps-verified r ns i f kf = record {
    at = λ x.
        let (signed, verified, e, says) = verify_request_iff K L h r ns i x.world in
        rw e (
          P.transitive x _ _ (((verify-Keeps K L h kept) r ns i).at x.world x.writer)
            ((kf (signed, verified) says).at _));
  }

  module _ (r : Request)
      (allowed : (name : String) (ns : Namespace) (i : Ingress)
        → ns.name ≡ name
        → is_allowed K L h r ns i ≡ true
        → IsVerified K L h r ns i
        → Keeps R (allow_verified K L h name ns)) where
    answer-Keeps :
        (code : ℤ) (name : String) (ns : Namespace) (i : Ingress) (path : String) (start : ℕ)
        → ns.name ≡ name
        → Keeps R (answer K L h r code name ns i path start)
    unfolding answer
    answer-Keeps code name ns i path start e = Keeps-verified r ns i _ λ v says.
        Keeps-bind P _ _
          (serve_or_deny-Keeps r code name ns i path v (λ a b. allowed name ns i e a (says.0 b)))
          (λ _. (Keeps-in_world K L h kept) _ ((set_metrics-Keeps K L h kept) r start))

    pub find_ingress-Keeps :
        (code : ℤ) (hostname name : String) (ns : Namespace) (path : String) (start : ℕ)
        → ns.name ≡ name
        → Keeps R (find_ingress K L h r code hostname name ns path start)
    unfolding find_ingress find_by_host no_ingress
    find_ingress-Keeps code hostname name ns path start e =
        search
          (
            λ (i : Ingress). answer-Keeps code name ns i path start e,
            (generic_error-Keeps K L h kept),
            (set_metrics-Keeps K L h kept),
            (Keeps-read_world K L h kept),
            (Keeps-in_world K L h kept),
            Keeps-pure P,
            Keeps-bind P,
            Keeps-if,
            Keeps-on_reply,
          )
          depth 12

    -- The cluster gives a namespace under its name.
    pub respond-Keeps :
        ((s : K.State) (name : String) (ns : Namespace)
          → K.get_namespace s name ≡ ok ns
          → ns.name ≡ name)
        → (path : String) (code : ℤ) (start : ℕ) → Keeps R (respond K L h path r code start)
    unfolding respond request_hostname
    respond-Keeps named path code start =
        search
          (
            (Keeps-answered K L h kept) (λ c. K.get_namespace c (request_namespace r)),
            λ (hostname : String) (c : K.State) (ns : Namespace)
                  (e : K.get_namespace c (request_namespace r) ≡ ok ns).
                find_ingress-Keeps code hostname (request_namespace r) ns path start
                  (named c (request_namespace r) ns e),
            (no_namespace-Keeps K L h kept),
            Keeps-pure P,
            Keeps-deref P,
            Keeps-bind P,
            Keeps-if,
          )
          depth 12

    module _ (status : (code : ℤ) → Keeps R (write_header K code)) where
      pub ingress_handler-Keeps :
          ((s : K.State) (name : String) (ns : Namespace)
            → K.get_namespace s name ≡ ok ns
            → ns.name ≡ name)
          → (path : String) → Keeps R (ingress_handler K L h path r)
      unfolding ingress_handler
      ingress_handler-Keeps named path =
          search
            (
              head-Keeps K L h kept status r,
              respond-Keeps named,
              (Keeps-read_world K L h kept),
              (Keeps-in_world K L h kept),
              Keeps-bind P,
            )
            depth 12
