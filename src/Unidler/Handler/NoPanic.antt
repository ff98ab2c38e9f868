-- ===== src/Unidler/Handler/NoPanic.antt =====
-- What the handler does behind the status does not panic, if the URL of the request can be read.
use aergia_controller.Base.{
  ℕ, ℤ, String, ◌≡◌, refl, Bool, true, none, some, [], ◌∷◌, ◌⊎◌, inl, inr, ◌==◌,
}
use aergia_controller.Stdlib.{Stdlib}
use aergia_controller.Kube.{Namespace, Ingress, Cluster}
use aergia_controller.World.{World, Action, modify, gets, on_error}
use aergia_controller.World.Returns.{
  Returns, Returns-pure, Returns-deref, Returns-bind, Returns-if, Returns-on_reply, Returns-read,
  Returns-count,
}
use aergia_controller.Unidler.Config.{Unidler, PageData, Request}
use aergia_controller.Unidler.Checks.{check_force_scaled}
use aergia_controller.Unidler.Requests.{param, request_namespace, verify_request, set_metrics}
use aergia_controller.Unidler.Response.{Body, page, set_header, write, in_world}
use aergia_controller.Unidler.Handler.{
  render, generic_error, start_unidle, allow_verified, require_verification, allow, deny, serve,
  answer, no_ingress, find_by_host, find_ingress, no_namespace, request_hostname, respond,
}

module _ {S : Type 0} where
  Returns-gets : {A : Type 0} (f : S → A) → Returns (gets f)
  unfolding gets
  Returns-gets f = record { at = λ s. (f s, refl) }

  Returns-modify : (f : S → S) → Returns (modify f)
  unfolding modify
  Returns-modify f = record { at = λ s. (tt, refl) }

module _ (K : Cluster) where
  pub Returns-in_world : {A : Type 0} (m : Action (World K) A) → Returns m → Returns (in_world K m)
  unfolding in_world
  Returns-in_world m k = record { at = λ x. k.at x.world }

  Returns-set_header : (k v : String) → Returns (set_header K k v)
  unfolding set_header modify
  Returns-set_header k v = record { at = λ x. (tt, refl) }

  Returns-write : (b : Body) → Returns (write K b)
  unfolding write modify
  Returns-write b = record { at = λ x. (tt, refl) }

-- The `url` parameter, where there is one, is a URL.
abbrev pub HasHostname : Stdlib → Request → Type 0
HasHostname L r =
    ((param r "url" == "") ≡ true)
    ⊎ ((host : String) × (L.url_hostname (param r "url") ≡ some host))

module _ (K : Cluster) (L : Stdlib) (h : Unidler)
    (templates : (file : String) → L.template_error file ≡ none) (requirement : K.Requirement)
    (made : K.new_requirement "idling.amazee.io/force-scaled" "=" ("true" ∷ [])
      ≡ some requirement) where
  pub render-Returns : (file : String) (p : PageData) → Returns (render K L h file p)
  unfolding render on_error
  render-Returns file p = rw (templates file) (Returns-write K (page file p))

  start-Returns : (name : String) (ns : Namespace) → Returns (start_unidle K L h name ns)
  unfolding start_unidle
  start-Returns name ns =
      search (Returns-gets, Returns-modify, Returns-pure, Returns-bind, Returns-if) depth 9

  force_scaled-Returns : (name : String) → Returns (check_force_scaled K name)
  unfolding check_force_scaled
  force_scaled-Returns name =
      Returns-bind _ _ (Returns-deref _ requirement made)
        λ r. Returns-bind _ _ (Returns-read K _) λ ds. Returns-pure _

  verify-Returns :
      (r : Request) (ns : Namespace) (i : Ingress) → Returns (verify_request K L h r ns i)
  unfolding verify_request
  verify-Returns r ns i = search (Returns-count K, Returns-pure, Returns-bind, Returns-if) depth 9

  pub metrics-Returns : (r : Request) (start : ℕ) → Returns (set_metrics K r start)
  unfolding set_metrics
  metrics-Returns r start = Returns-bind _ _ (Returns-read K _) λ now. Returns-count K _

  allow-Returns :
      (name : String) (ns : Namespace) (path : String) (verified : Bool)
      → Returns (allow K L h name ns path verified)
  unfolding allow allow_verified require_verification
  allow-Returns name ns path verified =
      search
        (
          force_scaled-Returns,
          start-Returns,
          Returns-set_header K,
          Returns-count K,
          Returns-in_world K,
          Returns-pure,
          Returns-bind,
          Returns-if,
        )
        depth 12

  error-Returns :
      (r : Request) (path : String) (code : ℤ) → Returns (generic_error K L h r path code)
  unfolding generic_error
  error-Returns r path code = render-Returns _ _

  deny-Returns : (r : Request) (path : String) → Returns (deny K L h r path)
  unfolding deny
  deny-Returns r path =
      search
        (error-Returns, Returns-set_header K, Returns-count K, Returns-in_world K, Returns-bind)
        depth 9

  answer-Returns :
      (r : Request) (code : ℤ) (name : String) (ns : Namespace) (i : Ingress) (path : String)
      (start : ℕ)
      → Returns (answer K L h r code name ns i path start)
  unfolding answer serve
  answer-Returns r code name ns i path start =
      search
        (
          verify-Returns,
          allow-Returns,
          deny-Returns,
          render-Returns,
          metrics-Returns,
          Returns-in_world K,
          Returns-bind,
          Returns-if,
        )
        depth 12

  find_ingress-Returns :
      (r : Request) (code : ℤ) (hostname name : String) (ns : Namespace) (path : String) (start : ℕ)
      → Returns (find_ingress K L h r code hostname name ns path start)
  unfolding find_ingress find_by_host no_ingress
  find_ingress-Returns r code hostname name ns path start =
      search
        (
          answer-Returns,
          error-Returns,
          metrics-Returns,
          Returns-read K,
          Returns-in_world K,
          Returns-pure,
          Returns-bind,
          Returns-if,
          Returns-on_reply,
        )
        depth 12

  no_namespace-Returns :
      (r : Request) (code : ℤ) (path : String) (start : ℕ)
      → Returns (no_namespace K L h r code path start)
  unfolding no_namespace
  no_namespace-Returns r code path start =
      search
        (
          error-Returns,
          metrics-Returns,
          Returns-set_header K,
          Returns-count K,
          Returns-in_world K,
          Returns-bind,
        )
        depth 12

  pub hostname-Returns : (r : Request) → HasHostname L r → Returns (request_hostname K L h r)
  unfolding request_hostname
  hostname-Returns r (inl e) = rw e (Returns-pure "")
  hostname-Returns r (inr (host, e)) =
      Returns-if (param r "url" == "") _ _ (Returns-pure "") (Returns-deref _ host e)

  pub respond-Returns :
      (path : String) (r : Request) (code : ℤ) (start : ℕ)
      → HasHostname L r
      → Returns (respond K L h path r code start)
  unfolding respond
  respond-Returns path r code start has = Returns-bind _ _ (hostname-Returns r has) λ hostname.
      Returns-if (request_namespace r == "") _ _ (no_namespace-Returns r code path start) (
        Returns-bind _ _ (Returns-in_world K _ (Returns-read K _)) λ g.
          Returns-on_reply g _ _
            (λ ns. find_ingress-Returns r code hostname (request_namespace r) ns path start)
            (λ _. Returns-pure tt))
