-- ===== src/Unidler/Handler/Panics.antt =====
-- The panics of the handler: a code that is no status, and a URL that cannot be read.
use aergia_controller.Base.{
  ℕ, ℤ, String, ◌≡◌, ◌↔◌, sym, ◌∙◌, true, false, none, some, [], ◌∷◌, ◌⊎◌, inl, inr, ◌==◌,
  Bool-cases, Option-cases, if◌then◌else◌, StringMap,
}
use aergia_controller.Stdlib.{Stdlib}
use aergia_controller.Kube.{Cluster}
use aergia_controller.World.{
  World, returned, panicked, pure, panic, continue, ◌>>=◌, modify, gets, read, deref,
}
use aergia_controller.Unidler.Config.{Unidler, Request}
use aergia_controller.Unidler.Requests.{param, response_code}
use aergia_controller.Unidler.Response.{
  new_writer, Exchange, is_status, set_header, write_header, in_world,
}
use aergia_controller.Unidler.Handler.{request_hostname, write_head, respond, ingress_handler}
use aergia_controller.Unidler.Handler.NoPanic.{HasHostname, respond-Returns}
use aergia_controller.Unidler.Handler.Sent.{debug_headers_lem}

module _ (K : Cluster) (L : Stdlib) (h : Unidler) where
  unread :
      (r : Request)
      → (param r "url" == "") ≡ false
      → L.url_hostname (param r "url") ≡ none
      → ¬ HasHostname L r
  unread r e f (inl g) = cc
  unread r e f (inr (host, g)) = cc

  host_cases : (r : Request) → HasHostname L r ⊎ ¬ HasHostname L r
  host_cases r = elim (Bool-cases (param r "url" == "")) [
    | inl e ↦ inl (inl e)
    | inr e ↦ elim (Option-cases (L.url_hostname (param r "url"))) [
      | inr f ↦ inl (inr f)
      | inl f ↦ inr (unread r e f)
    ]
  ]

  hostname_panics :
      (r : Request)
      → ¬ HasHostname L r
      → (x : Exchange K)
      → (request_hostname K L h r x).0
        ≡ panicked "invalid memory address or nil pointer dereference"
  unfolding request_hostname deref panic
  hostname_panics r has x = elim (Bool-cases (param r "url" == "")) [
    | inl e ↦ absurd (has (inl e))
    | inr e ↦ elim (Option-cases (L.url_hostname (param r "url"))) [
      | inl f ↦ rw (e, f)
      | inr (host, f) ↦ absurd (has (inr (host, f)))
    ]
  ]

  respond_panics :
      (path : String) (r : Request) (code : ℤ) (start : ℕ) (x : Exchange K)
      → ¬ HasHostname L r
      → ¬ ((respond K L h path r code start x).0 ≡ returned tt)
  unfolding respond ◌>>=◌ continue
  respond_panics path r code start x has e =
      let p = hostname_panics r has x in let q = rw p at e in cc

  abbrev pub fresh : World K → Exchange K
  fresh w = record { world = w; writer = new_writer }

  status_outcome :
      (code : ℤ) (w : World K) (hs : StringMap)
      → (write_header K code (record { world = w; writer = record new_writer { headers = hs } })).0
        ≡ (if is_status code then returned tt else panicked "invalid WriteHeader code")
  unfolding write_header
  status_outcome code w hs = elim (Bool-cases (is_status code)) [ inl e ↦ rw e | inr e ↦ rw e ]

  -- The head is written exactly if the code is a status.
  head_outcome :
      (r : Request) (code : ℤ) (w : World K)
      → (write_head K L h r code (fresh w)).0
        ≡ (if is_status code then returned tt else panicked "invalid WriteHeader code")
  unfolding write_head ◌>>=◌ continue set_header modify pure
  head_outcome r code w = elim (Bool-cases (L.getenv "DEBUG" == "true")) [
    | inl d ↦ rw (d, debug_headers_lem K L h r w) (status_outcome code w _)
    | inr d ↦ rw d (status_outcome code w _)
  ]

  head_of_bad :
      (r : Request) (code : ℤ) (w : World K)
      → is_status code ≡ false
      → (write_head K L h r code (fresh w)).0 ≡ panicked "invalid WriteHeader code"
  head_of_bad r code w e = head_outcome r code w ∙ rw e

  pub head_of_good :
      (r : Request) (code : ℤ) (w : World K)
      → is_status code ≡ true
      → (write_head K L h r code (fresh w)).0 ≡ returned tt
  head_of_good r code w e = head_outcome r code w ∙ rw e

  handler_panics :
      (path : String) (r : Request) (w : World K)
      → is_status (response_code h r) ≡ false
      → ¬ ((ingress_handler K L h path r (fresh w)).0 ≡ returned tt)
  unfolding ingress_handler ◌>>=◌ continue in_world read gets
  handler_panics path r w bad e =
      let p = head_of_bad r (response_code h r) w bad in let q = rw p at e in cc

  handler_goes_on :
      (path : String) (r : Request) (w : World K)
      → is_status (response_code h r) ≡ true
      → (x : Exchange K) × ((ingress_handler K L h path r (fresh w)).0
          ≡ (respond K L h path r (response_code h r) (K.now w.cluster) x).0)
  unfolding ingress_handler ◌>>=◌ continue in_world read gets
  handler_goes_on path r w good =
      let p = head_of_good r (response_code h r) w good in
      ((write_head K L h r (response_code h r) (fresh w)).1, rw p)

  module _ (templates : (file : String) → L.template_error file ≡ none)
      (requirement : K.Requirement)
      (made : K.new_requirement "idling.amazee.io/force-scaled" "=" ("true" ∷ [])
        ≡ some requirement) where
    -- Where every template file can be parsed and the selector of the label of a forced scaling is
    -- valid, the handler of a request returns, and does not panic, exactly if the code of the
    -- request is a status, of three digits, and its `url` parameter, where there is one, can be
    -- read as a URL, whatever the cluster answers.
    pub ingress_handler_returns :
        (path : String) (r : Request) (w : World K)
        → ((ingress_handler K L h path r (fresh w)).0 ≡ returned tt)
          ↔ ((is_status (response_code h r) ≡ true) × HasHostname L r)
    ingress_handler_returns path r w = (
      λ e. elim (Bool-cases (is_status (response_code h r))) [
        | inr bad ↦ absurd (handler_panics path r w bad e)
        | inl good ↦ elim (host_cases r) [
          | inl has ↦ (good, has)
          | inr lacks ↦
              let (x, p) = handler_goes_on path r w good in
              absurd
                (respond_panics path r (response_code h r) (K.now w.cluster) x lacks (sym p ∙ e))
        ]
      ],
      λ (good, has).
          let (x, p) = handler_goes_on path r w good in
          let (u, q) =
            (respond-Returns K L h templates requirement made path r (response_code h r)
                (K.now w.cluster) has).at
              x in
          p ∙ q,
    )
