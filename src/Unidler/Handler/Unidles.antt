-- ===== src/Unidler/Handler/Unidles.antt =====
-- A request that unidles its namespace.
use aergia_controller.Base.{
  ℕ, ℤ, String, ◌≡◌, refl, ◌∙◌, ap, true, false, none, some, [], ◌∷◌, contains, ◌==◌,
}
use aergia_controller.Stdlib.{Stdlib}
use aergia_controller.Kube.{Namespace, Ingress, ok, requirements, Cluster}
use aergia_controller.World.{World, returned, continue, ◌>>=◌, gets, read, on_reply}
use aergia_controller.World.Keeps.{Keeps, Keeps-pure, Keeps-deref, Keeps-if}
use aergia_controller.World.Leads.{Leads, Leads-bind}
use aergia_controller.Unidler.Config.{Unidler, Request, ingress_name_name}
use aergia_controller.Unidler.Requests.{header, response_code, request_namespace}
use aergia_controller.Unidler.Requests.Verification.{IsVerified}
use aergia_controller.Unidler.Response.{Exchange, is_status, in_world}
use aergia_controller.Unidler.Handler.{
  is_allowed, find_ingress, request_hostname, write_head, respond, ingress_handler,
}
use aergia_controller.Unidler.Handler.Walk.{head-Keeps}
use aergia_controller.Unidler.Handler.NoPanic.{HasHostname, hostname-Returns}
use aergia_controller.Unidler.Handler.Serves.{HasNoForced, answer-Leads}
use aergia_controller.Unidler.Handler.Started.{
  StateSame, StateSame-IsPreorder, StateSame-IsKept, status-StateSame, Started, StateSame-Leads,
}
use aergia_controller.Unidler.Handler.Panics.{fresh, head_of_good}

module _ (K : Cluster) (L : Stdlib) (h : Unidler)
    (templates : (file : String) → L.template_error file ≡ none) (requirement : K.Requirement)
    (made : K.new_requirement "idling.amazee.io/force-scaled" "=" ("true" ∷ []) ≡ some requirement)
    (x : Exchange K) where
  -- What is read is of the cluster as it was at first.
  read-Leads :
      {A : Type 0} (f : K.State → A) (y : Exchange K)
      → StateSame K x y
      → Leads (in_world K (read K f)) y (λ a z. (a ≡ f x.world.cluster) × StateSame K x z)
  unfolding in_world read gets
  read-Leads f y p = record {
    value = f y.world.cluster;
    returns = refl;
    holds = (
      ap f p.cluster,
      record { cluster = p.cluster; locks = p.locks; goroutines = p.goroutines },
    );
  }

  find_ingress-Leads :
      (r : Request) (code : ℤ) (hostname name : String) (ns : Namespace) (i : Ingress)
      (path : String) (start : ℕ) (y : Exchange K)
      → (header r ingress_name_name == "") ≡ false
      → K.get_ingress x.world.cluster name (header r ingress_name_name) ≡ ok i
      → is_allowed K L h r ns i ≡ true
      → IsVerified K L h r ns i
      → contains x.world.locks name ≡ false
      → HasNoForced K L h templates requirement made x name
      → StateSame K x y
      → Leads
          (find_ingress K L h r code hostname name ns path start)
          y
          (λ _ z. Started K name ns x z)
  unfolding find_ingress on_reply
  find_ingress-Leads r code hostname name ns i path start y named there allowed verified free
        none_forced p =
      rw named (
        Leads-bind _ _ y
          (λ g z.
            (g ≡ K.get_ingress x.world.cluster name (header r ingress_name_name)) × StateSame K x z)
          _ (read-Leads (λ c. K.get_ingress c name (header r ingress_name_name)) y p)
          λ g z (e, q). rw (e ∙ there) (
            answer-Leads K L h templates requirement made x r code name ns i path start z allowed
              verified free none_forced q))

  hostname-Keeps : (r : Request) → Keeps (StateSame K) (request_hostname K L h r)
  unfolding request_hostname
  hostname-Keeps r =
      search (Keeps-pure (StateSame-IsPreorder K), Keeps-deref (StateSame-IsPreorder K), Keeps-if)
        depth 6

  hostname-Leads :
      (r : Request) (y : Exchange K)
      → HasHostname L r
      → StateSame K x y
      → Leads (request_hostname K L h r) y (λ _ z. StateSame K x z)
  hostname-Leads r y has p =
      StateSame-Leads K L h x _ y (hostname-Returns K L h templates requirement made r has)
        (hostname-Keeps r) p

  respond-Leads :
      (path : String) (r : Request) (code : ℤ) (start : ℕ) (ns : Namespace) (i : Ingress)
      (y : Exchange K)
      → HasHostname L r
      → (request_namespace r == "") ≡ false
      → K.get_namespace x.world.cluster (request_namespace r) ≡ ok ns
      → (header r ingress_name_name == "") ≡ false
      → K.get_ingress x.world.cluster (request_namespace r) (header r ingress_name_name) ≡ ok i
      → is_allowed K L h r ns i ≡ true
      → IsVerified K L h r ns i
      → contains x.world.locks (request_namespace r) ≡ false
      → HasNoForced K L h templates requirement made x (request_namespace r)
      → StateSame K x y
      → Leads (respond K L h path r code start) y (λ _ z. Started K (request_namespace r) ns x z)
  unfolding respond on_reply
  respond-Leads path r code start ns i y has some_name found named there allowed verified free
        none_forced p =
      Leads-bind _ _ y (λ _ z. StateSame K x z) _ (hostname-Leads r y has p)
        λ hostname z q. rw some_name (
          Leads-bind _ _ z
            (λ g t. (g ≡ K.get_namespace x.world.cluster (request_namespace r)) × StateSame K x t) _
            (read-Leads (λ c. K.get_namespace c (request_namespace r)) z q)
            λ g t (e, o). rw (e ∙ found) (
              find_ingress-Leads r code hostname (request_namespace r) ns i path start t named there
                allowed verified free none_forced o))

module _ (K : Cluster) (L : Stdlib) (h : Unidler)
    (templates : (file : String) → L.template_error file ≡ none) (requirement : K.Requirement)
    (made : K.new_requirement "idling.amazee.io/force-scaled" "=" ("true" ∷ [])
      ≡ some requirement) where
  -- Behind the status.
  past_head :
      (path : String) (r : Request) (w : World K) (ns : Namespace) (name : String)
      → is_status (response_code h r) ≡ true
      → Leads
          (respond K L h path r (response_code h r) (K.now w.cluster))
          (write_head K L h r (response_code h r) (fresh K L h w)).1
          (λ _ z. Started K name ns (fresh K L h w) z)
      → let y = ingress_handler K L h path r (fresh K L h w) in
        (y.0 ≡ returned tt) × Started K name ns (fresh K L h w) y.1
  unfolding ingress_handler ◌>>=◌ continue in_world read gets
  past_head path r w ns name good l =
      rw (head_of_good K L h r (response_code h r) w good) (l.returns, l.holds)

  -- A request that is let in unidles its namespace: if its code is a status, its URL, if there is
  -- one, can be read, its namespace and its ingress are found, the ingress by the name in its
  -- header, the lists of addresses and agents allow it, it is verified or need not be, the lock of
  -- the namespace is free, no deployment of the namespace is scaled by force and every template can
  -- be parsed, then the handler returns, takes the lock, starts one unidling, of that namespace,
  -- and leaves the cluster as it is.
  pub ingress_handler_unidles :
      (path : String) (r : Request) (ns : Namespace) (i : Ingress) (w : World K)
      → is_status (response_code h r) ≡ true
      → HasHostname L r
      → (request_namespace r == "") ≡ false
      → K.get_namespace w.cluster (request_namespace r) ≡ ok ns
      → (header r ingress_name_name == "") ≡ false
      → K.get_ingress w.cluster (request_namespace r) (header r ingress_name_name) ≡ ok i
      → is_allowed K L h r ns i ≡ true
      → IsVerified K L h r ns i
      → contains w.locks (request_namespace r) ≡ false
      → K.list_deployments w.cluster (request_namespace r) (requirements (requirement ∷ [])) ≡ ok []
      → let y = ingress_handler K L h path r (fresh K L h w) in
        (y.0 ≡ returned tt) × Started K (request_namespace r) ns (fresh K L h w) y.1
  ingress_handler_unidles path r ns i w good has some_name found named there allowed verified free
        none_forced =
      past_head path r w ns (request_namespace r) good (
        respond-Leads K L h templates requirement made (fresh K L h w) path r (response_code h r)
          (K.now w.cluster) ns i (write_head K L h r (response_code h r) (fresh K L h w)).1 has
          some_name found named there allowed verified free none_forced
          ((head-Keeps K L h (StateSame-IsKept K L h) (status-StateSame K L h) r
              (response_code h r)).at
            (fresh K L h w)))
