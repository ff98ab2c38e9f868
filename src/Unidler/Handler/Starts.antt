-- ===== src/Unidler/Handler/Starts.antt =====
-- What a request, whatever it is, does to the cluster, the locks and the goroutines.
use aergia_controller.Base.{
  ℕ, ℤ, String, ◌≡◌, refl, ◌∙◌, sym, ap, true, false, Option, none, some, [], ◌==◌, ◌⊎◌, inl, inr,
}
use aergia_controller.Stdlib.{Stdlib}
use aergia_controller.Kube.{Namespace, Ingress, ok, requirements, Cluster}
use aergia_controller.World.{pure, gets, read, deref, panic}
use aergia_controller.World.Ends.{
  Ends, Ends-bind, Ends-any, Ends-if, Ends-on_reply, Ends-pure, Ends-weaken,
}
use aergia_controller.Unidler.Config.{Unidler, Request, ingress_name_name}
use aergia_controller.Unidler.Requests.{header, param, response_code, request_namespace}
use aergia_controller.Unidler.Response.{Exchange, in_world}
use aergia_controller.Unidler.Handler.{
  no_ingress, find_by_host, find_ingress, request_hostname, respond, ingress_handler,
}
use aergia_controller.Unidler.Handler.Walk.{
  IsKept, Keeps-in_world, generic_error-Keeps, set_metrics-Keeps, no_namespace-Keeps, head-Keeps,
}
use aergia_controller.Unidler.Handler.Started.{
  StateSame, StateSame-IsPreorder, StateSame-IsKept, status-StateSame, Started,
}
use aergia_controller.Unidler.Handler.Admitted.{
  IsHostname, by_name, by_host, IsAdmitted, IsDone, last-Ends, same-Ends,
}
use aergia_controller.Unidler.Handler.Answers.{Done, answer-Ends}

module _ (K : Cluster) (L : Stdlib) (h : Unidler) (r : Request) (x : Exchange K) where
  abbrev kept : IsKept K L h (StateSame K)
  kept = StateSame-IsKept K L h

  -- What is read is of the cluster as it was at first.
  read-Ends :
      {A : Type 0} (f : K.State → A) (y : Exchange K)
      → StateSame K x y
      → Ends
          (in_world K (read K f))
          y
          (λ a z. (f x.world.cluster ≡ a) × StateSame K x z)
          (IsDone K L h r x)
  unfolding in_world read gets
  read-Ends f y p = record {
    holds = (
      ap f (sym p.cluster),
      record { cluster = p.cluster; locks = p.locks; goroutines = p.goroutines },
    );
  }

  no_ingress-Ends :
      (path : String) (start : ℕ) (y : Exchange K)
      → StateSame K x y
      → Done K L h r x (no_ingress K L h r path start) y
  unfolding no_ingress
  no_ingress-Ends path start y p =
      Ends-bind _ _ y _ _
        (last-Ends K L h r x _ y (generic_error-Keeps K L h kept r path _) (inl p))
        (λ _ z d.
          last-Ends K L h r x _ z
            (Keeps-in_world K L h kept _ (set_metrics-Keeps K L h kept r start)) d)

  find_by_host-Ends :
      (code : ℤ) (hostname : String) (ns : Namespace) (path : String) (start : ℕ) (y : Exchange K)
      → (request_namespace r == "") ≡ false
      → K.get_namespace x.world.cluster (request_namespace r) ≡ ok ns
      → (header r ingress_name_name == "") ≡ true
      → IsHostname L r hostname
      → StateSame K x y
      → Done K L h r x (find_by_host K L h r code hostname (request_namespace r) ns path start) y
  unfolding find_by_host
  find_by_host-Ends code hostname ns path start y named found unnamed host p =
      Ends-bind _ _ y _ _
        (read-Ends (λ c. K.list_ingresses c (request_namespace r) (requirements [])) y p)
        λ g z (e, q).
          Ends-on_reply g _ _ z _
            (λ is f.
              answer-Ends K L h r x code ns _ path start z named found
                (by_host hostname is unnamed host (e ∙ f) refl) q)
            (λ _. Ends-pure _ z _ (inl q))

  find_ingress-Ends :
      (code : ℤ) (hostname : String) (ns : Namespace) (path : String) (start : ℕ) (y : Exchange K)
      → (request_namespace r == "") ≡ false
      → K.get_namespace x.world.cluster (request_namespace r) ≡ ok ns
      → IsHostname L r hostname
      → StateSame K x y
      → Done K L h r x (find_ingress K L h r code hostname (request_namespace r) ns path start) y
  unfolding find_ingress
  find_ingress-Ends code hostname ns path start y named found host p =
      Ends-if (header r ingress_name_name == "") _ _ y _
        (λ unnamed. find_by_host-Ends code hostname ns path start y named found unnamed host p)
        λ has.
          Ends-bind _ _ y _ _
            (read-Ends (λ c. K.get_ingress c (request_namespace r) (header r ingress_name_name)) y
              p)
            λ g z (e, q).
              Ends-on_reply g _ _ z _
                (λ i f.
                  answer-Ends K L h r x code ns i path start z named found (by_name has (e ∙ f)) q)
                (λ _. no_ingress-Ends path start z q)

  deref-Ends :
      (o : Option String) (y : Exchange K)
      → StateSame K x y
      → Ends (deref o) y (λ a z. (o ≡ some a) × StateSame K x z) (IsDone K L h r x)
  unfolding deref pure panic
  deref-Ends none y p = record { holds = inl p }
  deref-Ends (some a) y p = record { holds = (refl, p) }

  request_hostname-Ends :
      (y : Exchange K)
      → StateSame K x y
      → Ends
          (request_hostname K L h r)
          y
          (λ a z. IsHostname L r a × StateSame K x z)
          (IsDone K L h r x)
  unfolding request_hostname
  request_hostname-Ends y p =
      Ends-if (param r "url" == "") _ _ y _ (λ e. Ends-pure "" y _ (inl (e, refl), p))
        λ e.
          Ends-weaken _ y _ _ (deref-Ends (L.url_hostname (param r "url")) y p)
            (λ a z (f, q). (inr (e, f), q))

  respond-Ends :
      (path : String) (code : ℤ) (start : ℕ) (y : Exchange K)
      → StateSame K x y
      → Done K L h r x (respond K L h path r code start) y
  unfolding respond
  respond-Ends path code start y p =
      Ends-bind _ _ y _ _ (request_hostname-Ends y p) λ hostname z (host, q).
        Ends-if (request_namespace r == "") _ _ z _
          (λ _. last-Ends K L h r x _ z (no_namespace-Keeps K L h kept r code path start) (inl q))
          λ named.
            Ends-bind _ _ z _ _ (read-Ends (λ c. K.get_namespace c (request_namespace r)) z q)
              λ g t (e, o).
                Ends-on_reply g _ _ t _
                  (λ ns f. find_ingress-Ends code hostname ns path start t named (e ∙ f) host o)
                  (λ _. Ends-pure _ t _ (inl o))

module _ (K : Cluster) (L : Stdlib) (h : Unidler) where
  ingress_handler-Ends :
      (path : String) (r : Request) (x : Exchange K)
      → Done K L h r x (ingress_handler K L h path r) x
  unfolding ingress_handler
  ingress_handler-Ends path r x =
      Ends-bind _ _ x _ _ (read-Ends K L h r x K.now x ((StateSame-IsPreorder K).reflexive x))
        λ start y (_, p).
          Ends-bind _ _ y _ _
            (same-Ends K L h r x _ y
              (head-Keeps K L h (StateSame-IsKept K L h) (status-StateSame K L h) r
                (response_code h r))
              p)
            (λ _ z q. respond-Ends K L h r x path (response_code h r) start z q)

  -- Whatever the request, the cluster, the locks and the counters are, and also where the handler
  -- panics: a request leaves the cluster, the locks and the goroutines as they are, or it starts
  -- exactly one unidling, of the namespace that its parameter or else its header names and the
  -- cluster gives, takes the free lock of that namespace, and changes nothing in the cluster. It
  -- does the latter only if it is let in by one ingress: the one that the cluster gives under the
  -- name in its header, or, where the header names none and the cluster lists the ingresses of the
  -- namespace, what `pick_ingress` picks among these for the host of its URL, if only the empty
  -- one. The lists of addresses and agents of this ingress, of the namespace and of the program
  -- allow the request, with this ingress it is verified or need not be, and the cluster lists no
  -- deployment of the namespace that is scaled by force, or fails to list them.
  pub ingress_handler_starts :
      (path : String) (r : Request) (x : Exchange K)
      → let y = (ingress_handler K L h path r x).1 in
        StateSame K x y
        ⊎ ((ns : Namespace) × (i : Ingress) × IsAdmitted K L h r x ns i
            × Started K (request_namespace r) ns x y)
  ingress_handler_starts path r x = Ends-any _ x (ingress_handler-Ends path r x)
