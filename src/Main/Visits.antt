-- ===== src/Main/Visits.antt =====
-- A visit that wakes an environment: a request, and the unidling that it starts.
use mathlib.Core.List.{Memᴰ}
use aergia_controller.Base.{
  String, ◌≡◌, refl, ◌∙◌, ap, Bool, true, false, none, some, List, [], ◌∷◌, ◌++◌, ◌==◌, ==_refl,
  ◌&&◌, not, arith, contains, if◌then◌else◌,
}
use aergia_controller.Stdlib.{Stdlib}
use aergia_controller.Kube.{
  Namespace, Deployment, Ingress, Patch, Result, ok, requirements, Cluster,
}
use aergia_controller.Kube.Lawful.{IsLawful, accepted}
use aergia_controller.World.{World}
use aergia_controller.World.Each.{deployments, MadeOf}
use aergia_controller.Idler.Service.EachIdled.{HasReplicas}
use aergia_controller.Unidler.Config.{Request, ingress_name_name}
use aergia_controller.Unidler.Requests.{header, response_code, request_namespace}
use aergia_controller.Unidler.Requests.Verification.{IsVerified}
use aergia_controller.Unidler.Response.{is_status, new_writer, Exchange}
use aergia_controller.Unidler.Unidle.EachUnidled.{UnidledFrom, unidle_each}
use aergia_controller.Unidler.Unidle.Locks.{unidle-locks}
use aergia_controller.Unidler.Handler.{is_allowed, ingress_handler, favicon_handler}
use aergia_controller.Unidler.Handler.NoPanic.{HasHostname}
use aergia_controller.Unidler.Handler.Unidles.{ingress_handler_unidles}
use aergia_controller.Unidler.Server.{err_files_path, serve_http}
use aergia_controller.Controllers.Restores.{FindsWatched}
use aergia_controller.Main.{Program}
use aergia_controller.Main.Events.{after_request, after_goroutine, drop_goroutine}

if_false : {A : Type 0} (b : Bool) (x y : A) → b ≡ false → (if b then x else y) ≡ y
if_false b x y e = rw e

last_in : {A : Type 0} (xs : List A) (x : A) → Memᴰ x (xs ++ x ∷ [])
last_in [] x = Memᴰ.head refl
last_in (y ∷ ys) x = Memᴰ.tail (last_in ys x)

never_both : (a b : Bool) → b ≡ true → (a && not b) ≡ false
never_both a b e = ground arith

module _ (K : Cluster) (L : Stdlib) (p : Program) where
  -- The request as the program sees it: it can be answered, names its ingress, and is let in.
  pub record IsLetIn (r : Request) (ns : Namespace) (i : Ingress) (w : World K) : Type 0 where
    pub status : is_status (response_code p.unidler r) ≡ true
    pub hostname : HasHostname L r
    pub has_namespace : (request_namespace r == "") ≡ false
    pub namespace_found : K.get_namespace w.cluster (request_namespace r) ≡ ok ns
    pub has_ingress : (header r ingress_name_name == "") ≡ false
    pub ingress_found :
        K.get_ingress w.cluster (request_namespace r) (header r ingress_name_name) ≡ ok i
    pub allowed : is_allowed K L p.unidler r ns i ≡ true
    pub verified : IsVerified K L p.unidler r ns i

  -- Every path but that of the favicon is for the handler of the ingress controller.
  serve_http_eq :
      (url_path : String) (r : Request) (x : Exchange K)
      → (url_path == "/favicon.ico") ≡ false
      → serve_http K L p.unidler url_path r x ≡ ingress_handler K L p.unidler (err_files_path L) r x
  unfolding serve_http
  serve_http_eq url_path r x e =
      ap (λ act. act x)
        (if_false (url_path == "/favicon.ico") (favicon_handler K)
          (ingress_handler K L p.unidler (err_files_path L) r) e)

module _ (K : Cluster) (law : IsLawful K)
    (quiet : (condition : K.State → Result Bool) (s : K.State) (ns name : String)
      → K.get_deployment (K.poll condition s).0 ns name ≡ K.get_deployment s ns name)
    (accepts : (s : K.State) (ns name : String) (p : Patch) (d : Deployment)
      → K.get_deployment s ns name ≡ ok d
      → accepted (K.patch_deployment s ns name p).1 ≡ true)
    (L : Stdlib) (templates : (file : String) → L.template_error file ≡ none)
    (requirement : K.Requirement)
    (made : K.new_requirement "idling.amazee.io/force-scaled" "=" ("true" ∷ []) ≡ some requirement)
    (p : Program) where
  -- After the request one unidling runs.
  after_request-Started :
      (url_path : String) (r : Request) (ns : Namespace) (i : Ingress) (w : World K)
      → (url_path == "/favicon.ico") ≡ false
      → IsLetIn K L p r ns i w
      → contains w.locks (request_namespace r) ≡ false
      → K.list_deployments w.cluster (request_namespace r) (requirements (requirement ∷ [])) ≡ ok []
      → let w1 = after_request K L p url_path r w in
        (w1.cluster ≡ w.cluster)
        × (w1.locks ≡ request_namespace r ∷ w.locks)
        × (w1.goroutines ≡ w.goroutines ++ ns ∷ [])
  unfolding after_request
  after_request-Started url_path r ns i w page l free none_forced =
      let x : Exchange K = record { world = w; writer = new_writer } in
      let (_, s) =
        ingress_handler_unidles K L p.unidler templates requirement made (err_files_path L) r ns i w
          l.status l.hostname l.has_namespace l.namespace_found l.has_ingress l.ingress_found
          l.allowed l.verified free none_forced in
      rw (after_request, serve_http_eq K L p url_path r x page) (s.cluster, s.locks, s.goroutines)

  -- A visit wakes an idled environment, over a lawful cluster: if a request to any path but that of
  -- the favicon can be answered, finds its namespace and, by the name in its header, its ingress,
  -- is allowed by the lists and verified, the lock of the namespace is free, none of its
  -- deployments is scaled by force, every template can be parsed, the unidler finds every
  -- deployment of the namespace that is labelled to be watched, each once and with a number of
  -- replicas, no patch of an existing deployment is refused, and nothing else changes deployments
  -- while it polls, then the unidling of the namespace runs after the request, and behind it each
  -- of these deployments that was labelled as idled with no replicas has the number of replicas
  -- that was saved, or 1, and is labelled as not idled, each other one is as it was, and the lock
  -- is free again.
  pub after_goroutine-after_request :
      (url_path : String) (r : Request) (ns : Namespace) (i : Ingress) (ds : List Deployment)
      (w : World K)
      → (url_path == "/favicon.ico") ≡ false
      → IsLetIn K L p r ns i w
      → contains w.locks ns.name ≡ false
      → K.list_deployments w.cluster ns.name (requirements (requirement ∷ [])) ≡ ok []
      → FindsWatched K w ns.name ds
      → let w1 = after_request K L p url_path r w in
        let w2 = after_goroutine K L p ns w1 in
        Memᴰ ns w1.goroutines
        × ((d : Deployment) → Memᴰ d ds → MadeOf (deployments K) HasReplicas UnidledFrom d w2)
        × (contains w2.locks ns.name ≡ false)
        × (w2.goroutines ≡ drop_goroutine ns.name (w.goroutines ++ ns ∷ []))
  unfolding after_goroutine
  after_goroutine-after_request url_path r ns i ds w page l free none_forced f =
      let name : ns.name ≡ request_namespace r =
        law.named w.cluster (request_namespace r) ns l.namespace_found in
      let (same, locks, running) =
        after_request-Started url_path r ns i w page l (rw name at free) (rw name at none_forced) in
      let w1 = after_request K L p url_path r w in
      let listed =
        ap (λ c. K.list_deployments c ns.name (requirements (f.requirement ∷ []))) same
        ∙ f.listed in
      let (left, kept) = unidle-locks K ns w1 in
      (
        rw running (last_in w.goroutines ns),
        unidle_each K law quiet accepts ns f.requirement ds w1 f.made listed f.apart f.filled
            (λ d m. ap (λ c. K.get_deployment c d.namespace d.name) same ∙ f.there d m),
        left ns.name
            ∙ never_both (contains w1.locks ns.name) (ns.name == ns.name) (==_refl ns.name),
        ap (drop_goroutine ns.name) (kept ∙ running),
      )
