-- ===== src/Tests/Returning.antt =====
-- Runs that return: of the idlers on a cluster that fills in the numbers of replicas, and of the
-- handler.
use mathlib.Core.List.{Memᴰ}
use aergia_controller.Base.{
  String, ◌≡◌, ◌↔◌, sym, refl, Bool, true, false, ◌&&◌, Option, none, some, List, [], ◌∷◌, ◌==◌,
  Bool-cases, inl, inr, arith,
}
use aergia_controller.Kube.{Deployment, ok, Cluster}
use aergia_controller.World.{World, returned}
use aergia_controller.Idler.Service.{service_idler}
use aergia_controller.Idler.Service.EachIdled.{HasReplicas}
use aergia_controller.Idler.Service.NoPanic.{AreValid, service_idler-Returns}
use aergia_controller.Strings.Trim.{trim_space, last_slice}
use aergia_controller.Idler.Cli.{cli_idler}
use aergia_controller.Idler.Cli.NoPanic.{IsPrinted, cli_idler-Returns}
use aergia_controller.Unidler.Requests.{response_code}
use aergia_controller.Unidler.Response.{is_status}
use aergia_controller.Unidler.Handler.{ingress_handler}
use aergia_controller.Unidler.Handler.NoPanic.{HasHostname}
use aergia_controller.Unidler.Handler.Panics.{ingress_handler_returns}
use aergia_controller.Tests.Memory.{filter, selects, memory}
use aergia_controller.Tests.Samples.{stdlib, selector, world, idler, unidler, request, exchange}

abbrev is_filled : Deployment → Bool
is_filled d = elim d.replicas [ none ↦ false | some n ↦ true ]

-- It lists no deployment without a number of replicas.
abbrev filling : Cluster
filling = record memory {
  list_deployments = λ s ns sel.
      ok (filter (λ d. is_filled d && (d.namespace == ns && selects sel d.labels)) s.deployments);
}

abbrev filling_world : World filling
filling_world = record {
  cluster = world.cluster;
  metrics = world.metrics;
  locks = [];
  goroutines = [];
}

kept_first :
    {A : Type 0} (is : A → Bool) (y : A) (ys : List A) (x : A)
    → is y ≡ true
    → ((x : A) → Memᴰ x ys → is x ≡ true)
    → Memᴰ x (y ∷ ys)
    → is x ≡ true
kept_first is y ys x e rest (Memᴰ.head same) = rw same e
kept_first is y ys x e rest (Memᴰ.tail m) = rest x m

kept-filter :
    {A : Type 0} (is : A → Bool) (xs : List A) (x : A) → Memᴰ x (filter is xs) → is x ≡ true
unfolding filter
kept-filter is [] x m = elim m [ ]
kept-filter is (y ∷ ys) x m = elim (Bool-cases (is y)) [
  | inl e ↦ kept_first is y (filter is ys) x e (kept-filter is ys) (rw e at m)
  | inr e ↦ kept-filter is ys x (rw e at m)
]

is_filled-HasReplicas : (d : Deployment) (b : Bool) → (is_filled d && b) ≡ true → HasReplicas d
is_filled-HasReplicas d b e = by_replicas d.replicas refl
  where
    by_replicas : (o : Option _) → d.replicas ≡ o → HasReplicas d
    by_replicas none r = absurd (ground arith)
    by_replicas (some n) r = (n, r)

listed_kept :
    (is : Deployment → Bool) (xs ds : List Deployment) (d : Deployment)
    → ok (filter is xs) ≡ ok ds
    → Memᴰ d ds
    → is d ≡ true
listed_kept is xs ds d e m = let same : filter is xs ≡ ds = cc in kept-filter is xs d (rw same m)

valid : AreValid filling (selector ∷ [])
unfolding ◌==◌
valid s (Memᴰ.head e) = rw e (record { key = selector.name; values = selector.values }, refl)
valid s (Memᴰ.tail m) = elim m [ ]

service_idler-Returns_example : (service_idler filling stdlib idler filling_world).0 ≡ returned tt
service_idler-Returns_example =
    service_idler-Returns filling stdlib idler
      (λ s ns sel ds e d m. is_filled-HasReplicas d _ (listed_kept _ s.deployments ds d e m))
      (λ s m. elim m [ ]) valid (λ s m. elim m [ ]) (λ s m. elim m [ ]) filling_world

-- Every command prints a zero.
abbrev printing : Cluster
printing = record filling { stream = λ s pod ns command. ok ("0\n", "") }

abbrev printing_world : World printing
printing_world = record {
  cluster = world.cluster;
  metrics = world.metrics;
  locks = [];
  goroutines = [];
}

zero-IsPrinted : (out : String × String) → ok ("0\n", "") ≡ ok out → IsPrinted out.0
unfolding trim_space last_slice
zero-IsPrinted out e = let same : ("0\n", "") ≡ out = cc in rw (sym same) ("0", refl)

cli_idler-Returns_example : (cli_idler printing idler printing_world).0 ≡ returned tt
cli_idler-Returns_example =
    cli_idler-Returns printing idler
      (λ s ns sel ds e d m. is_filled-HasReplicas d _ (listed_kept _ s.deployments ds d e m))
      (λ s pod ns command out e. zero-IsPrinted out e) (λ s m. elim m [ ]) (λ s m. elim m [ ])
      (λ s m. elim m [ ]) (λ s m. elim m [ ]) printing_world

ingress_handler_returns_example :
    ((ingress_handler memory stdlib unidler "/www" request exchange).0 ≡ returned tt)
    ↔ ((is_status (response_code unidler request) ≡ true) × HasHostname stdlib request)
ingress_handler_returns_example =
    ingress_handler_returns memory stdlib unidler (λ file. refl)
      (record { key = "idling.amazee.io/force-scaled"; values = "true" ∷ [] }) (unfold ◌==◌ in refl)
      "/www" request world
