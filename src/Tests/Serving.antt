-- ===== src/Tests/Serving.antt =====
-- A request that unidles its namespace, and the unidling.
use mathlib.Core.List.{Memᴰ}
use aergia_controller.Base.{contains, false, ◌≡◌, refl, true, inl, inr, [], ◌∷◌, ◌==◌, lookup}
use aergia_controller.Strings.Split.{split}
use aergia_controller.Strings.Hex.{decode}
use aergia_controller.Kube.{Deployment}
use aergia_controller.World.{World, returned}
use aergia_controller.World.Each.{deployments, MadeOf}
use aergia_controller.Idler.Service.EachIdled.{HasReplicas}
use aergia_controller.Unidler.Unidle.EachUnidled.{UnidledFrom}
use aergia_controller.Controllers.Restores.{FindsWatched}
use aergia_controller.Main.{Program}
use aergia_controller.Main.Events.{after_request, after_goroutine, drop_goroutine}
use aergia_controller.Main.Visits.{IsLetIn, after_goroutine-after_request}
use aergia_controller.Tests.Memory.Laws.{memory-IsLawful, memory_accepts_deployment}
use aergia_controller.Tests.Loops.{replicas_of_idled_nginx, idled_nginx_there}
use aergia_controller.Tests.Again.{found_one}
use aergia_controller.Unidler.Helpers.{hmac_sign}
use aergia_controller.Unidler.Requests.{header, request_namespace, response_code}
use aergia_controller.Unidler.Requests.Verification.{IsVerified}
use aergia_controller.Unidler.Restrictions.{check_access}
use aergia_controller.Unidler.Handler.{is_allowed, ingress_handler}
use aergia_controller.Unidler.Handler.Started.{Started}
use aergia_controller.Unidler.Handler.Unidles.{ingress_handler_unidles}
use aergia_controller.Tests.Memory.{find, filter, meets, selects, memory}
use aergia_controller.Tests.Samples.{
  stdlib, main_namespace, main_ingress, idled_nginx, store_of, world_of, idler, world, unidler,
  request, exchange,
}

allowed : is_allowed memory stdlib unidler request main_namespace main_ingress ≡ true
unfolding is_allowed check_access split header ◌==◌ lookup
allowed = refl

verified : IsVerified memory stdlib unidler request main_namespace main_ingress
unfolding decode hmac_sign header ◌==◌ lookup
verified = inr (inr (inr refl))

ingress_handler_unidles_example :
    let y = ingress_handler memory stdlib unidler "/www" request exchange in
    (y.0 ≡ returned tt) × Started memory "main" main_namespace exchange y.1
unfolding response_code request_namespace find filter meets selects ◌==◌ lookup
ingress_handler_unidles_example =
    ingress_handler_unidles memory stdlib unidler (λ file. refl)
      (record { key = "idling.amazee.io/force-scaled"; values = "true" ∷ [] }) refl "/www" request
      main_namespace main_ingress world refl (inl refl) refl refl refl refl allowed verified refl
      refl

-- The environment is idled, and nobody holds a lock.
abbrev sleeping_world : World memory
sleeping_world = world_of (store_of idled_nginx [])

abbrev program : Program
program = record { unidler = unidler; idler = idler; jobs = [] }

let_in : IsLetIn memory stdlib program request main_namespace main_ingress sleeping_world
unfolding response_code request_namespace find ◌==◌ lookup
let_in = record {
  status = refl;
  hostname = inl refl;
  has_namespace = refl;
  namespace_found = refl;
  has_ingress = refl;
  ingress_found = refl;
  allowed = allowed;
  verified = verified;
}

finds_idled : FindsWatched memory sleeping_world "main" (idled_nginx ∷ [])
unfolding filter meets selects ◌==◌ lookup
finds_idled = record {
  requirement = record { key = "idling.amazee.io/watch"; values = "true" ∷ [] };
  made = refl;
  listed = refl;
  apart = (λ e m. elim m [ ], tt);
  filled = replicas_of_idled_nginx;
  there = idled_nginx_there;
  complete = λ d name e _. found_one _ idled_nginx d e;
}

abbrev visited_world : World memory
visited_world = after_request memory stdlib program "/" request sleeping_world

after_goroutine-after_request_example :
    let w2 = after_goroutine memory stdlib program main_namespace visited_world in
    Memᴰ main_namespace visited_world.goroutines
    × ((d : Deployment)
        → Memᴰ d (idled_nginx ∷ [])
        → MadeOf (deployments memory) HasReplicas UnidledFrom d w2)
    × (contains w2.locks "main" ≡ false)
    × (w2.goroutines ≡ drop_goroutine "main" (main_namespace ∷ []))
unfolding find filter meets selects ◌==◌ lookup
after_goroutine-after_request_example =
    after_goroutine-after_request memory memory-IsLawful (λ c s ns name. refl)
      memory_accepts_deployment stdlib (λ file. refl)
      (record { key = "idling.amazee.io/force-scaled"; values = "true" ∷ [] }) refl program "/"
      request main_namespace main_ingress (idled_nginx ∷ []) sleeping_world refl let_in refl refl
      finds_idled
