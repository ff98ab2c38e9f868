-- ===== src/Unidler/Handler/Walk.antt =====
-- One walk through the handler: what its writes keep, the whole of it keeps.
use aergia_controller.Base.{String, ◌≡◌, refl, ℕ, ℤ}
use aergia_controller.Stdlib.{Stdlib}
use aergia_controller.Kube.{Namespace, Ingress, Result, ok, err, Cluster}
use aergia_controller.World.{Metrics, World, Action, ◌>>=◌, read, count, on_reply}
use aergia_controller.World.Keeps.{
  IsPreorder, Keeps, Keeps-pure, Keeps-panic, Keeps-gets, Keeps-deref, Keeps-bind, Keeps-if,
  Keeps-for_each, Keeps-on_error,
}
use aergia_controller.Unidler.Config.{Unidler, PageData, Request}
use aergia_controller.Unidler.Checks.{check_force_scaled}
use aergia_controller.Unidler.Requests.{verify_request, set_metrics}
use aergia_controller.Unidler.Response.{
  Body, Writer, Exchange, set_header, write_header, write, in_world,
}
use aergia_controller.Unidler.Handler.{
  render, generic_error, require_verification, deny, no_namespace, copy_header, debug_headers,
  write_head,
}

-- A relation of exchanges, between two worlds beside any response.
abbrev pub Within : (K : Cluster) → (Exchange K → Exchange K → Type 0) → World K → World K → Type 0
Within K R w w' =
    (r : Writer) → R (record { world = w; writer = r }) (record { world = w'; writer = r })

pub Within-IsPreorder :
    (K : Cluster) {R : Exchange K → Exchange K → Type 0} → IsPreorder R → IsPreorder (Within K R)
Within-IsPreorder K P = record {
  reflexive = λ w r. P.reflexive _;
  transitive = λ a b c p q r. P.transitive _ _ _ (p r) (q r);
}

-- What the walk asks of a relation.
pub record IsKept (K : Cluster) (L : Stdlib) (h : Unidler) (R : Exchange K → Exchange K → Type 0)
    : Type 0 where
  pub order : IsPreorder R
  pub header : (k v : String) → Keeps R (set_header K k v)
  pub body : (b : Body) → Keeps R (write K b)
  pub counted : (f : Metrics → Metrics) → Keeps (Within K R) (count K f)

module _ (K : Cluster) (L : Stdlib) (h : Unidler) {R : Exchange K → Exchange K → Type 0}
    (kept : IsKept K L h R) where
  abbrev P : IsPreorder R
  P = kept.order

  abbrev Q : IsPreorder (Within K R)
  Q = Within-IsPreorder K kept.order

  pub Keeps-in_world :
      {A : Type 0} (m : Action (World K) A) → Keeps (Within K R) m → Keeps R (in_world K m)
  unfolding in_world
  Keeps-in_world m k = record { at = λ x. k.at x.world x.writer }

  pub Keeps-read_world : {A : Type 0} (f : K.State → A) → Keeps (Within K R) (read K f)
  unfolding read
  Keeps-read_world f = Keeps-gets Q _

  -- A read whose answer is known to be one of the cluster.
  pub Keeps-answered :
      {A B : Type 0} (f : K.State → Result A) (k : A → Action (Exchange K) B)
      (g : String → Action (Exchange K) B)
      → ((s : K.State) (a : A) → f s ≡ ok a → Keeps R (k a))
      → ((e : String) → Keeps R (g e))
      → Keeps R (in_world K (read K f) >>= λ r. on_reply r k g)
  unfolding ◌>>=◌ in_world read on_reply
  Keeps-answered {B} f k g kk kg = record { at = λ x. by_answer x (f x.world.cluster) refl }
    where
      by_answer : (x : Exchange K) (r : Result _) → f x.world.cluster ≡ r → R x (on_reply r k g x).1
      by_answer x (ok a) e = (kk x.world.cluster a e).at x
      by_answer x (err e) _ = (kg e).at x

  pub force_scaled-Keeps : (ns : String) → Keeps (Within K R) (check_force_scaled K ns)
  unfolding check_force_scaled
  force_scaled-Keeps ns =
      search (Keeps-read_world, Keeps-pure Q, Keeps-deref Q, Keeps-bind Q) depth 9

  pub verify-Keeps :
      (r : Request) (ns : Namespace) (i : Ingress)
      → Keeps (Within K R) (verify_request K L h r ns i)
  unfolding verify_request
  verify-Keeps r ns i = search (kept.counted, Keeps-pure Q, Keeps-bind Q, Keeps-if) depth 9

  pub set_metrics-Keeps : (r : Request) (start : ℕ) → Keeps (Within K R) (set_metrics K r start)
  unfolding set_metrics
  set_metrics-Keeps r start = search (kept.counted, Keeps-read_world, Keeps-bind Q) depth 9

  pub generic_error-Keeps :
      (r : Request) (path : String) (code : ℤ) → Keeps R (generic_error K L h r path code)
  unfolding generic_error render
  generic_error-Keeps r path code = search (kept.body, Keeps-panic P, Keeps-on_error) depth 9

  abbrev pub world_count : (f : Metrics → Metrics) → Keeps R (in_world K (count K f))
  world_count f = Keeps-in_world _ (kept.counted f)

  pub render-Keeps : (file : String) (p : PageData) → Keeps R (render K L h file p)
  unfolding render
  render-Keeps file p = search (kept.body, Keeps-panic P, Keeps-on_error)

  pub deny-Keeps : (r : Request) (path : String) → Keeps R (deny K L h r path)
  unfolding deny
  deny-Keeps r path = search (kept.header, world_count, generic_error-Keeps, Keeps-bind P) depth 9

  pub no_namespace-Keeps :
      (r : Request) (code : ℤ) (path : String) (start : ℕ)
      → Keeps R (no_namespace K L h r code path start)
  unfolding no_namespace
  no_namespace-Keeps r code path start =
      search
        (
          kept.header,
          world_count,
          generic_error-Keeps,
          set_metrics-Keeps,
          Keeps-in_world,
          Keeps-bind P,
        )
        depth 12

  pub require_verification-Keeps : Keeps R (require_verification K L h)
  unfolding require_verification
  require_verification-Keeps = search (world_count, kept.header, Keeps-bind P) depth 9

  -- What comes before the status, and the status.
  pub head-Keeps :
      ((code : ℤ) → Keeps R (write_header K code))
      → (r : Request) (code : ℤ) → Keeps R (write_head K L h r code)
  unfolding write_head debug_headers copy_header
  head-Keeps status r code =
      search (status, kept.header, Keeps-pure P, Keeps-bind P, Keeps-if, Keeps-for_each P) depth 15
