-- ===== src/Unidler/Handler/Started.antt =====
-- The cluster, the locks and the goroutines, before and after what a request does.
use aergia_controller.Base.{ℤ, String, ◌≡◌, refl, ◌∙◌, ap, false, [], ◌∷◌, ◌++◌, contains}
use aergia_controller.Stdlib.{Stdlib}
use aergia_controller.Kube.{Namespace, Cluster}
use aergia_controller.World.{World, Action, pure, continue, ◌>>=◌, modify, gets, count}
use aergia_controller.World.Keeps.{IsPreorder, Keeps, Keeps-modify}
use aergia_controller.World.Returns.{Returns}
use aergia_controller.World.Leads.{Leads, Leads-weaken, Leads-kept}
use aergia_controller.Unidler.Config.{Unidler}
use aergia_controller.Unidler.Response.{Exchange, set_header, write_header, write, in_world}
use aergia_controller.Unidler.Handler.{start_unidle, allow_verified}
use aergia_controller.Unidler.Handler.Locks.{world-write_header}
use aergia_controller.Unidler.Handler.Walk.{IsKept}

module _ (K : Cluster) where
  -- Cluster, locks and goroutines are as before.
  pub record StateSame (x y : Exchange K) : Type 0 where
    pub cluster : y.world.cluster ≡ x.world.cluster
    pub locks : y.world.locks ≡ x.world.locks
    pub goroutines : y.world.goroutines ≡ x.world.goroutines

  -- The lock of the namespace is taken and its unidling is started, and nothing else.
  pub record Started (name : String) (ns : Namespace) (x y : Exchange K) : Type 0 where
    pub cluster : y.world.cluster ≡ x.world.cluster
    pub locks : y.world.locks ≡ name ∷ x.world.locks
    pub goroutines : y.world.goroutines ≡ x.world.goroutines ++ ns ∷ []

  pub StateSame-IsPreorder : IsPreorder StateSame
  StateSame-IsPreorder = record {
    reflexive = λ x. record { cluster = refl; locks = refl; goroutines = refl };
    transitive = λ x y z p q. record {
      cluster = q.cluster ∙ p.cluster;
      locks = q.locks ∙ p.locks;
      goroutines = q.goroutines ∙ p.goroutines;
    };
  }

  pub Started-StateSame :
      (name : String) (ns : Namespace) (x y z : Exchange K)
      → Started name ns x y
      → StateSame y z
      → Started name ns x z
  Started-StateSame name ns x y z p q = record {
    cluster = q.cluster ∙ p.cluster;
    locks = q.locks ∙ p.locks;
    goroutines = q.goroutines ∙ p.goroutines;
  }

  pub StateSame-IsKept : (L : Stdlib) (h : Unidler) → IsKept K L h StateSame
  StateSame-IsKept L h = record {
    order = StateSame-IsPreorder;
    header = λ k v.
        unfold set_header in
        Keeps-modify _ (λ x. record { cluster = refl; locks = refl; goroutines = refl });
    body = λ b.
        unfold write in
        Keeps-modify _ (λ x. record { cluster = refl; locks = refl; goroutines = refl });
    counted = λ f.
        unfold count in
        Keeps-modify _ (λ w r. record { cluster = refl; locks = refl; goroutines = refl });
  }

  -- A status changes the response alone.
  pub status-StateSame :
      (L : Stdlib) (h : Unidler) (code : ℤ) → Keeps StateSame (write_header K code)
  status-StateSame L h code = record {
    at = λ x.
        let same = world-write_header K L h code x in
        record {
          cluster = ap World.cluster same;
          locks = ap World.locks same;
          goroutines = ap World.goroutines same;
        };
  }

  module _ (L : Stdlib) (h : Unidler) (x : Exchange K) where
    -- What returns and changes none of the three.
    pub StateSame-Leads :
        {A : Type 0} (m : Action (Exchange K) A) (y : Exchange K)
        → Returns m
        → Keeps StateSame m
        → StateSame x y
        → Leads m y (λ _ z. StateSame x z)
    StateSame-Leads m y r k p =
        Leads-weaken m y (λ _ z. StateSame y z) (λ _ z. StateSame x z) (Leads-kept m y r k)
          (λ a z q. StateSame-IsPreorder.transitive x y z p q)

    pub Started-Leads :
        {A : Type 0} (name : String) (ns : Namespace) (m : Action (Exchange K) A) (y : Exchange K)
        → Returns m
        → Keeps StateSame m
        → Started name ns x y
        → Leads m y (λ _ z. Started name ns x z)
    Started-Leads name ns m y r k p =
        Leads-weaken m y (λ _ z. StateSame y z) (λ _ z. Started name ns x z) (Leads-kept m y r k)
          (λ a z q. Started-StateSame name ns x y z p q)

    pub allow_verified-Leads :
        (name : String) (ns : Namespace) (y : Exchange K)
        → contains x.world.locks name ≡ false
        → StateSame x y
        → Leads (allow_verified K L h name ns) y (λ _ z. Started name ns x z)
    unfolding allow_verified start_unidle ◌>>=◌ in_world count modify set_header gets continue pure
    allow_verified-Leads name ns y free p =
        let f : contains y.world.locks name ≡ false = ap (λ l. contains l name) p.locks ∙ free in
        record {
          value = tt;
          returns = rw f;
          holds = rw f (record {
            cluster = p.cluster;
            locks = ap (λ l. name ∷ l) p.locks;
            goroutines = ap (λ g. g ++ ns ∷ []) p.goroutines;
          });
        }
