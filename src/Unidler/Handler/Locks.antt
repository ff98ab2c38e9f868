-- ===== src/Unidler/Handler/Locks.antt =====
-- What the handler does to the cluster, the locks and the goroutines.
use aergia_controller.Base.{
  String, ◌≡◌, refl, ◌∙◌, ap, true, false, List, [], ◌∷◌, ◌++◌, map, ℤ, ==_iff, contains,
  contains-append, Bool-cases, inl, inr, arith,
}
use aergia_controller.Stdlib.{Stdlib}
use aergia_controller.Kube.{Namespace, Cluster}
use aergia_controller.Kube.Lawful.{IsLawful}
use aergia_controller.World.{World, ◌>>=◌, count}
use aergia_controller.World.Keeps.{IsPreorder, Keeps, Keeps-modify}
use aergia_controller.Unidler.Config.{Unidler, Request}
use aergia_controller.Unidler.Response.{Exchange, set_header, write_header, write}
use aergia_controller.Unidler.Handler.{start_unidle, ingress_handler}
use aergia_controller.Unidler.Handler.Walk.{Within, IsKept}
use aergia_controller.Unidler.Handler.Whole.{allow_verified-Keeps, ingress_handler-Keeps}

-- The names of the namespaces that are being unidled.
abbrev pub running : {K : Cluster} → World K → List String
running w = map Namespace.name w.goroutines

abbrev pub AreDistinct : List String → Type 0
AreDistinct [] = Unit
AreDistinct (n ∷ ns) = (contains ns n ≡ false) × AreDistinct ns

-- Every namespace that is being unidled holds its lock, and none is unidled twice at once.
pub record IsLocked {K : Cluster} (w : World K) : Type 0 where
  pub held : (n : String) → contains (running w) n ≡ true → contains w.locks n ≡ true
  pub distinct : AreDistinct (running w)

AreDistinct-append :
    (ns : List String) (n : String)
    → contains ns n ≡ false
    → AreDistinct ns
    → AreDistinct (ns ++ n ∷ [])
AreDistinct-append [] n h d = (refl, tt)
AreDistinct-append (m ∷ ns) n h (f, d) = (
  rw (contains-append ns (n ∷ []) m) (ground (arith, ==_iff m n, ==_iff n m)),
  AreDistinct-append ns n (ground arith) d,
)

module _ (K : Cluster) where
  -- The cluster is the same, and the locks stay in order.
  record LocksKept (x y : Exchange K) : Type 0 where
    same : y.world.cluster ≡ x.world.cluster
    locked : IsLocked x.world → IsLocked y.world

  LocksKept-IsPreorder : IsPreorder LocksKept
  LocksKept-IsPreorder = record {
    reflexive = λ x. record { same = refl; locked = λ l. l };
    transitive =
        λ x y z p q. record { same = q.same ∙ p.same; locked = λ l. q.locked (p.locked l) };
  }

  pub running-append :
      (gs : List Namespace) (ns : Namespace)
      → map Namespace.name (gs ++ ns ∷ []) ≡ map Namespace.name gs ++ ns.name ∷ []
  running-append [] ns = refl
  running-append (g ∷ gs) ns = rw (running-append gs ns)

  IsLocked-start :
      (w : World K) (name : String) (ns : Namespace)
      → ns.name ≡ name
      → contains w.locks name ≡ false
      → IsLocked w
      → IsLocked (record w { locks = name ∷ w.locks; goroutines = w.goroutines ++ ns ∷ [] })
  IsLocked-start w name ns e free l =
      let absent : contains (running w) ns.name ≡ false = rw e (ground (arith, l.held name)) in
      record {
        held = λ n h. ground (
          arith,
          l.held n,
          ap (λ t. contains t n) (running-append w.goroutines ns),
          contains-append (running w) (ns.name ∷ []) n,
          ==_iff ns.name n,
          ==_iff name n,
        );
        distinct =
            rw (running-append w.goroutines ns)
              (AreDistinct-append (running w) ns.name absent l.distinct);
      }

  module _ (L : Stdlib) (h : Unidler) where
    LocksKept-IsKept : IsKept K L h LocksKept
    LocksKept-IsKept = record {
      order = LocksKept-IsPreorder;
      header =
          λ k v. unfold set_header in Keeps-modify _ (λ x. record { same = refl; locked = λ l. l });
      body = λ b. unfold write in Keeps-modify _ (λ x. record { same = refl; locked = λ l. l });
      counted = λ f.
          unfold count in
          Keeps-modify _ (λ w r. record {
            same = refl;
            locked = λ l. record { held = l.held; distinct = l.distinct };
          });
    }

    start-LocksKept :
        (name : String) (ns : Namespace)
        → ns.name ≡ name
        → Keeps (Within K LocksKept) (start_unidle K L h name ns)
    unfolding start_unidle ◌>>=◌
    start-LocksKept name ns e = record {
      at = λ w r. elim (Bool-cases (contains w.locks name)) [
        | inl t ↦ rw t (record { same = refl; locked = λ l. l })
        | inr f ↦ rw f (record {
          same = refl;
          locked =
              λ l. IsLocked-start w name ns e f (record { held = l.held; distinct = l.distinct });
        })
      ];
    }

    pub world-write_header : (code : ℤ) (x : Exchange K) → (write_header K code x).1.world ≡ x.world
    unfolding write_header
    world-write_header code x = ground arith

    status-LocksKept : (code : ℤ) → Keeps LocksKept (write_header K code)
    status-LocksKept code = record {
      at = λ x. record {
        same = ap World.cluster (world-write_header code x);
        locked = λ l. rw (world-write_header code x) l;
      };
    }

    -- Over a lawful cluster, a request never changes the cluster by itself, only through the
    -- unidling that it starts, and it keeps the invariant that every running unidling holds the
    -- lock of its namespace and no namespace is unidled twice at once. Requests follow one another.
    pub ingress_handler_locks :
        (law : IsLawful K) (path : String) (r : Request) (x : Exchange K)
        → let y = (ingress_handler K L h path r x).1 in
          (y.world.cluster ≡ x.world.cluster) × (IsLocked x.world → IsLocked y.world)
    ingress_handler_locks law path r x =
        let kept =
          (ingress_handler-Keeps K L h LocksKept-IsKept r
              (λ name ns i e _ _.
                allow_verified-Keeps K L h LocksKept-IsKept name ns (start-LocksKept name ns e))
              status-LocksKept law.named path).at
            x in
        (kept.same, kept.locked)
