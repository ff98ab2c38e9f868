-- ===== src/Main/Locks.antt =====
-- The locks of a started program, as steps of the interleaved model of the lock.
pub mod Whole
use mathlib.Core.Path.{subst}
use mathlib.Core.List.{Memᴰ}
use aergia_controller.Base.{
  String, ◌≡◌, refl, sym, ◌∙◌, ap, Bool, true, false, List, [], ◌∷◌, map, ◌==◌, ==_iff, ==_refl,
  contains, arith, if◌then◌else◌, Bool-cases, inl, inr, ◌||◌,
}
use aergia_controller.Stdlib.{Stdlib}
use aergia_controller.Kube.{Namespace, Deployment, Patch, ok, Cluster}
use aergia_controller.Kube.Lawful.{IsLawful}
use aergia_controller.World.{
  Metrics, World, count, patch_deployment, patch_ingress, patch_namespace,
}
use aergia_controller.World.Keeps.{
  IsPreorder, Keeps, Keeps-pure, Keeps-deref, Keeps-bind, Keeps-if, Keeps-modify,
}
use aergia_controller.Unidler.Unidle.{remove_lock, unidle}
use aergia_controller.Unidler.Unidle.Locks.{
  LocksSame, LocksSame-IsPreorder, patch_deployment-LocksSame, patch_ingress-LocksSame,
  patch_namespace-LocksSame, count-LocksSame, unidle_left,
}
use aergia_controller.Unidler.Handler.Locks.{running}
use aergia_controller.Unidler.Locking.{
  Locking, drop_one, after_call, after_delete, Step, call, delete, Steps, done, next,
}
use aergia_controller.Unidler.Locking.Interleavings.{locking, first_pending}
use aergia_controller.Main.Events.{drop_goroutine, after_goroutine}
use aergia_controller.Main.{Program}

Steps-append : (l m n : Locking) → Steps l m → Steps m n → Steps l n
Steps-append l m _ p (done _) = p
Steps-append l m _ p (next _ k n q s) = next l k n (Steps-append l m k p q) s

module _ (K : Cluster) where
  -- The locks and the goroutines go through steps of the interleaved model.
  pub record Stepped (w w' : World K) : Type 0 where
    pub steps : Steps (locking w) (locking w')

  pub Stepped-IsPreorder : IsPreorder Stepped
  Stepped-IsPreorder = record {
    reflexive = λ w. record { steps = done (locking w) };
    transitive = λ a b c p q. record { steps = Steps-append _ _ _ p.steps q.steps };
  }

  pub same-Stepped : (w w' : World K) → LocksSame K w w' → Stepped w w'
  same-Stepped w w' s =
      let e : locking w' ≡ locking w = rw (s.locks, s.goroutines) in
      record { steps = subst (λ l. Steps (locking w) l) (sym e) (done (locking w)) }

  map-drop_goroutine :
      (name : String) (gs : List Namespace)
      → map Namespace.name (drop_goroutine name gs) ≡ drop_one name (map Namespace.name gs)
  unfolding drop_goroutine drop_one
  map-drop_goroutine name [] = refl
  map-drop_goroutine name (g ∷ gs) = elim (Bool-cases (g.name == name)) [
    | inl e ↦ rw e
    | inr e ↦ rw (e, map-drop_goroutine name gs)
  ]

  running_there :
      (ns : Namespace) (gs : List Namespace)
      → Memᴰ ns gs
      → contains (map Namespace.name gs) ns.name ≡ true
  running_there ns [] m = elim m [ ]
  running_there ns (g ∷ gs) (Memᴰ.head e) = rw (e, ==_refl g.name)
  running_there ns (g ∷ gs) (Memᴰ.tail m) = ground (arith, running_there ns gs m)

  -- The unidling of the reconciler.
  called_and_deleted :
      (ns : Namespace) (w : World K)
      → after_delete ns.name (after_call ns.name (locking w)) ≡ locking (unidle K ns w).1
  unfolding drop_one
  called_and_deleted ns w = rw (==_refl ns.name, (unidle_left K ns w).0, (unidle_left K ns w).1)

  pub unidle-Stepped : (ns : Namespace) → Keeps Stepped (unidle K ns)
  unidle-Stepped ns = record {
    at = λ w. record {
      steps =
          subst (λ l. Steps (locking w) l) (called_and_deleted ns w)
            (next _ (after_call ns.name (locking w)) _
              (next _ (locking w) _ (done (locking w)) (call ns.name (locking w)))
              (delete ns.name (after_call ns.name (locking w)) (first_pending ns.name _)));
    };
  }

  goroutine_deleted :
      (L : Stdlib) (p : Program) (ns : Namespace) (w : World K)
      → after_delete ns.name (locking w) ≡ locking (after_goroutine K L p ns w)
  unfolding after_goroutine
  goroutine_deleted L p ns w =
      rw ((unidle_left K ns w).0, (unidle_left K ns w).1, map-drop_goroutine ns.name w.goroutines)

  pub after_goroutine-Stepped :
      (L : Stdlib) (p : Program) (ns : Namespace) (w : World K)
      → Memᴰ ns w.goroutines
      → Stepped w (after_goroutine K L p ns w)
  after_goroutine-Stepped L p ns w m = record {
    steps =
        subst (λ l. Steps (locking w) l) (goroutine_deleted L p ns w)
          (next _ (locking w) _ (done (locking w))
            (delete ns.name (locking w) (running_there ns w.goroutines m)));
  }
