-- ===== src/Unidler/Unidle/Locks.antt =====
-- The lock of a namespace that is unidled.
use aergia_controller.Base.{
  String, ◌≡◌, refl, ◌∙◌, ap, Bool, not, ◌&&◌, List, [], ◌∷◌, ◌==◌, ==_iff, contains, arith,
}
use aergia_controller.Kube.{Namespace, Deployment, Patch, Result, Cluster}
use aergia_controller.World.{
  Metrics, World, count, poll, patch_deployment, patch_ingress, patch_namespace,
}
use aergia_controller.World.Keeps.{
  IsPreorder, Keeps, Keeps-pure, Keeps-deref, Keeps-bind, Keeps-if, Keeps-modify,
}
use aergia_controller.Unidler.Unidle.{remove_lock, defer_unlock, unidle_deployment, unidle}
use aergia_controller.Unidler.Unidle.Walk.{unidle_watched-Keeps}

pub contains-remove_lock :
    (k : String) (ls : List String) (n : String)
    → contains (remove_lock k ls) n ≡ (contains ls n && not (n == k))
unfolding remove_lock
contains-remove_lock k [] n = refl
contains-remove_lock k (l ∷ ls) n =
    ground (arith, contains-remove_lock k ls n, ==_iff l k, ==_iff l n, ==_iff n k)

module _ (K : Cluster) where
  -- The locks and the goroutines are the same.
  pub record LocksSame (w w' : World K) : Type 0 where
    pub locks : w'.locks ≡ w.locks
    pub goroutines : w'.goroutines ≡ w.goroutines

  pub LocksSame-IsPreorder : IsPreorder LocksSame
  LocksSame-IsPreorder = record {
    reflexive = λ w. record { locks = refl; goroutines = refl };
    transitive =
        λ a b c p q. record { locks = q.locks ∙ p.locks; goroutines = q.goroutines ∙ p.goroutines };
  }

  pub patch_deployment-LocksSame :
      (ns name : String) (p : Patch) → Keeps LocksSame (patch_deployment K ns name p)
  unfolding patch_deployment
  patch_deployment-LocksSame ns name p = record {
    at = λ w. record { locks = refl; goroutines = refl };
  }

  pub patch_ingress-LocksSame :
      (ns name : String) (p : Patch) → Keeps LocksSame (patch_ingress K ns name p)
  unfolding patch_ingress
  patch_ingress-LocksSame ns name p = record {
    at = λ w. record { locks = refl; goroutines = refl };
  }

  pub patch_namespace-LocksSame :
      (ns : String) (p : Patch) → Keeps LocksSame (patch_namespace K ns p)
  unfolding patch_namespace
  patch_namespace-LocksSame ns p = record { at = λ w. record { locks = refl; goroutines = refl } }

  poll-LocksSame : (c : K.State → Result Bool) → Keeps LocksSame (poll K c)
  unfolding poll
  poll-LocksSame c = record { at = λ w. record { locks = refl; goroutines = refl } }

  pub count-LocksSame : (f : Metrics → Metrics) → Keeps LocksSame (count K f)
  unfolding count
  count-LocksSame f = Keeps-modify _ λ w. record { locks = refl; goroutines = refl }

  unidle_deployment-LocksSame : (d : Deployment) → Keeps LocksSame (unidle_deployment K d)
  unfolding unidle_deployment
  unidle_deployment-LocksSame d =
      search
        (
          patch_deployment-LocksSame,
          Keeps-pure LocksSame-IsPreorder,
          Keeps-deref LocksSame-IsPreorder,
          Keeps-bind LocksSame-IsPreorder,
          Keeps-if,
        )
        depth 10

  -- Exactly the locks that are left, and the goroutines.
  pub unidle_left :
      (ns : Namespace) (w : World K)
      → ((unidle K ns w).1.locks ≡ remove_lock ns.name w.locks)
        × ((unidle K ns w).1.goroutines ≡ w.goroutines)
  unfolding unidle defer_unlock
  unidle_left ns w =
      let kept =
        (unidle_watched-Keeps K LocksSame-IsPreorder patch_ingress-LocksSame
            patch_namespace-LocksSame count-LocksSame poll-LocksSame unidle_deployment-LocksSame
            ns).at
          w in
      (ap (remove_lock ns.name) kept.locks, kept.goroutines)

  -- Whether it returns or panics, the unidling of a namespace ends with the lock of that namespace
  -- gone and every other lock as before, and it starts no other unidling.
  pub unidle-locks :
      (ns : Namespace) (w : World K)
      → let w' = (unidle K ns w).1 in
        ((k : String) → contains w'.locks k ≡ (contains w.locks k && not (k == ns.name)))
        × (w'.goroutines ≡ w.goroutines)
  unidle-locks ns w = (
    λ k. ap (λ ls. contains ls k) (unidle_left ns w).0 ∙ contains-remove_lock ns.name w.locks k,
    (unidle_left ns w).1,
  )
