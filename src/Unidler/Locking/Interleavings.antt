-- ===== src/Unidler/Locking/Interleavings.antt =====
-- What holds of the lock whatever the order of the steps, and what does not.
use mathlib.Core.Path.{subst}
use aergia_controller.Base.{
  String, ◌≡◌, refl, true, false, ◌||◌, List, [], ◌∷◌, ◌++◌, ◌==◌, ==_iff, ==_refl, contains,
  contains-append, Bool-cases, inl, inr, arith,
}
use aergia_controller.Stdlib.{Stdlib}
use aergia_controller.Kube.{Namespace, Cluster}
use aergia_controller.World.{World, ◌>>=◌}
use aergia_controller.Unidler.Config.{Unidler}
use aergia_controller.Unidler.Unidle.Locks.{contains-remove_lock}
use aergia_controller.Unidler.Handler.{start_unidle}
use aergia_controller.Unidler.Handler.Locks.{running, running-append}
use aergia_controller.Unidler.Locking.{
  Locking, unlocked, load_or_store, drop_one, after_load, after_store, Step, load, store, call,
  delete, Steps, done, next,
}

contains-drop_one :
    (m : String) (xs : List String) (n : String)
    → (n == m) ≡ false
    → contains (drop_one m xs) n ≡ contains xs n
unfolding drop_one
contains-drop_one m [] n h = refl
contains-drop_one m (x ∷ xs) n h =
    ground (arith, contains-drop_one m xs n h, ==_iff x m, ==_iff x n, ==_iff n m)

contains-load_or_store :
    (m : String) (ls : List String) (n : String)
    → contains (load_or_store m ls) n ≡ (contains ls n || m == n)
unfolding load_or_store
contains-load_or_store m ls n = elim (Bool-cases (contains ls m)) [
  | inl e ↦ rw e (ground (arith, ==_iff m n))
  | inr e ↦ rw e (ground arith)
]

-- Every lock is that of a call that runs.
abbrev pub HasNoStaleLock : Locking → Type 0
HasNoStaleLock l = (n : String) → contains l.locks n ≡ true → contains l.running n ≡ true

Step-HasNoStaleLock : (l m : Locking) → Step l m → HasNoStaleLock l → HasNoStaleLock m
Step-HasNoStaleLock l _ (load n _ free) inv = inv
Step-HasNoStaleLock l _ (store n _ there) inv = λ k locked. ground (
  arith,
  inv k,
  contains-load_or_store n l.locks k,
  contains-append l.running (n ∷ []) k,
  ==_iff n k,
)
Step-HasNoStaleLock l _ (call n _) inv =
    λ k locked. ground (arith, inv k, contains-append l.running (n ∷ []) k)
Step-HasNoStaleLock l _ (delete n _ there) inv = λ k locked.
    ground (arith, inv k, contains-remove_lock n l.locks k, contains-drop_one n l.running k)

kept_by-Steps : (l m : Locking) → Steps l m → HasNoStaleLock l → HasNoStaleLock m
kept_by-Steps l _ (done _) inv = inv
kept_by-Steps l _ (next _ m n steps step) inv =
    Step-HasNoStaleLock m n step (kept_by-Steps l m steps inv)

-- In whatever order requests look for the lock of a namespace, take it and start its unidling, the
-- reconciler calls unidlings, and unidlings end, every lock that is held is that of a namespace of
-- which an unidling runs, so none is left behind.
pub Steps-HasNoStaleLock : (l : Locking) → Steps unlocked l → HasNoStaleLock l
Steps-HasNoStaleLock l steps = kept_by-Steps unlocked l steps (λ n locked. cc)

abbrev two_loads : String → Locking
two_loads n = after_load n (after_load n unlocked)

two_stores :
    (n : String)
    → after_store n (after_store n (two_loads n))
      ≡ record { locks = n ∷ []; pending = []; running = n ∷ n ∷ [] }
unfolding drop_one load_or_store
two_stores n = rw (==_refl n, ==_refl n)

pub first_pending : (n : String) (ns : List String) → contains (n ∷ ns) n ≡ true
first_pending n ns = rw (==_refl n)

still_pending : (n : String) → contains (drop_one n (n ∷ n ∷ [])) n ≡ true
unfolding drop_one
still_pending n = rw (==_refl n) (ground (arith, ==_refl n))

-- The lock does not keep a namespace from being unidled twice at once: for every namespace there is
-- an order of steps, of two requests alone, that ends with two unidlings of it running.
pub Steps-race :
    (n : String) → Steps unlocked (record { locks = n ∷ []; pending = []; running = n ∷ n ∷ [] })
Steps-race n =
    subst (λ l. Steps unlocked l) (two_stores n)
      (next _ (after_store n (two_loads n)) _
        (next _ (two_loads n) _
          (next _ (after_load n unlocked) _
            (next _ unlocked _ (done unlocked) (load n unlocked refl))
            (load n (after_load n unlocked) refl))
          (store n (two_loads n) (first_pending n (n ∷ []))))
        (store n (after_store n (two_loads n)) (still_pending n)))

abbrev pub locking : {K : Cluster} → World K → Locking
locking w = record { locks = w.locks; pending = []; running = running w }

store_after_load :
    (K : Cluster) (ns : Namespace) (w : World K)
    → contains w.locks ns.name ≡ false
    → after_store ns.name (after_load ns.name (locking w))
      ≡ locking (record w { locks = ns.name ∷ w.locks; goroutines = w.goroutines ++ ns ∷ [] })
unfolding drop_one load_or_store
store_after_load K ns w free = rw (running-append K w.goroutines ns, free, ==_refl ns.name)

-- What the handler does to the locks and the running unidlings, where nothing comes between, are
-- steps of the interleaved model.
pub start_unidle-Steps :
    (K : Cluster) (L : Stdlib) (h : Unidler) (ns : Namespace) (w : World K)
    → Steps (locking w) (locking (start_unidle K L h ns.name ns w).1)
unfolding start_unidle ◌>>=◌
start_unidle-Steps K L h ns w = elim (Bool-cases (contains w.locks ns.name)) [
  | inl t ↦ rw t (done (locking w))
  | inr free ↦ rw free (
      subst (λ l. Steps (locking w) l) (store_after_load K ns w free)
        (next _ (after_load ns.name (locking w)) _
          (next _ (locking w) _ (done (locking w)) (load ns.name (locking w) free))
          (store ns.name (after_load ns.name (locking w)) (first_pending ns.name []))))
]
