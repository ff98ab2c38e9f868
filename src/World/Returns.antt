-- ===== src/World/Returns.antt =====
-- Actions that return and do not panic, one rule for each way to build actions.
use mathlib.Core.List.{Memᴰ}
use aergia_controller.Base.{
  String, ◌≡◌, refl, Bool, true, false, Option, none, some, List, [], ◌∷◌, if◌then◌else◌,
}
use aergia_controller.Kube.{Patch, Result, ok, err, Cluster}
use aergia_controller.World.{
  Metrics, World, Outcome, returned, Action, pure, gets, modify, continue, ◌>>=◌, for_each, deref,
  on_reply, on_error, patch_namespace, patch_deployment, patch_ingress, poll, read, count,
}

pub record Returns {S A : Type 0} (m : Action S A) : Type 0 where
  pub at : (s : S) → (a : A) × ((m s).0 ≡ returned a)

module _ {S : Type 0} where
  pub Returns-pure : {A : Type 0} (a : A) → Returns {S = S} (pure a)
  unfolding pure
  Returns-pure a = record { at = λ s. (a, refl) }

  pub Returns-deref : {A : Type 0} (o : Option A) (a : A) → o ≡ some a → Returns {S = S} (deref o)
  Returns-deref o a e = rw e (unfold deref in Returns-pure a)

  Returns-continue :
      {A B : Type 0} (r : Outcome A) (a : A) (f : A → Action S B) (s : S)
      → r ≡ returned a
      → Returns (f a)
      → (b : B) × ((continue r f s).0 ≡ returned b)
  unfolding continue
  Returns-continue r a f s e k = rw e (k.at s)

  pub Returns-bind :
      {A B : Type 0} (m : Action S A) (f : A → Action S B)
      → Returns m
      → ((a : A) → Returns (f a))
      → Returns (m >>= f)
  unfolding ◌>>=◌
  Returns-bind m f km kf = record {
    at = λ s. let (a, e) = km.at s in Returns-continue (m s).0 a f (m s).1 e (kf a);
  }

  pub Returns-for_each :
      {A : Type 0} (xs : List A) (body : A → Action S (Unit {0}))
      → ((x : A) → Memᴰ x xs → Returns (body x))
      → Returns (for_each xs body)
  unfolding for_each
  Returns-for_each [] body k = Returns-pure tt
  Returns-for_each (x ∷ xs) body k =
      Returns-bind _ _ (k x (Memᴰ.head refl))
        (λ _. Returns-for_each xs body (λ y m. k y (Memᴰ.tail m)))

  pub Returns-if :
      {A : Type 0} (b : Bool) (m n : Action S A)
      → Returns m
      → Returns n
      → Returns (if b then m else n)
  Returns-if true m n km kn = km
  Returns-if false m n km kn = kn

  pub Returns-on_reply :
      {A B : Type 0} (r : Result A) (f : A → Action S B) (g : String → Action S B)
      → ((a : A) → Returns (f a))
      → ((e : String) → Returns (g e))
      → Returns (on_reply r f g)
  unfolding on_reply
  Returns-on_reply (ok a) f g kf kg = kf a
  Returns-on_reply (err e) f g kf kg = kg e

  pub Returns-on_error :
      {A : Type 0} (e : Option String) (f : String → Action S A) (m : Action S A)
      → ((t : String) → Returns (f t))
      → Returns m
      → Returns (on_error e f m)
  unfolding on_error
  Returns-on_error none f m kf km = km
  Returns-on_error (some t) f m kf km = kf t

module _ (K : Cluster) where
  pub Returns-read : {A : Type 0} (f : K.State → A) → Returns (read K f)
  unfolding read gets
  Returns-read f = record { at = λ w. (f w.cluster, refl) }

  pub Returns-count : (f : Metrics → Metrics) → Returns (count K f)
  unfolding count modify
  Returns-count f = record { at = λ w. (tt, refl) }

  pub Returns-patch_deployment :
      (ns name : String) (p : Patch) → Returns (patch_deployment K ns name p)
  unfolding patch_deployment
  Returns-patch_deployment ns name p = record { at = λ w. (_, refl) }

  pub Returns-patch_ingress : (ns name : String) (p : Patch) → Returns (patch_ingress K ns name p)
  unfolding patch_ingress
  Returns-patch_ingress ns name p = record { at = λ w. (_, refl) }

  pub Returns-patch_namespace : (ns : String) (p : Patch) → Returns (patch_namespace K ns p)
  unfolding patch_namespace
  Returns-patch_namespace ns p = record { at = λ w. (_, refl) }

  pub Returns-poll : (condition : K.State → Result Bool) → Returns (poll K condition)
  unfolding poll
  Returns-poll condition = record { at = λ w. (_, refl) }

  -- A read whose answer is known to be one of the cluster.
  pub Returns-answered :
      {A B : Type 0} (f : K.State → Result A) (k : A → Action (World K) B)
      (g : String → Action (World K) B)
      → ((s : K.State) (a : A) → f s ≡ ok a → Returns (k a))
      → ((e : String) → Returns (g e))
      → Returns (read K f >>= λ r. on_reply r k g)
  unfolding ◌>>=◌ read gets continue on_reply
  Returns-answered {B} f k g kk kg = record { at = λ w. by_answer w (f w.cluster) refl }
    where
      by_answer :
          (w : World K) (r : Result _)
          → f w.cluster ≡ r
          → (b : B) × ((on_reply r k g w).0 ≡ returned b)
      by_answer w (ok a) e = (kk w.cluster a e).at w
      by_answer w (err e) _ = (kg e).at w
