-- ===== src/World/Keeps.antt =====
-- Relations between the state before and after an action, one rule for each way to build actions.
use aergia_controller.Base.{
  String, Bool, true, false, ◌≡◌, refl, Option, none, some, List, [], ◌∷◌, if◌then◌else◌,
}
use aergia_controller.Kube.{Result, ok, err}
use aergia_controller.World.{
  Outcome, returned, panicked, Action, pure, panic, gets, modify, continue, ◌>>=◌, for_each, deref,
  on_reply, on_error,
}

-- A relation that holds where nothing changes, and of a sequence if of its steps.
pub record IsPreorder {S : Type 0} (R : S → S → Type 0) : Type 0 where
  pub reflexive : (s : S) → R s s
  pub transitive : (s t u : S) → R s t → R t u → R s u

-- `m` keeps `R` from the state before to the state after, whether it returns or panics.
pub record Keeps {S A : Type 0} (R : S → S → Type 0) (m : Action S A) : Type 0 where
  pub at : (s : S) → R s (m s).1

module _ {S : Type 0} {R : S → S → Type 0} (P : IsPreorder R) where
  pub Keeps-pure : {A : Type 0} (a : A) → Keeps R (pure a)
  unfolding pure
  Keeps-pure a = record { at = P.reflexive }

  pub Keeps-panic : {A : Type 0} (e : String) → Keeps R (panic {A = A} e)
  unfolding panic
  Keeps-panic e = record { at = P.reflexive }

  pub Keeps-gets : {A : Type 0} (f : S → A) → Keeps R (gets f)
  unfolding gets
  Keeps-gets f = record { at = P.reflexive }

  pub Keeps-deref : {A : Type 0} (o : Option A) → Keeps R (deref o)
  unfolding deref
  Keeps-deref none = Keeps-panic _
  Keeps-deref (some a) = Keeps-pure a

  Keeps-continue :
      {A B : Type 0} (r : Outcome A) (f : A → Action S B)
      → ((a : A) → Keeps R (f a))
      → Keeps R (continue r f)
  unfolding continue
  Keeps-continue (returned a) f k = k a
  Keeps-continue (panicked e) f k = record { at = P.reflexive }

  pub Keeps-bind :
      {A B : Type 0} (m : Action S A) (f : A → Action S B)
      → Keeps R m
      → ((a : A) → Keeps R (f a))
      → Keeps R (m >>= f)
  unfolding ◌>>=◌
  Keeps-bind m f km kf = record {
    at = λ s. P.transitive s _ _ (km.at s) ((Keeps-continue (m s).0 f kf).at (m s).1);
  }

  pub Keeps-for_each :
      {A : Type 0} (xs : List A) (body : A → Action S (Unit {0}))
      → ((x : A) → Keeps R (body x))
      → Keeps R (for_each xs body)
  unfolding for_each
  Keeps-for_each [] body k = Keeps-pure tt
  Keeps-for_each (x ∷ xs) body k = Keeps-bind _ _ (k x) (λ _. Keeps-for_each xs body k)

module _ {S : Type 0} {R : S → S → Type 0} where
  pub Keeps-if :
      {A : Type 0} (b : Bool) (m n : Action S A)
      → (b ≡ true → Keeps R m)
      → (b ≡ false → Keeps R n)
      → Keeps R (if b then m else n)
  Keeps-if true m n km kn = km refl
  Keeps-if false m n km kn = kn refl

  pub Keeps-on_reply :
      {A B : Type 0} (r : Result A) (f : A → Action S B) (g : String → Action S B)
      → ((a : A) → Keeps R (f a))
      → ((e : String) → Keeps R (g e))
      → Keeps R (on_reply r f g)
  unfolding on_reply
  Keeps-on_reply (ok a) f g kf kg = kf a
  Keeps-on_reply (err e) f g kf kg = kg e

  pub Keeps-modify : (f : S → S) → ((s : S) → R s (f s)) → Keeps R (modify f)
  unfolding modify
  Keeps-modify f k = record { at = k }

  pub Keeps-on_error :
      {A : Type 0} (e : Option String) (f : String → Action S A) (m : Action S A)
      → ((t : String) → Keeps R (f t))
      → Keeps R m
      → Keeps R (on_error e f m)
  unfolding on_error
  Keeps-on_error none f m kf km = km
  Keeps-on_error (some t) f m kf km = kf t
