-- ===== src/World/Ends.antt =====
-- What holds behind an action: of the value and the state where it returns, of the state where it
-- panics.
use aergia_controller.Base.{String, Bool, true, false, ◌≡◌, refl, if◌then◌else◌}
use aergia_controller.Kube.{Result, ok, err}
use aergia_controller.World.{Outcome, returned, panicked, Action, pure, continue, ◌>>=◌, on_reply}

abbrev pub After : {S A : Type 0} → (A → S → Type 0) → (S → Type 0) → Outcome A → S → Type 0
After P E (returned a) s = P a s
After P E (panicked e) s = E s

pub record Ends {S A : Type 0} (m : Action S A) (s : S) (P : A → S → Type 0) (E : S → Type 0)
    : Type 0 where
  pub holds : After P E (m s).0 (m s).1

module _ {S : Type 0} where
  After-both :
      {A : Type 0} (E : S → Type 0) (r : Outcome A) (s : S) (P : S → Type 0)
      → P s
      → (P s → E s)
      → After (λ _. P) E r s
  After-both E (returned a) s P p e = p
  After-both E (panicked t) s P p e = e p

  After-any : {A : Type 0} (E : S → Type 0) (r : Outcome A) (s : S) → After (λ _. E) E r s → E s
  After-any E (returned a) s p = p
  After-any E (panicked t) s p = p

  After-weaken :
      {A : Type 0} (E : S → Type 0) (r : Outcome A) (s : S) (P Q : A → S → Type 0)
      → After P E r s
      → ((a : A) → P a s → Q a s)
      → After Q E r s
  After-weaken E (returned a) s P Q p k = k a p
  After-weaken E (panicked t) s P Q p k = p

module _ {S : Type 0} {E : S → Type 0} where
  pub Ends-pure : {A : Type 0} (a : A) (s : S) (P : A → S → Type 0) → P a s → Ends (pure a) s P E
  unfolding pure
  Ends-pure a s P p = record { holds = p }

  Ends-continue :
      {A B : Type 0} (r : Outcome A) (f : A → Action S B) (s : S) (P : A → S → Type 0)
      (Q : B → S → Type 0)
      → After P E r s
      → ((a : A) → P a s → Ends (f a) s Q E)
      → Ends (continue r f) s Q E
  unfolding continue
  Ends-continue (returned a) f s P Q p k = record { holds = (k a p).holds }
  Ends-continue (panicked e) f s P Q p k = record { holds = p }

  pub Ends-bind :
      {A B : Type 0} (m : Action S A) (f : A → Action S B) (s : S) (P : A → S → Type 0)
      (Q : B → S → Type 0)
      → Ends m s P E
      → ((a : A) (t : S) → P a t → Ends (f a) t Q E)
      → Ends (m >>= f) s Q E
  unfolding ◌>>=◌
  Ends-bind m f s P Q p k = record {
    holds = (Ends-continue (m s).0 f (m s).1 P Q p.holds (λ a. k a (m s).1)).holds;
  }

  pub Ends-weaken :
      {A : Type 0} (m : Action S A) (s : S) (P Q : A → S → Type 0)
      → Ends m s P E
      → ((a : A) (t : S) → P a t → Q a t)
      → Ends m s Q E
  Ends-weaken m s P Q p k = record {
    holds = After-weaken E (m s).0 (m s).1 P Q p.holds (λ a. k a (m s).1);
  }

  -- What holds in the state behind the action, however it ends.
  pub Ends-both :
      {A : Type 0} (m : Action S A) (s : S) (P : S → Type 0)
      → P (m s).1
      → (P (m s).1 → E (m s).1)
      → Ends m s (λ _. P) E
  Ends-both m s P p e = record { holds = After-both E (m s).0 (m s).1 P p e }

  pub Ends-any : {A : Type 0} (m : Action S A) (s : S) → Ends m s (λ _. E) E → E (m s).1
  Ends-any m s p = After-any E (m s).0 (m s).1 p.holds

  pub Ends-if :
      {A : Type 0} (b : Bool) (m n : Action S A) (s : S) (P : A → S → Type 0)
      → (b ≡ true → Ends m s P E)
      → (b ≡ false → Ends n s P E)
      → Ends (if b then m else n) s P E
  Ends-if true m n s P p q = record { holds = (p refl).holds }
  Ends-if false m n s P p q = record { holds = (q refl).holds }

  pub Ends-on_reply :
      {A B : Type 0} (r : Result A) (f : A → Action S B) (g : String → Action S B) (s : S)
      (P : B → S → Type 0)
      → ((a : A) → r ≡ ok a → Ends (f a) s P E)
      → ((e : String) → Ends (g e) s P E)
      → Ends (on_reply r f g) s P E
  unfolding on_reply
  Ends-on_reply (ok a) f g s P p q = record { holds = (p a refl).holds }
  Ends-on_reply (err e) f g s P p q = record { holds = (q e).holds }
