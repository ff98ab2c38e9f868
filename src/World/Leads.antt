-- ===== src/World/Leads.antt =====
-- Actions that return, with what holds of the value and of the state behind them.
use aergia_controller.Base.{◌≡◌, refl}
use aergia_controller.World.{Outcome, returned, Action, pure, continue, ◌>>=◌}
use aergia_controller.World.Keeps.{Keeps}
use aergia_controller.World.Returns.{Returns}

pub record Leads {S A : Type 0} (m : Action S A) (s : S) (Q : A → S → Type 0) : Type 0 where
  pub value : A
  pub returns : (m s).0 ≡ returned value
  pub holds : Q value (m s).1

module _ {S : Type 0} where
  Leads-continue :
      {A B : Type 0} (r : Outcome A) (a : A) (f : A → Action S B) (s : S) (Q : B → S → Type 0)
      → r ≡ returned a
      → Leads (f a) s Q
      → Leads (continue r f) s Q
  unfolding continue
  Leads-continue r a f s Q e l =
      rw e (record { value = l.value; returns = l.returns; holds = l.holds })

  pub Leads-bind :
      {A B : Type 0} (m : Action S A) (f : A → Action S B) (s : S) (P : A → S → Type 0)
      (Q : B → S → Type 0)
      → Leads m s P
      → ((a : A) (t : S) → P a t → Leads (f a) t Q)
      → Leads (m >>= f) s Q
  unfolding ◌>>=◌
  Leads-bind m f s P Q l k =
      let c = Leads-continue (m s).0 l.value f (m s).1 Q l.returns (k l.value (m s).1 l.holds) in
      record { value = c.value; returns = c.returns; holds = c.holds }

  pub Leads-weaken :
      {A : Type 0} (m : Action S A) (s : S) (P Q : A → S → Type 0)
      → Leads m s P
      → ((a : A) (t : S) → P a t → Q a t)
      → Leads m s Q
  Leads-weaken m s P Q l k = record {
    value = l.value;
    returns = l.returns;
    holds = k l.value (m s).1 l.holds;
  }

  pub Leads-pure : {A : Type 0} (a : A) (s : S) (Q : A → S → Type 0) → Q a s → Leads (pure a) s Q
  unfolding pure
  Leads-pure a s Q q = record { value = a; returns = refl; holds = q }

  -- What returns and keeps a relation.
  pub Leads-kept :
      {A : Type 0} {R : S → S → Type 0} (m : Action S A) (s : S)
      → Returns m
      → Keeps R m
      → Leads m s (λ _ t. R s t)
  Leads-kept m s r k = let (a, e) = r.at s in record { value = a; returns = e; holds = k.at s }
