-- ===== src/Unidler/Handler/Answers.antt =====
-- The answer to a request, whatever it is: it starts an unidling only where the request is let in.
use aergia_controller.Base.{
  ℕ, ℤ, String, ◌≡◌, refl, ◌∙◌, sym, ap, Bool, true, false, Option, none, some, List, [], ◌∷◌, ◌++◌,
  ◌⊎◌, inl, inr, ◌==◌, contains, Bool-cases, arith,
}
use aergia_controller.Stdlib.{Stdlib}
use aergia_controller.Kube.{Namespace, Ingress, Deployment, Result, ok, err, Cluster}
use aergia_controller.World.{
  Action, pure, continue, ◌>>=◌, gets, modify, read, count, deref, on_reply,
}
use aergia_controller.World.Ends.{Ends, Ends-pure, Ends-bind, Ends-if}
use aergia_controller.Unidler.Config.{Unidler, Request}
use aergia_controller.Unidler.Checks.{check_force_scaled}
use aergia_controller.Unidler.Requests.{request_namespace, verify_request}
use aergia_controller.Unidler.Requests.Verification.{IsVerified, verify_request_iff}
use aergia_controller.Unidler.Response.{Exchange, set_header, in_world}
use aergia_controller.Unidler.Handler.{
  is_allowed, start_unidle, allow_verified, allow, serve, answer,
}
use aergia_controller.Unidler.Handler.Walk.{
  IsKept, Keeps-in_world, require_verification-Keeps, render-Keeps, deny-Keeps, verify-Keeps,
  set_metrics-Keeps,
}
use aergia_controller.Unidler.Handler.Started.{StateSame, StateSame-IsPreorder, StateSame-IsKept}
use aergia_controller.Unidler.Handler.Admitted.{
  IsChosen, HasNoneForced, IsAdmitted, IsDone, last-Ends,
}

-- What the check for deployments that are scaled by force says, where it says no.
unforced_answer :
    (g : Result (List Deployment))
    → on_reply g (elim [ [] ↦ false | d ∷ ds ↦ true ]) (λ _. false) ≡ false
    → (g ≡ ok []) ⊎ ((e : String) × (g ≡ err e))
unfolding on_reply
unforced_answer (ok []) p = inl refl
unforced_answer (ok (d ∷ ds)) p = ground arith
unforced_answer (err e) p = inr (e, refl)

module _ (K : Cluster) (L : Stdlib) (h : Unidler) (r : Request) (x : Exchange K) where
  abbrev kept : IsKept K L h (StateSame K)
  kept = StateSame-IsKept K L h

  abbrev pub Done : {A : Type 0} → Action (Exchange K) A → Exchange K → Type 0
  Done m y = Ends m y (λ _. IsDone K L h r x) (IsDone K L h r x)

  forced-Ends :
      (y : Exchange K)
      → StateSame K x y
      → Ends
          (in_world K (check_force_scaled K (request_namespace r)))
          y
          (λ b z. (b ≡ false → HasNoneForced K r x) × StateSame K x z)
          (IsDone K L h r x)
  unfolding check_force_scaled deref in_world ◌>>=◌ read gets continue pure
  forced-Ends y p =
      by_requirement (K.new_requirement "idling.amazee.io/force-scaled" "=" ("true" ∷ [])) refl
    where
      by_requirement :
          (q : Option K.Requirement)
          → K.new_requirement "idling.amazee.io/force-scaled" "=" ("true" ∷ []) ≡ q
          → Ends
              (in_world K (check_force_scaled K (request_namespace r)))
              y
              (λ b z. (b ≡ false → HasNoneForced K r x) × StateSame K x z)
              (IsDone K L h r x)
      by_requirement none e = record { holds = rw e (inl p) }
      by_requirement (some q) e = record {
        holds = rw e ((λ f. (q, refl, rw⁻¹ p.cluster (unforced_answer _ f))), p);
      }

  -- The start of an unidling, where the lock is free.
  allow_verified-Ends :
      (ns : Namespace) (i : Ingress) (y : Exchange K)
      → (contains x.world.locks (request_namespace r) ≡ false → IsAdmitted K L h r x ns i)
      → StateSame K x y
      → Done (allow_verified K L h (request_namespace r) ns) y
  unfolding allow_verified start_unidle ◌>>=◌ in_world count modify set_header gets continue pure
  allow_verified-Ends ns i y admitted p =
      elim (Bool-cases (contains y.world.locks (request_namespace r))) [
        | inl t ↦ record {
          holds =
              rw t
                (inl (record { cluster = p.cluster; locks = p.locks; goroutines = p.goroutines }));
        }
        | inr f ↦ record {
          holds = rw f (
              inr (
                ns,
                i,
                admitted (ap (λ l. contains l (request_namespace r)) (sym p.locks) ∙ f),
                record {
                  cluster = p.cluster;
                  locks = ap (λ l. request_namespace r ∷ l) p.locks;
                  goroutines = ap (λ g. g ++ ns ∷ []) p.goroutines;
                },
              ));
        }
      ]

  -- The page of a request that the lists allow.
  allow-Ends :
      (ns : Namespace) (i : Ingress) (path : String) (verified : Bool) (y : Exchange K)
      → (verified ≡ true
          → HasNoneForced K r x
          → contains x.world.locks (request_namespace r) ≡ false
          → IsAdmitted K L h r x ns i)
      → StateSame K x y
      → Done (allow K L h (request_namespace r) ns path verified) y
  unfolding allow
  allow-Ends ns i path verified y admitted p = Ends-bind _ _ y _ _ (forced-Ends y p) λ b z (u, q).
      Ends-if b _ _ z _ (λ _. Ends-pure _ z _ (inl q))
        λ e.
          Ends-bind _ _ z _ _
            (Ends-if verified _ _ z _ (λ v. allow_verified-Ends ns i z (admitted v (u e)) q)
              (λ _. last-Ends K L h r x _ z (require_verification-Keeps K L h kept) (inl q)))
            (λ _ t s. Ends-pure _ t _ s)

  serve-Ends :
      (code : ℤ) (ns : Namespace) (i : Ingress) (path : String) (v : String × Bool) (y : Exchange K)
      → (v.1 ≡ true
          → HasNoneForced K r x
          → contains x.world.locks (request_namespace r) ≡ false
          → IsAdmitted K L h r x ns i)
      → StateSame K x y
      → Done (serve K L h r code (request_namespace r) ns i path v) y
  unfolding serve
  serve-Ends code ns i path v y admitted p =
      Ends-bind _ _ y _ _ (allow-Ends ns i path v.1 y admitted p)
        (λ file z d. last-Ends K L h r x _ z (render-Keeps K L h kept _ _) d)

  verify-Ends :
      (ns : Namespace) (i : Ingress) (y : Exchange K)
      → StateSame K x y
      → Ends
          (in_world K (verify_request K L h r ns i))
          y
          (λ v z. (v.1 ≡ true → IsVerified K L h r ns i) × StateSame K x z)
          (IsDone K L h r x)
  unfolding in_world
  verify-Ends ns i y p =
      let (signed, verified, e, says) = verify_request_iff K L h r ns i y.world in
      let q = (verify-Keeps K L h kept r ns i).at y.world y.writer in
      record { holds = rw e (says.0, (StateSame-IsPreorder K).transitive x y _ p q) }

  pub answer-Ends :
      (code : ℤ) (ns : Namespace) (i : Ingress) (path : String) (start : ℕ) (y : Exchange K)
      → (request_namespace r == "") ≡ false
      → K.get_namespace x.world.cluster (request_namespace r) ≡ ok ns
      → IsChosen K L r x i
      → StateSame K x y
      → Done (answer K L h r code (request_namespace r) ns i path start) y
  unfolding answer
  answer-Ends code ns i path start y named found chosen p =
      Ends-bind _ _ y _ _ (verify-Ends ns i y p) λ v z (verified, q).
        Ends-bind _ _ z _ _
          (Ends-if (is_allowed K L h r ns i) _ _ z _
            (λ allowed.
              serve-Ends code ns i path v z
                (λ t unforced free. record {
                  named = named;
                  found = found;
                  chosen = chosen;
                  allowed = allowed;
                  verified = verified t;
                  unforced = unforced;
                  free = free;
                })
                q)
            (λ _. last-Ends K L h r x _ z (deny-Keeps K L h kept r path) (inl q)))
          (λ _ t d.
            last-Ends K L h r x _ t
              (Keeps-in_world K L h kept _ (set_metrics-Keeps K L h kept r start)) d)
