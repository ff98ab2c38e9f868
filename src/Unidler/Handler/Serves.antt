-- ===== src/Unidler/Handler/Serves.antt =====
-- The answer to a request that is let in.
use aergia_controller.Base.{
  ℕ, ℤ, String, ◌≡◌, refl, ap, Bool, true, false, none, some, [], ◌∷◌, contains,
}
use aergia_controller.Stdlib.{Stdlib}
use aergia_controller.Kube.{Namespace, Ingress, ok, requirements, Cluster}
use aergia_controller.World.{returned, pure, continue, ◌>>=◌, gets, read, deref, on_reply}
use aergia_controller.World.Leads.{Leads, Leads-bind, Leads-pure}
use aergia_controller.Unidler.Config.{Unidler, Request}
use aergia_controller.Unidler.Checks.{check_force_scaled}
use aergia_controller.Unidler.Requests.{verify_request}
use aergia_controller.Unidler.Requests.Verification.{IsVerified, verify_request_iff}
use aergia_controller.Unidler.Response.{Exchange, in_world}
use aergia_controller.Unidler.Handler.{allow, is_allowed, serve, answer}
use aergia_controller.Unidler.Handler.Walk.{
  IsKept, Keeps-in_world, verify-Keeps, set_metrics-Keeps, render-Keeps,
}
use aergia_controller.Unidler.Handler.NoPanic.{Returns-in_world, render-Returns, metrics-Returns}
use aergia_controller.Unidler.Handler.Started.{
  StateSame, StateSame-IsPreorder, StateSame-IsKept, Started, Started-Leads, allow_verified-Leads,
}

module _ (K : Cluster) (L : Stdlib) (h : Unidler)
    (templates : (file : String) → L.template_error file ≡ none) (requirement : K.Requirement)
    (made : K.new_requirement "idling.amazee.io/force-scaled" "=" ("true" ∷ []) ≡ some requirement)
    (x : Exchange K) where
  abbrev kept : IsKept K L h (StateSame K)
  kept = StateSame-IsKept K L h

  -- Nothing in the namespace is scaled by force.
  abbrev pub HasNoForced : String → Type 0
  HasNoForced name =
      K.list_deployments x.world.cluster name (requirements (requirement ∷ [])) ≡ ok []

  force_scaled_eq :
      (name : String) (y : Exchange K)
      → HasNoForced name
      → StateSame K x y
      → in_world K (check_force_scaled K name) y ≡ (returned false, y)
  unfolding check_force_scaled deref in_world ◌>>=◌ read gets continue on_reply pure
  force_scaled_eq name y none_forced p = rw made (rw p.cluster (rw none_forced))

  forced-Leads :
      (name : String) (y : Exchange K)
      → HasNoForced name
      → StateSame K x y
      → Leads (in_world K (check_force_scaled K name)) y (λ b z. (b ≡ false) × StateSame K x z)
  forced-Leads name y none_forced p =
      let e = force_scaled_eq name y none_forced p in
      record { value = false; returns = ap (λ o. o.0) e; holds = (refl, rw (ap (λ o. o.1) e) p) }

  allow-Leads :
      (name : String) (ns : Namespace) (path : String) (y : Exchange K)
      → contains x.world.locks name ≡ false
      → HasNoForced name
      → StateSame K x y
      → Leads (allow K L h name ns path true) y (λ _ z. Started K name ns x z)
  unfolding allow
  allow-Leads name ns path y free none_forced p =
      Leads-bind _ _ y (λ b z. (b ≡ false) × StateSame K x z) _ (forced-Leads name y none_forced p)
        λ b z (e, q). rw e (
          Leads-bind _ _ z (λ _ t. Started K name ns x t) _
            (allow_verified-Leads K L h x name ns z free q) (λ _ t s. Leads-pure _ t _ s))

  serve-Leads :
      (r : Request) (code : ℤ) (name : String) (ns : Namespace) (i : Ingress) (path : String)
      (v : String × Bool) (y : Exchange K)
      → v.1 ≡ true
      → contains x.world.locks name ≡ false
      → HasNoForced name
      → StateSame K x y
      → Leads (serve K L h r code name ns i path v) y (λ _ z. Started K name ns x z)
  unfolding serve
  serve-Leads r code name ns i path v y verified free none_forced p = rw verified (
      Leads-bind _ _ y (λ _ z. Started K name ns x z) _
        (allow-Leads name ns path y free none_forced p)
        (λ file z q.
          Started-Leads K L h x name ns _ z (render-Returns K L h templates requirement made _ _)
            (render-Keeps K L h kept _ _) q))

  verify-Leads :
      (r : Request) (ns : Namespace) (i : Ingress) (y : Exchange K)
      → IsVerified K L h r ns i
      → StateSame K x y
      → Leads (in_world K (verify_request K L h r ns i)) y (λ v z. (v.1 ≡ true) × StateSame K x z)
  unfolding in_world
  verify-Leads r ns i y verified p =
      let (signed, ok_it, e, says) = verify_request_iff K L h r ns i y.world in
      record {
        value = (signed, ok_it);
        returns = e;
        holds = (
          says.1 verified,
          (StateSame-IsPreorder K).transitive x y _ p
              ((verify-Keeps K L h kept r ns i).at y.world y.writer),
        );
      }

  pub answer-Leads :
      (r : Request) (code : ℤ) (name : String) (ns : Namespace) (i : Ingress) (path : String)
      (start : ℕ) (y : Exchange K)
      → is_allowed K L h r ns i ≡ true
      → IsVerified K L h r ns i
      → contains x.world.locks name ≡ false
      → HasNoForced name
      → StateSame K x y
      → Leads (answer K L h r code name ns i path start) y (λ _ z. Started K name ns x z)
  unfolding answer
  answer-Leads r code name ns i path start y allowed verified free none_forced p =
      Leads-bind _ _ y (λ v z. (v.1 ≡ true) × StateSame K x z) _ (verify-Leads r ns i y verified p)
        λ v z (e, q). rw allowed (
          Leads-bind _ _ z (λ _ t. Started K name ns x t) _
            (serve-Leads r code name ns i path v z e free none_forced q)
            (λ _ t s.
              Started-Leads K L h x name ns _ t
                (Returns-in_world K _ (metrics-Returns K L h templates requirement made r start))
                (Keeps-in_world K L h kept _ (set_metrics-Keeps K L h kept r start)) s))
