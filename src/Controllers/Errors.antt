-- ===== src/Controllers/Errors.antt =====
-- When the reconciler gives an error.
use aergia_controller.Base.{
  String, ◌≡◌, ◌≢◌, ◌↔◌, false, Option, none, some, inl, inr, lookup, Bool-cases, arith,
}
use aergia_controller.Stdlib.{Stdlib}
use aergia_controller.Kube.{Namespace, Result, ok, err, Cluster}
use aergia_controller.World.{
  World, Outcome, returned, panicked, Action, pure, continue, gets, ◌>>=◌, on_reply,
  patch_namespace, read,
}
use aergia_controller.Idler.Config.{Idler}
use aergia_controller.Unidler.Unidle.{is_true}
use aergia_controller.Controllers.{
  remove_label_patch, ignore_not_found, act_and_remove_label, reconcile_namespace, reconcile,
}

-- No error, or a panic.
data HasNoError : Outcome (Option String) → Type 0 where
  fine : HasNoError (returned none)
  panic : (e : String) → HasNoError (panicked e)

HasNoError-ne : (o : Outcome (Option String)) (e : String) → HasNoError o → o ≢ returned (some e)
HasNoError-ne (returned none) e fine p = cc
HasNoError-ne (returned (some _)) e x p = elim x [ ]
HasNoError-ne (panicked _) e (panic x) p = cc

module _ (K : Cluster) (L : Stdlib) (h : Idler) where
  act-HasNoError :
      (ns : Namespace) (label : String) (act : Action (World K) (Unit {0})) (w : World K)
      → HasNoError (act_and_remove_label K L h ns label act w).0
  unfolding act_and_remove_label ◌>>=◌ continue pure patch_namespace
  act-HasNoError ns label act w = by_outcome (act w).0
    where
      by_outcome :
          (o : Outcome (Unit {0}))
          → HasNoError
              (continue o
                (λ _. patch_namespace K ns.name (remove_label_patch label) >>= λ _. pure none)
                (act w).1).0
      by_outcome (returned _) = fine
      by_outcome (panicked e) = panic e

  reconcile_namespace-HasNoError :
      (ns : Namespace) (w : World K) → HasNoError (reconcile_namespace K L h ns w).0
  unfolding reconcile_namespace pure
  reconcile_namespace-HasNoError ns w =
      elim (Bool-cases (is_true (lookup "idling.amazee.io/force-scaled" ns.labels))) [
        | inl e ↦ rw e (act-HasNoError ns _ _ w)
        | inr e ↦ elim (Bool-cases (is_true (lookup "idling.amazee.io/force-idled" ns.labels))) [
          | inl f ↦ rw (e, f) (act-HasNoError ns _ _ w)
          | inr f ↦ elim (Bool-cases (is_true (lookup "idling.amazee.io/unidle" ns.labels))) [
            | inl g ↦ rw (e, f, g) (act-HasNoError ns _ _ w)
            | inr g ↦ rw (e, f, g) fine
          ]
        ]
      ]

  reply_error :
      (r : Result Namespace) (w : World K) (e : String)
      → ((on_reply r (reconcile_namespace K L h) (λ x. pure (ignore_not_found K L h x)) w).0
          ≡ returned (some e))
        ↔ ((r ≡ err e) × (K.is_not_found e ≡ false))
  unfolding on_reply pure ignore_not_found
  reply_error (ok ns) w e = (
    λ p. absurd (HasNoError-ne _ e (reconcile_namespace-HasNoError ns w) p),
    λ (p, q). absurd (cc),
  )
  reply_error (err x) w e = elim (Bool-cases (K.is_not_found x)) [
    | inl f ↦ ground arith
    | inr f ↦ ground arith
  ]

  -- The namespace cannot be read, for another reason than that it is gone.
  abbrev pub IsUnreadable : World K → String → String → Type 0
  IsUnreadable w name e = (K.get_namespace w.cluster name ≡ err e) × (K.is_not_found e ≡ false)

  -- The reconciler gives an error exactly if the namespace cannot be read for another reason than
  -- that it is gone, and then it gives that error: what fails in an idling or an unidling, or in
  -- the removal of a label, is never given back.
  pub reconcile_error :
      (name : String) (w : World K) (e : String)
      → ((reconcile K L h name w).0 ≡ returned (some e)) ↔ IsUnreadable w name e
  unfolding reconcile ◌>>=◌ read gets continue
  reconcile_error name w e = reply_error (K.get_namespace w.cluster name) w e
