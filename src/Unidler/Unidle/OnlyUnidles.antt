-- ===== src/Unidler/Unidle/OnlyUnidles.antt =====
-- What the unidler does to deployments.
use aergia_controller.Base.{
  ℕ, zero, suc, String, ◌≡◌, refl, ◌∙◌, ap, Bool, true, false, ◌&&◌, Option, none, some, inl, ℤ,
  pos, negsuc, is_positive, if◌then◌else◌, lookup,
}
use aergia_controller.Strings.Decimal.{atoi}
use aergia_controller.Kube.{Namespace, Deployment, Result, Cluster}
use aergia_controller.Kube.Lawful.{IsLawful, merge_deployment}
use aergia_controller.World.{World, poll, patch_deployment}
use aergia_controller.World.Changed.{
  Changed, Changed-IsPreorder, patch_deployment-Changed, patch_ingress-Changed,
  patch_namespace-Changed, count-Changed,
}
use aergia_controller.World.Keeps.{Keeps, Keeps-pure, Keeps-deref, Keeps-bind, Keeps-if}
use aergia_controller.Unidler.Unidle.{
  new_replicas, unidle_deployment_patch, defer_unlock, unidle_deployment, unidle,
}
use aergia_controller.Unidler.Unidle.RoundTrip.{idled_key, merge-unidled}
use aergia_controller.Unidler.Unidle.Walk.{unidle_watched-Keeps}

-- Scaled to a positive number of replicas, and idled no more.
pub record IsUnidled (d : Deployment) : Type 0 where
  pub scaled : (n : ℕ) × (d.replicas ≡ some (pos (suc n)))
  pub unidled : lookup idled_key d.labels ≡ some "false"
  pub unforced : lookup "idling.amazee.io/force-idled" d.labels ≡ none
  pub unscaled : lookup "idling.amazee.io/force-scaled" d.labels ≡ none

positive_or_one :
    (n : ℤ) (parsed : Bool)
    → (k : ℕ) × ((if parsed && is_positive n then n else pos 1) ≡ pos (suc k))
positive_or_one (pos (suc n)) true = (n, refl)
positive_or_one (pos zero) true = (0, refl)
positive_or_one (negsuc n) true = (0, refl)
positive_or_one n false = (0, refl)

-- Whatever the annotation says.
new_replicas_pos : (v : Option String) → (k : ℕ) × (new_replicas v ≡ pos (suc k))
unfolding new_replicas
new_replicas_pos none = (0, refl)
new_replicas_pos (some v) = positive_or_one (atoi v).0 (atoi v).1

pub merge-IsUnidled :
    (v : Option String) (d : Deployment)
    → IsUnidled (merge_deployment (unidle_deployment_patch (new_replicas v)) d)
merge-IsUnidled v d =
    let (k, e) = new_replicas_pos v in
    let (z, u, f, g, c) = merge-unidled (new_replicas v) d in
    record { scaled = (k, z ∙ ap some e); unidled = u; unforced = f; unscaled = g }

module _ (K : Cluster) (law : IsLawful K)
    (quiet : (condition : K.State → Result Bool) (s : K.State) (ns name : String)
      → K.get_deployment (K.poll condition s).0 ns name ≡ K.get_deployment s ns name) where
  poll-Changed : (c : K.State → Result Bool) → Keeps (Changed K IsUnidled) (poll K c)
  unfolding poll
  poll-Changed c = record { at = λ w. record { at = λ ns name. inl (quiet c w.cluster ns name) } }

  patch-IsUnidled-Changed :
      (ns name : String) (v : Option String)
      → Keeps
          (Changed K IsUnidled)
          (patch_deployment K ns name (unidle_deployment_patch (new_replicas v)))
  patch-IsUnidled-Changed ns name v =
      patch_deployment-Changed K IsUnidled law ns name (unidle_deployment_patch (new_replicas v))
        (merge-IsUnidled v)

  unidle_deployment-Changed : (d : Deployment) → Keeps (Changed K IsUnidled) (unidle_deployment K d)
  unfolding unidle_deployment
  unidle_deployment-Changed d =
      search
        (
          patch-IsUnidled-Changed,
          Keeps-pure (Changed-IsPreorder K IsUnidled),
          Keeps-deref (Changed-IsPreorder K IsUnidled),
          Keeps-bind (Changed-IsPreorder K IsUnidled),
          Keeps-if,
        )
        depth 10

  -- Over a lawful cluster, whatever goes wrong, and if nothing else changes deployments while it
  -- polls, the unidling of a namespace leaves each deployment as it was or unidles it: with a
  -- positive number of replicas, labelled as not idled and without a label of a forced idling,
  -- whatever the annotation with the saved number holds.
  pub unidle-Changed : (ns : Namespace) (w : World K) → Changed K IsUnidled w (unidle K ns w).1
  unfolding unidle defer_unlock
  unidle-Changed ns w =
      let kept =
        (unidle_watched-Keeps K (Changed-IsPreorder K IsUnidled)
            (patch_ingress-Changed K IsUnidled law) (patch_namespace-Changed K IsUnidled law)
            (count-Changed K IsUnidled law) poll-Changed unidle_deployment-Changed ns).at
          w in
      record { at = kept.at }
