-- ===== src/Unidler/Unidle/RoundTrip.antt =====
-- A deployment that the idler scales down and the unidler scales up again.
use aergia_controller.Base.{
  ℕ, suc, ◌^◌, ◌<◌, String, ◌≡◌, refl, sym, ◌∙◌, Bool, true, false, none, some, ℤ, pos, ◌==◌,
  lookup, lookup-insert, lookup-erase, arith,
}
use aergia_controller.Strings.Decimal.{itoa}
use aergia_controller.Strings.Decimal.RoundTrip.{atoi-itoa}
use aergia_controller.Stdlib.{Stdlib}
use aergia_controller.Kube.{Deployment, Patch, ok, Cluster}
use aergia_controller.Kube.Lawful.{IsLawful, merge, merge_deployment, accepted}
use aergia_controller.World.{World, ◌>>=◌, read, deref, patch_deployment}
use aergia_controller.World.Each.{get-patch_deployment}
use aergia_controller.Idler.Config.{Idler}
use aergia_controller.Idler.Patches.{idle_deployment_patch}
use aergia_controller.Idler.Service.{idle_deployment}
use aergia_controller.Idler.Service.OnlyIdles.{IsIdled, merge-IsIdled}
use aergia_controller.Unidler.Unidle.{new_replicas, unidle_deployment_patch, unidle_deployment}

-- The number that the idler writes is the number that the unidler reads.
pub new_replicas-itoa :
    (n : ℕ) → suc n < 2 ^ 63 → new_replicas (some (itoa (pos (suc n)))) ≡ pos (suc n)
unfolding new_replicas
new_replicas-itoa n h = rw (atoi-itoa (suc n) h)

abbrev pub replicas_key : String
replicas_key = "idling.amazee.io/unidle-replicas"

abbrev pub idled_key : String
idled_key = "idling.amazee.io/idled"

saved-idle_deployment_patch :
    (n : ℕ) (at : String) (fi fs : Bool) (d : Deployment)
    → lookup replicas_key
        (merge_deployment (idle_deployment_patch (pos (suc n)) at fi fs) d).annotations
      ≡ some (itoa (pos (suc n)))
unfolding idle_deployment_patch merge ◌==◌
saved-idle_deployment_patch n at fi fs d = simp lookup-insert

module _ (K : Cluster) where
  cluster-idle_deployment :
      (L : Stdlib) (h : Idler) (fi fs : Bool) (d : Deployment) (n : ℤ) (w : World K)
      → h.dry_run ≡ false
      → d.replicas ≡ some n
      → (idle_deployment K L h fi fs d w).1.cluster
        ≡ (K.patch_deployment w.cluster d.namespace d.name
            (idle_deployment_patch n (K.timestamp w.cluster) fi fs)).0
  unfolding idle_deployment ◌>>=◌ read patch_deployment deref
  cluster-idle_deployment L h fi fs d n w dry e = ground arith

  cluster-unidle_deployment :
      (d : Deployment) (w : World K)
      → lookup idled_key d.labels ≡ some "true"
      → d.replicas ≡ some (pos 0)
      → (unidle_deployment K d w).1.cluster
        ≡ (K.patch_deployment w.cluster d.namespace d.name
            (unidle_deployment_patch (new_replicas (lookup replicas_key d.annotations)))).0
  unfolding unidle_deployment ◌>>=◌ patch_deployment deref ◌==◌
  cluster-unidle_deployment d w i z = ground arith

pub merge-unidled :
    (n : ℤ) (d : Deployment)
    → let u = merge_deployment (unidle_deployment_patch n) d in
      (u.replicas ≡ some n)
      × (lookup idled_key u.labels ≡ some "false")
      × (lookup "idling.amazee.io/force-idled" u.labels ≡ none)
      × (lookup "idling.amazee.io/force-scaled" u.labels ≡ none)
      × (lookup "idling.amazee.io/idled-at" u.annotations ≡ none)
unfolding unidle_deployment_patch merge ◌==◌
merge-unidled n d = (
  refl,
  simp (lookup-insert, lookup-erase),
  simp (lookup-insert, lookup-erase),
  simp (lookup-insert, lookup-erase),
  simp (lookup-insert, lookup-erase),
)

-- Runs again as before the idling, with no label or annotation of the idling but the watch and the
-- saved number.
pub record IsRestored (d u : Deployment) : Type 0 where
  pub scaled : u.replicas ≡ d.replicas
  pub unidled : lookup idled_key u.labels ≡ some "false"
  pub unforced : lookup "idling.amazee.io/force-idled" u.labels ≡ none
  pub unscaled : lookup "idling.amazee.io/force-scaled" u.labels ≡ none
  pub cleared : lookup "idling.amazee.io/idled-at" u.annotations ≡ none

module _ (K : Cluster) (law : IsLawful K)
    (accepts : (s : K.State) (ns name : String) (p : Patch) (d : Deployment)
      → K.get_deployment s ns name ≡ ok d
      → accepted (K.patch_deployment s ns name p).1 ≡ true) where
  get-idle_deployment :
      (L : Stdlib) (h : Idler) (fi fs : Bool) (d : Deployment) (n : ℤ) (w : World K)
      → h.dry_run ≡ false
      → d.replicas ≡ some n
      → K.get_deployment w.cluster d.namespace d.name ≡ ok d
      → K.get_deployment (idle_deployment K L h fi fs d w).1.cluster d.namespace d.name
        ≡ ok (merge_deployment (idle_deployment_patch n (K.timestamp w.cluster) fi fs) d)
  get-idle_deployment L h fi fs d n w dry r e =
      rw (cluster-idle_deployment K L h fi fs d n w dry r) (
        get-patch_deployment K law w.cluster (idle_deployment_patch n (K.timestamp w.cluster) fi fs)
          d (accepts _ _ _ _ d e) e)

  -- What the unidler makes of a deployment with a saved number of replicas.
  get-unidle_deployment :
      (d : Deployment) (n : ℕ) (w : World K)
      → IsIdled d
      → lookup replicas_key d.annotations ≡ some (itoa (pos (suc n)))
      → suc n < 2 ^ 63
      → K.get_deployment w.cluster d.namespace d.name ≡ ok d
      → K.get_deployment (unidle_deployment K d w).1.cluster d.namespace d.name
        ≡ ok (merge_deployment (unidle_deployment_patch (pos (suc n))) d)
  get-unidle_deployment d n w i s lt e =
      rw (cluster-unidle_deployment K d w i.idled i.scaled, s, new_replicas-itoa n lt)
        (get-patch_deployment K law w.cluster (unidle_deployment_patch (pos (suc n))) d
          (accepts _ _ _ _ d e) e)

  -- Where no patch of a deployment that exists is refused and this is no dry run, a deployment with
  -- between 1 and 2^63 - 1 replicas is idled by the service idler, and the unidler, which finds it
  -- as the idler left it, takes it back to the same number of replicas, labels it as not idled and
  -- removes the labels of a forced idling and the time of the idling.
  pub unidle_deployment-idle_deployment :
      (L : Stdlib) (h : Idler) (fi fs : Bool) (d : Deployment) (n : ℕ) (w : World K)
      → h.dry_run ≡ false
      → d.replicas ≡ some (pos (suc n))
      → suc n < 2 ^ 63
      → K.get_deployment w.cluster d.namespace d.name ≡ ok d
      → let w1 = (idle_deployment K L h fi fs d w).1 in
        (d1 : Deployment) × (K.get_deployment w1.cluster d.namespace d.name ≡ ok d1)
        × IsIdled d1
        × (d2 : Deployment) × (K.get_deployment
              (unidle_deployment K d1 w1).1.cluster
              d.namespace
              d.name
            ≡ ok d2)
        × IsRestored d d2
  unidle_deployment-idle_deployment L h fi fs d n w dry r lt e =
      let at = K.timestamp w.cluster in
      let p = idle_deployment_patch (pos (suc n)) at fi fs in
      let i = merge-IsIdled (pos (suc n)) at fi fs d in
      let first = get-idle_deployment L h fi fs d (pos (suc n)) w dry r e in
      let (z, unidled, unforced, unscaled, cleared) =
        merge-unidled (pos (suc n)) (merge_deployment p d) in
      (
        merge_deployment p d,
        first,
        i,
        merge_deployment (unidle_deployment_patch (pos (suc n))) (merge_deployment p d),
        get-unidle_deployment (merge_deployment p d) n (idle_deployment K L h fi fs d w).1 i
            (saved-idle_deployment_patch n at fi fs d) lt first,
        record {
          scaled = z ∙ sym r;
          unidled = unidled;
          unforced = unforced;
          unscaled = unscaled;
          cleared = cleared;
        },
      )
