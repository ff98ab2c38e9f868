-- ===== src/Idler/Service/Guards.antt =====
-- What keeps the service idler from acting: builds and hits.
use mathlib.Core.List.{Memᴰ}
use aergia_controller.Base.{
  String, ◌≡◌, refl, ap, Bool, true, false, some, List, [], ◌∷◌, ◌⊎◌, inl, inr, ℤ, ==_iff, arith,
  eqb, Bool-cases,
}
use aergia_controller.Stdlib.{Stdlib}
use aergia_controller.Kube.{
  Namespace, Deployment, Pod, Result, ok, err, PromValue, requirements, Cluster,
}
use aergia_controller.World.{World, returned, ◌>>=◌, on_reply, read}
use aergia_controller.Idler.Config.{Idler}
use aergia_controller.Idler.Helpers.{generate_label_requirements}
use aergia_controller.Idler.Checks.{has_running_build, add_hits, nginx_query, traefik_query}
use aergia_controller.Idler.Service.{
  count_hits, idle_if_no_hits, running_build, kubernetes_service_idler,
}

has_running_build_mem :
    (builds : List Pod) (b : Pod)
    → Memᴰ b builds
    → (b.phase ≡ "Running") ⊎ (b.phase ≡ "Pending")
    → has_running_build builds ≡ true
unfolding has_running_build
has_running_build_mem [] b m h = elim m [ ]
has_running_build_mem (c ∷ builds) b (Memᴰ.head e) h =
    ground (arith, ap Pod.phase e, ==_iff c.phase "Running", ==_iff c.phase "Pending")
has_running_build_mem (c ∷ builds) b (Memᴰ.tail m) h =
    ground (arith, has_running_build_mem builds b m h)

module _ (K : Cluster) (L : Stdlib) (h : Idler) where
  -- Unless the check of builds is switched off, a namespace with a build that runs or is pending is
  -- left as it is by the service idler, also by a forced action, if the builds can be listed and
  -- their selectors are valid.
  pub kubernetes_service_idler_build :
      (ns : Namespace) (project : String) (fi fs : Bool) (w : World K) (reqs : List K.Requirement)
      (builds : List Pod) (b : Pod)
      → h.selectors.service.skip_build_check ≡ false
      → generate_label_requirements K h.selectors.service.builds w ≡ (returned reqs, w)
      → K.list_pods w.cluster (some ns.name) (requirements reqs) ≡ ok builds
      → Memᴰ b builds
      → (b.phase ≡ "Running") ⊎ (b.phase ≡ "Pending")
      → kubernetes_service_idler K L h ns project fi fs w ≡ (returned tt, w)
  unfolding kubernetes_service_idler running_build ◌>>=◌ read on_reply
  kubernetes_service_idler_build ns project fi fs w reqs builds b check made listed m phase =
      rw (made, check) (rw listed (rw (has_running_build_mem builds b m phase)))

  -- Both queries are answered, and count nothing.
  pub record NoHits (ns : String) (interval : ℤ) (w : World K) : Type 0 where
    pub nginx : PromValue
    pub traefik : PromValue
    pub nginx_answer : K.query w.cluster (nginx_query ns (L.duration_string interval)) ≡ ok nginx
    pub traefik_answer :
        K.query w.cluster (traefik_query ns (L.duration_string interval)) ≡ ok traefik
    pub none_counted : add_hits (add_hits 0 nginx) traefik ≡ 0

  -- Unless the check of hits is switched off, an environment whose idling is not forced is left as
  -- it is if one of the two queries of Prometheus fails or they count any hit.
  pub idle_if_no_hits_kept :
      (ns : Namespace) (interval : ℤ) (ds : List Deployment) (w : World K)
      → h.selectors.service.skip_hit_check ≡ false
      → ¬ NoHits ns.name interval w
      → idle_if_no_hits K L h ns interval ds false false w ≡ (returned tt, w)
  unfolding idle_if_no_hits count_hits ◌>>=◌ read on_reply
  idle_if_no_hits_kept ns interval ds w check hits = by_answers _ _ refl refl
    where
      by_answers :
          (r1 r2 : Result PromValue)
          → K.query w.cluster (nginx_query ns.name (L.duration_string interval)) ≡ r1
          → K.query w.cluster (traefik_query ns.name (L.duration_string interval)) ≡ r2
          → idle_if_no_hits K L h ns interval ds false false w ≡ (returned tt, w)
      by_answers (err e) r2 p q = rw check (rw p)
      by_answers (ok v1) (err e) p q = rw check (rw p (rw q))
      by_answers (ok v1) (ok v2) p q = elim (Bool-cases (eqb (add_hits (add_hits 0 v1) v2) 0)) [
        | inl z ↦ absurd (
            hits (record {
              nginx = v1;
              traefik = v2;
              nginx_answer = p;
              traefik_answer = q;
              none_counted = ground arith;
            }))
        | inr z ↦ rw check (rw p (rw q (rw z)))
      ]
