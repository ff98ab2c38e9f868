-- ===== src/Unidler/Handler/Admitted.antt =====
-- The request that is let in: which ingress the handler chooses for it, and what it asks of both.
use aergia_controller.Base.{
  String, ◌≡◌, true, false, some, List, [], ◌∷◌, ◌⊎◌, inl, inr, ◌==◌, contains,
}
use aergia_controller.Stdlib.{Stdlib}
use aergia_controller.Kube.{Namespace, Ingress, ok, err, requirements, Cluster}
use aergia_controller.World.{Action}
use aergia_controller.World.Keeps.{Keeps}
use aergia_controller.World.Ends.{Ends, Ends-both}
use aergia_controller.Unidler.Config.{Unidler, Request, ingress_name_name}
use aergia_controller.Unidler.Requests.{
  header, param, request_namespace, pick_ingress, empty_ingress,
}
use aergia_controller.Unidler.Requests.Verification.{IsVerified}
use aergia_controller.Unidler.Response.{Exchange}
use aergia_controller.Unidler.Handler.{is_allowed}
use aergia_controller.Unidler.Handler.Walk.{IsKept}
use aergia_controller.Unidler.Handler.Started.{
  StateSame, StateSame-IsPreorder, StateSame-IsKept, Started, Started-StateSame,
}

module _ (L : Stdlib) (r : Request) where
  -- The host of the URL of the request, empty where the request names no URL.
  abbrev pub IsHostname : String → Type 0
  IsHostname hostname =
      (((param r "url" == "") ≡ true) × (hostname ≡ ""))
      ⊎ (((param r "url" == "") ≡ false) × (L.url_hostname (param r "url") ≡ some hostname))

module _ (K : Cluster) (L : Stdlib) (r : Request) (x : Exchange K) where
  -- The ingress that the cluster has under the name in the header or, where the header names none,
  -- the one that is picked by the host among all those of the namespace.
  pub data IsChosen (i : Ingress) : Type 0 where
    by_name :
        (header r ingress_name_name == "") ≡ false
        → K.get_ingress x.world.cluster (request_namespace r) (header r ingress_name_name) ≡ ok i
        → IsChosen i
    by_host :
        (hostname : String) (is : List Ingress)
        → (header r ingress_name_name == "") ≡ true
        → IsHostname L r hostname
        → K.list_ingresses x.world.cluster (request_namespace r) (requirements []) ≡ ok is
        → i ≡ pick_ingress hostname is empty_ingress
        → IsChosen i

module _ (K : Cluster) (r : Request) (x : Exchange K) where
  -- The cluster lists no deployment of the namespace that is scaled by force, or no list at all.
  abbrev pub HasNoneForced : Type 0
  HasNoneForced =
      (requirement : K.Requirement) × (K.new_requirement "idling.amazee.io/force-scaled" "="
          ("true" ∷ [])
        ≡ some requirement)
      × ((K.list_deployments x.world.cluster (request_namespace r) (requirements (requirement ∷ []))
            ≡ ok [])
          ⊎ ((e : String) × (K.list_deployments x.world.cluster (request_namespace r)
                  (requirements (requirement ∷ []))
                ≡ err e)))

module _ (K : Cluster) (L : Stdlib) (h : Unidler) (r : Request) (x : Exchange K) where
  -- The namespace and the ingress are those that the request names, and it is let in.
  pub record IsAdmitted (ns : Namespace) (i : Ingress) : Type 0 where
    pub named : (request_namespace r == "") ≡ false
    pub found : K.get_namespace x.world.cluster (request_namespace r) ≡ ok ns
    pub chosen : IsChosen K L r x i
    pub allowed : is_allowed K L h r ns i ≡ true
    pub verified : IsVerified K L h r ns i
    pub unforced : HasNoneForced K r x
    pub free : contains x.world.locks (request_namespace r) ≡ false

  -- All that a request does to the cluster, the locks and the goroutines: nothing, or the start of
  -- one unidling.
  abbrev pub IsDone : Exchange K → Type 0
  IsDone y =
      StateSame K x y
      ⊎ ((ns : Namespace) × (i : Ingress) × IsAdmitted ns i
          × Started K (request_namespace r) ns x y)

  abbrev kept : IsKept K L h (StateSame K)
  kept = StateSame-IsKept K L h

  IsDone-StateSame : (y z : Exchange K) → IsDone y → StateSame K y z → IsDone z
  IsDone-StateSame y z (inl p) q = inl ((StateSame-IsPreorder K).transitive x y z p q)
  IsDone-StateSame y z (inr (ns, i, a, s)) q =
      inr (ns, i, a, Started-StateSame K (request_namespace r) ns x y z s q)

  -- What changes none of the three, at the end.
  pub last-Ends :
      {A : Type 0} (m : Action (Exchange K) A) (y : Exchange K)
      → Keeps (StateSame K) m
      → IsDone y
      → Ends m y (λ _. IsDone) IsDone
  last-Ends m y k d = Ends-both m y IsDone (IsDone-StateSame y _ d (k.at y)) (λ p. p)

  -- And before it.
  pub same-Ends :
      {A : Type 0} (m : Action (Exchange K) A) (y : Exchange K)
      → Keeps (StateSame K) m
      → StateSame K x y
      → Ends m y (λ _. StateSame K x) IsDone
  same-Ends m y k p =
      Ends-both m y (StateSame K x) ((StateSame-IsPreorder K).transitive x y _ p (k.at y)) inl
