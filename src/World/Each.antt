-- ===== src/World/Each.antt =====
-- A loop over objects whose body acts on the object that it is at, and on no other.
use mathlib.Core.List.{Memᴰ}
use aergia_controller.Base.{
  String, ◌≡◌, refl, ◌∙◌, Bool, true, false, ◌&&◌, List, [], ◌∷◌, ◌==◌, ==_iff, ==_refl,
  if◌then◌else◌, arith,
}
use aergia_controller.Kube.{Deployment, Ingress, Patch, Result, ok, Cluster}
use aergia_controller.Kube.Lawful.{IsLawful, merge_deployment, merge_ingress, accepted}
use aergia_controller.World.{World, returned, Action, continue, ◌>>=◌, for_each}

-- A kind of objects of the cluster: where one stands, and how it is read.
pub record Objects (K : Cluster) (A : Type 0) : Type 0 where
  pub namespace : A → String
  pub name : A → String
  pub get : K.State → String → String → Result A

abbrev pub deployments : (K : Cluster) → Objects K Deployment
deployments K = record {
  namespace = Deployment.namespace;
  name = Deployment.name;
  get = K.get_deployment;
}

abbrev pub ingresses : (K : Cluster) → Objects K Ingress
ingresses K = record { namespace = Ingress.namespace; name = Ingress.name; get = K.get_ingress }

module _ {K : Cluster} {A : Type 0} (o : Objects K A) where
  -- The object stands under the name.
  abbrev pub is_at : A → String → String → Bool
  is_at d ns name = o.namespace d == ns && o.name d == name

  abbrev pub same_key : A → A → Bool
  same_key d e = is_at d (o.namespace e) (o.name e)

  -- No two of a list have the same namespace and name.
  abbrev pub AreApart : List A → Type 0
  AreApart [] = Unit
  AreApart (d ∷ ds) = ((e : A) → Memᴰ e ds → same_key d e ≡ false) × AreApart ds

  same_key_comm : (d e : A) → same_key d e ≡ false → same_key e d ≡ false
  same_key_comm d e h = ground (
    arith,
    ==_iff (o.namespace d) (o.namespace e),
    ==_iff (o.namespace e) (o.namespace d),
    ==_iff (o.name d) (o.name e),
    ==_iff (o.name e) (o.name d),
  )

module _ {K : Cluster} {A : Type 0} (o : Objects K A) (Pre : A → Type 0) (Q : A → A → Type 0) where
  abbrev pub IsPresent : World K → A → Type 0
  IsPresent w d = o.get w.cluster (o.namespace d) (o.name d) ≡ ok d

  -- What the action makes of the object.
  abbrev pub MadeOf : A → World K → Type 0
  MadeOf d w = (d' : A) × (o.get w.cluster (o.namespace d) (o.name d) ≡ ok d') × Q d d'

  pub record ActsAt (body : A → Action (World K) (Unit {0})) : Type 0 where
    pub returns : (d : A) (w : World K) → Pre d → (body d w).0 ≡ returned tt
    pub makes : (d : A) (w : World K) → Pre d → IsPresent w d → MadeOf d (body d w).1
    pub leaves :
        (d : A) (w : World K) (ns name : String)
        → Pre d
        → is_at o d ns name ≡ false
        → o.get (body d w).1.cluster ns name ≡ o.get w.cluster ns name

  module _ (body : A → Action (World K) (Unit {0})) (acts : ActsAt body) where
    -- One round, which returns.
    round :
        (d : A) (ds : List A) (w : World K)
        → Pre d
        → for_each (d ∷ ds) body w ≡ for_each ds body (body d w).1
    unfolding for_each ◌>>=◌ continue
    round d ds w p = rw (acts.returns d w p)

    pub leaves_others :
        (ds : List A) (w : World K) (ns name : String)
        → ((d : A) → Memᴰ d ds → Pre d)
        → ((d : A) → Memᴰ d ds → is_at o d ns name ≡ false)
        → o.get (for_each ds body w).1.cluster ns name ≡ o.get w.cluster ns name
    leaves_others [] w ns name pre apart = unfold for_each in refl
    leaves_others (d ∷ ds) w ns name pre apart = rw (round d ds w (pre d (Memᴰ.head refl))) (
        leaves_others ds (body d w).1 ns name (λ e m. pre e (Memᴰ.tail m))
          (λ e m. apart e (Memᴰ.tail m))
        ∙ acts.leaves d w ns name (pre d (Memᴰ.head refl)) (apart d (Memᴰ.head refl)))

    pub returns_each :
        (ds : List A) (w : World K)
        → ((d : A) → Memᴰ d ds → Pre d)
        → (for_each ds body w).0 ≡ returned tt
    returns_each [] w pre = unfold for_each in refl
    returns_each (d ∷ ds) w pre =
        rw (round d ds w (pre d (Memᴰ.head refl)))
          (returns_each ds (body d w).1 (λ e m. pre e (Memᴰ.tail m)))

    pub made_kept :
        (d : A) (w w' : World K)
        → MadeOf d w
        → o.get w'.cluster (o.namespace d) (o.name d) ≡ o.get w.cluster (o.namespace d) (o.name d)
        → MadeOf d w'
    made_kept d w w' (d', e, q) kept = (d', kept ∙ e, q)

    -- Each object of the list is made what the body makes of it.
    pub makes_each :
        (ds : List A) (w : World K)
        → AreApart o ds
        → ((d : A) → Memᴰ d ds → Pre d)
        → ((d : A) → Memᴰ d ds → IsPresent w d)
        → (d : A) → Memᴰ d ds
        → MadeOf d (for_each ds body w).1
    makes_each [] w apart pre there d m = elim m [ ]
    makes_each (c ∷ ds) w (far, apart) pre there d (Memᴰ.head e) =
        rw (round c ds w (pre c (Memᴰ.head refl)), e)
          (made_kept c (body c w).1 (for_each ds body (body c w).1).1
            (acts.makes c w (pre c (Memᴰ.head refl)) (there c (Memᴰ.head refl)))
            (leaves_others ds (body c w).1 (o.namespace c) (o.name c) (λ x m. pre x (Memᴰ.tail m))
              (λ x m. same_key_comm o c x (far x m))))
    makes_each (c ∷ ds) w (far, apart) pre there d (Memᴰ.tail m) =
        rw (round c ds w (pre c (Memᴰ.head refl))) (
          makes_each ds (body c w).1 apart (λ x k. pre x (Memᴰ.tail k))
            (λ x k.
              acts.leaves c w (o.namespace x) (o.name x) (pre c (Memᴰ.head refl)) (far x k)
              ∙ there x (Memᴰ.tail k))
            d m)

module _ (K : Cluster) (law : IsLawful K) where
  -- A patch that is accepted, as it is read.
  pub get-patch_deployment :
      (s : K.State) (p : Patch) (d : Deployment)
      → accepted (K.patch_deployment s d.namespace d.name p).1 ≡ true
      → K.get_deployment s d.namespace d.name ≡ ok d
      → K.get_deployment (K.patch_deployment s d.namespace d.name p).0 d.namespace d.name
        ≡ ok (merge_deployment p d)
  get-patch_deployment s p d a e =
      law.deployment-patch_deployment s d.namespace d.name p d.namespace d.name
      ∙ rw (a, ==_refl d.namespace, ==_refl d.name, e)

  never_there : {A : Type 0} (b : Bool) (x y : Result A) → (if b && false then x else y) ≡ y
  never_there true x y = refl
  never_there false x y = refl

  -- A patch of another deployment.
  pub get-patch_deployment_other :
      (s : K.State) (p : Patch) (d : Deployment) (ns name : String)
      → is_at (deployments K) d ns name ≡ false
      → K.get_deployment (K.patch_deployment s d.namespace d.name p).0 ns name
        ≡ K.get_deployment s ns name
  get-patch_deployment_other s p d ns name h =
      law.deployment-patch_deployment s d.namespace d.name p ns name
      ∙ rw h (never_there (accepted (K.patch_deployment s d.namespace d.name p).1) _ _)

  pub get-patch_ingress :
      (s : K.State) (p : Patch) (i : Ingress)
      → accepted (K.patch_ingress s i.namespace i.name p).1 ≡ true
      → K.get_ingress s i.namespace i.name ≡ ok i
      → K.get_ingress (K.patch_ingress s i.namespace i.name p).0 i.namespace i.name
        ≡ ok (merge_ingress p i)
  get-patch_ingress s p i a e =
      law.ingress-patch_ingress s i.namespace i.name p i.namespace i.name
      ∙ rw (a, ==_refl i.namespace, ==_refl i.name, e)

  pub get-patch_ingress_other :
      (s : K.State) (p : Patch) (i : Ingress) (ns name : String)
      → is_at (ingresses K) i ns name ≡ false
      → K.get_ingress (K.patch_ingress s i.namespace i.name p).0 ns name ≡ K.get_ingress s ns name
  get-patch_ingress_other s p i ns name h =
      law.ingress-patch_ingress s i.namespace i.name p ns name
      ∙ rw h (never_there (accepted (K.patch_ingress s i.namespace i.name p).1) _ _)
