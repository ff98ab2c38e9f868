-- ===== src/Tests/Memory/Laws.antt =====
-- The laws of the cluster in memory.
use aergia_controller.Base.{
  String, ◌≡◌, refl, ◌∙◌, Bool, true, false, ◌&&◌, List, [], ◌∷◌, ◌==◌, ==_iff, if◌then◌else◌,
  Bool-cases, inl, inr, arith,
}
use aergia_controller.Kube.{Namespace, Deployment, Ingress, Patch, Result, ok, err}
use aergia_controller.Kube.Lawful.{
  IsLawful, merge_deployment, merge_ingress, merge_namespace, on_ok, accepted,
}
use aergia_controller.Tests.Memory.{
  Store, find, update, error_of, named_as, deployment_at, ingress_at, memory,
}

-- The same test: the object that is found is the changed one.
find-update_same :
    {A : Type 0} (is js : A → Bool) (f : A → A) (xs : List A)
    → ((a : A) → is a ≡ js a)
    → ((a : A) → js (f a) ≡ js a)
    → find js (update is f xs) ≡ on_ok f (find js xs)
unfolding find update
find-update_same is js f [] same kept = refl
find-update_same is js f (x ∷ xs) same kept = elim (Bool-cases (js x)) [
  | inl e ↦ rw (same x, e, kept x, e)
  | inr e ↦ rw (same x, e, e) (find-update_same is js f xs same kept)
]

-- A test of other objects: nothing that is found changes.
find-update_other :
    {A : Type 0} (is js : A → Bool) (f : A → A) (xs : List A)
    → ((a : A) → is a ≡ true → js a ≡ false)
    → ((a : A) → js (f a) ≡ js a)
    → find js (update is f xs) ≡ find js xs
unfolding find update
find-update_other is js f [] other kept = refl
find-update_other is js f (x ∷ xs) other kept = elim (Bool-cases (is x)) [
  | inl e ↦ rw (e, kept x, other x e) (find-update_other is js f xs other kept)
  | inr e ↦ rw (e, find-update_other is js f xs other kept)
]

find_same :
    {A : Type 0} (is js : A → Bool) (xs : List A)
    → ((a : A) → is a ≡ js a)
    → find is xs ≡ find js xs
unfolding find
find_same is js [] same = refl
find_same is js (x ∷ xs) same = rw (same x, find_same is js xs same)

if_accepted :
    {A : Type 0} (f : A → A) (r : Result A)
    → on_ok f r ≡ (if accepted (error_of r) && true then on_ok f r else r)
if_accepted f (ok a) = refl
if_accepted f (err e) = refl

never : {A : Type 0} (b : Bool) (x y : A) → y ≡ (if b && false then x else y)
never true x y = refl
never false x y = refl

-- `b` says whether the two tests are of the same object.
find-update :
    {A : Type 0} (is js : A → Bool) (f : A → A) (xs : List A) (b : Bool)
    → ((a : A) → js (f a) ≡ js a)
    → (b ≡ true → (a : A) → is a ≡ js a)
    → (b ≡ false → (a : A) → is a ≡ true → js a ≡ false)
    → find js (update is f xs)
      ≡ (if accepted (error_of (find is xs)) && b then on_ok f (find js xs) else find js xs)
find-update is js f xs true kept same other =
    find-update_same is js f xs (same refl) kept
    ∙ rw (find_same is js xs (same refl)) (if_accepted f (find js xs))
find-update is js f xs false kept same other =
    find-update_other is js f xs (other refl) kept
    ∙ never (accepted (error_of (find is xs))) (on_ok f (find js xs)) (find js xs)

named_of_ok : (x n : Namespace) (name : String) → ok x ≡ ok n → x.name ≡ name → n.name ≡ name
named_of_ok x n name e f = cc

find-named :
    (xs : List Namespace) (name : String) (n : Namespace)
    → find (named_as name) xs ≡ ok n
    → n.name ≡ name
unfolding find
find-named [] name n e = cc
find-named (x ∷ xs) name n e = elim (Bool-cases (x.name == name)) [
  | inl f ↦ named_of_ok x n name (rw f at e) ((==_iff x.name name).0 f)
  | inr f ↦ find-named xs name n (rw f at e)
]

pub find-update_ingress :
    (is : List Ingress) (ns name : String) (p : Patch) (ns' name' : String)
    → find (ingress_at ns' name') (update (ingress_at ns name) (merge_ingress p) is) ≡ (
        if accepted (error_of (find (ingress_at ns name) is)) && (ns == ns' && name == name')
        then on_ok (merge_ingress p) (find (ingress_at ns' name') is)
        else find (ingress_at ns' name') is)
find-update_ingress is ns name p ns' name' =
    find-update (ingress_at ns name) (ingress_at ns' name') (merge_ingress p) is
      (ns == ns' && name == name') (λ d. refl)
      (λ e d. ground (arith, ==_iff ns ns', ==_iff name name'))
      (λ e d f. ground (
        arith,
        ==_iff ns ns',
        ==_iff name name',
        ==_iff d.namespace ns,
        ==_iff d.name name,
        ==_iff d.namespace ns',
        ==_iff d.name name',
      ))

pub memory-IsLawful : IsLawful memory
memory-IsLawful = record {
  named = λ s name ns e. find-named s.namespaces name ns e;
  deployment-patch_deployment = λ s ns name p ns' name'.
      find-update (deployment_at ns name) (deployment_at ns' name') (merge_deployment p)
        s.deployments (ns == ns' && name == name') (λ d. refl)
        (λ e d. ground (arith, ==_iff ns ns', ==_iff name name'))
        (λ e d f. ground (
          arith,
          ==_iff ns ns',
          ==_iff name name',
          ==_iff d.namespace ns,
          ==_iff d.name name,
          ==_iff d.namespace ns',
          ==_iff d.name name',
        ));
  ingress-patch_ingress =
      λ s ns name p ns' name'. find-update_ingress s.ingresses ns name p ns' name';
  namespace-patch_namespace = λ s ns p ns'.
      find-update (named_as ns) (named_as ns') (merge_namespace p) s.namespaces (ns == ns')
        (λ d. refl) (λ e d. ground (arith, ==_iff ns ns'))
        (λ e d f. ground (arith, ==_iff ns ns', ==_iff d.name ns, ==_iff d.name ns'));
  deployment-patch_ingress = λ s ns name p ns' name'. refl;
  deployment-patch_namespace = λ s ns p ns' name'. refl;
  ingress-patch_deployment = λ s ns name p ns' name'. refl;
  ingress-patch_namespace = λ s ns p ns' name'. refl;
  namespace-patch_deployment = λ s ns name p ns'. refl;
  namespace-patch_ingress = λ s ns name p ns'. refl;
}

pub accepted_of_found :
    {A : Type 0} (r : Result A) (a : A) → r ≡ ok a → accepted (error_of r) ≡ true
accepted_of_found r a e = rw e

-- A patch of an object that exists is accepted.
pub memory_accepts_deployment :
    (s : Store) (ns name : String) (p : Patch) (d : Deployment)
    → memory.get_deployment s ns name ≡ ok d
    → accepted (memory.patch_deployment s ns name p).1 ≡ true
memory_accepts_deployment s ns name p d e = accepted_of_found _ d e

pub memory_accepts_namespace :
    (s : Store) (name : String) (p : Patch) (n : Namespace)
    → memory.get_namespace s name ≡ ok n
    → accepted (memory.patch_namespace s name p).1 ≡ true
memory_accepts_namespace s name p n e = accepted_of_found _ n e

pub memory_accepts_ingress :
    (s : Store) (ns name : String) (p : Patch) (i : Ingress)
    → memory.get_ingress s ns name ≡ ok i
    → accepted (memory.patch_ingress s ns name p).1 ≡ true
memory_accepts_ingress s ns name p i e = accepted_of_found _ i e

-- What is found passes the test.
found_passes : {A : Type 0} (is : A → Bool) (xs : List A) (a : A) → find is xs ≡ ok a → is a ≡ true
unfolding find
found_passes is [] a e = absurd (cc)
found_passes is (x ∷ xs) a e = elim (Bool-cases (is x)) [
  | inl f ↦ let same : x ≡ a = cc (rw f at e) in rw same at f
  | inr f ↦ found_passes is xs a (rw f at e)
]

-- A deployment is found under its own name.
pub memory_names_deployment :
    (s : Store) (ns name : String) (d : Deployment)
    → memory.get_deployment s ns name ≡ ok d
    → (d.namespace ≡ ns) × (d.name ≡ name)
memory_names_deployment s ns name d e =
    let passes = found_passes (deployment_at ns name) s.deployments d e in
    (ground (arith, passes, ==_iff d.namespace ns), ground (arith, passes, ==_iff d.name name))
