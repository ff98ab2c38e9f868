-- ===== src/Tests/Single.antt =====
-- A cluster that has one ingress at most, so that every list of its ingresses is in order.
use mathlib.Core.List.{Memᴰ}
use aergia_controller.Base.{
  String, ◌≡◌, refl, sym, ◌∙◌, ap, ◌⊎◌, Bool, true, ◌&&◌, List, [], ◌∷◌, ◌==◌, ==_iff, ==_refl,
  Bool-cases, inl, inr, arith,
}
use aergia_controller.Kube.{Ingress, Patch, ok, requirements, Cluster}
use aergia_controller.Kube.Lawful.{IsLawful, merge_ingress, accepted}
use aergia_controller.World.Each.{ingresses, AreApart}
use aergia_controller.Unidler.Unidle.Ingresses.{ListsIngresses}
use aergia_controller.Tests.Memory.{
  Store, find, filter, selects, update, error_of, ingress_at, memory,
}
use aergia_controller.Tests.Memory.Laws.{memory-IsLawful, find-update_ingress, accepted_of_found}

-- The first ingress, and no other.
abbrev pub first : List Ingress → List Ingress
first [] = []
first (i ∷ is) = i ∷ []

abbrev pub single : Cluster
single = record memory {
  get_ingress = λ s ns name. find (ingress_at ns name) (first s.ingresses);
  list_ingresses =
      λ s ns sel. ok (filter (λ i. i.namespace == ns && selects sel i.labels) (first s.ingresses));
  patch_ingress = λ s ns name p. (
    record s { ingresses = update (ingress_at ns name) (merge_ingress p) s.ingresses },
    error_of (find (ingress_at ns name) (first s.ingresses)),
  );
}

first-update :
    (is : Ingress → Bool) (f : Ingress → Ingress) (xs : List Ingress)
    → first (update is f xs) ≡ update is f (first xs)
unfolding update
first-update is f [] = refl
first-update is f (x ∷ xs) = refl

pub single-IsLawful : IsLawful single
single-IsLawful =
    let law = memory-IsLawful in
    record {
      named = law.named;
      deployment-patch_deployment = law.deployment-patch_deployment;
      ingress-patch_ingress = λ s ns name p ns' name'.
          ap (find (ingress_at ns' name'))
            (first-update (ingress_at ns name) (merge_ingress p) s.ingresses)
          ∙ find-update_ingress (first s.ingresses) ns name p ns' name';
      namespace-patch_namespace = law.namespace-patch_namespace;
      deployment-patch_ingress = λ s ns name p ns' name'. refl;
      deployment-patch_namespace = law.deployment-patch_namespace;
      ingress-patch_deployment = λ s ns name p ns' name'. refl;
      ingress-patch_namespace = λ s ns p ns' name'. refl;
      namespace-patch_deployment = law.namespace-patch_deployment;
      namespace-patch_ingress = λ s ns name p ns'. refl;
    }

pub single_accepts_ingress :
    (s : Store) (ns name : String) (p : Patch) (i : Ingress)
    → single.get_ingress s ns name ≡ ok i
    → accepted (single.patch_ingress s ns name p).1 ≡ true
single_accepts_ingress s ns name p i e = accepted_of_found _ i e

both : (a b : Bool) → (a && b) ≡ true → (a ≡ true) × (b ≡ true)
both a b e = (ground arith, ground arith)

-- Where an ingress stands that is found.
found :
    (xs : List Ingress) (ns name : String) (i : Ingress)
    → find (ingress_at ns name) (first xs) ≡ ok i
    → (first xs ≡ i ∷ []) × (i.namespace ≡ ns) × (i.name ≡ name)
unfolding find
found [] ns name i e = absurd (cc)
found (x ∷ xs) ns name i e = elim (Bool-cases (ingress_at ns name x)) [
  | inl f ↦
      let (p, q) = both (x.namespace == ns) (x.name == name) f in
      let same : x ≡ i = cc (rw f at e) in
      (
        ap (λ y. y ∷ []) same,
        ap Ingress.namespace (sym same) ∙ (==_iff x.namespace ns).0 p,
        ap Ingress.name (sym same) ∙ (==_iff x.name name).0 q,
      )
  | inr f ↦ absurd (cc (rw f at e))
]

abbrev listed : String → List Ingress → List Ingress
listed ns xs = filter (λ i. i.namespace == ns && selects (requirements []) i.labels) (first xs)

selects_all : (i : Ingress) → selects (requirements []) i.labels ≡ true
unfolding selects
selects_all i = refl

abbrev is_listed : String → Ingress → Bool
is_listed ns i = i.namespace == ns && selects (requirements []) i.labels

-- What is listed is the first ingress, or nothing.
listed_cases :
    (ns : String) (xs : List Ingress)
    → (listed ns xs ≡ []) ⊎ ((x : Ingress) × (first xs ≡ x ∷ []) × (listed ns xs ≡ x ∷ []))
unfolding filter
listed_cases ns [] = inl refl
listed_cases ns (x ∷ xs) = elim (Bool-cases (is_listed ns x)) [
  | inl e ↦ inr (x, refl, rw e)
  | inr e ↦ inl (rw e)
]

listed_as : (xs ys : List Ingress) → ok xs ≡ ok ys → ys ≡ xs
listed_as xs ys e = cc

-- The list that is given is one or the other.
given_cases :
    (ns : String) (xs is : List Ingress)
    → ok (listed ns xs) ≡ ok is
    → (is ≡ []) ⊎ ((x : Ingress) × (first xs ≡ x ∷ []) × (is ≡ x ∷ []))
given_cases ns xs is e = elim (listed_cases ns xs) [
  | inl a ↦ inl (listed_as (listed ns xs) is e ∙ a)
  | inr (x, a, b) ↦ inr (x, a, listed_as (listed ns xs) is e ∙ b)
]

listed_apart :
    (ns : String) (xs is : List Ingress)
    → ok (listed ns xs) ≡ ok is
    → AreApart (ingresses single) is
listed_apart ns xs is e = elim (given_cases ns xs is e) [
  | inl a ↦ rw a tt
  | inr (x, a, b) ↦ rw b (λ y m. elim m [ ], tt)
]

find_self : (x : Ingress) → find (ingress_at x.namespace x.name) (x ∷ []) ≡ ok x
unfolding find
find_self x = rw (==_refl x.namespace, ==_refl x.name)

only_one : (x i : Ingress) → Memᴰ i (x ∷ []) → i ≡ x
only_one x i (Memᴰ.head e) = e
only_one x i (Memᴰ.tail m) = elim m [ ]

none_in : (i : Ingress) → Memᴰ i [] → ⊥
none_in i m = elim m [ ]

listed_there :
    (ns : String) (xs is : List Ingress)
    → ok (listed ns xs) ≡ ok is
    → (i : Ingress) → Memᴰ i is
    → find (ingress_at i.namespace i.name) (first xs) ≡ ok i
listed_there ns xs is e i m = elim (given_cases ns xs is e) [
  | inl a ↦ absurd (none_in i (rw a at m))
  | inr (x, a, b) ↦ rw (a, only_one x i (rw b at m)) (find_self x)
]

filter_one :
    (ns : String) (i : Ingress) → i.namespace ≡ ns → filter (is_listed ns) (i ∷ []) ≡ i ∷ []
unfolding filter
filter_one ns i e = rw (e, ==_refl ns, selects_all i)

listed_complete :
    (ns name : String) (xs is : List Ingress) (i : Ingress)
    → ok (listed ns xs) ≡ ok is
    → find (ingress_at ns name) (first xs) ≡ ok i
    → Memᴰ i is
listed_complete ns name xs is i e f =
    let (a, b, c) = found xs ns name i f in
    rw (listed_as (listed ns xs) is e, a, filter_one ns i b) (Memᴰ.head refl)

pub single-ListsIngresses : ListsIngresses single
single-ListsIngresses = record {
  named = λ s ns name i e. let (a, b, c) = found s.ingresses ns name i e in (b, c);
  apart = λ s ns is e. listed_apart ns s.ingresses is e;
  there = λ s ns is e. listed_there ns s.ingresses is e;
  complete = λ s ns name is i e f. listed_complete ns name s.ingresses is i e f;
}
