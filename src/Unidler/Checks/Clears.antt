-- ===== src/Unidler/Checks/Clears.antt =====
-- The loop of the unidler over the ingresses that it has listed.
use text.Mathlib.TextLemmas
use aergia_controller.Base.{
  String, ◌≡◌, ◌≢◌, refl, sym, ◌∙◌, Bool, true, false, ◌||◌, Option, none, some, [], ◌∷◌, ◌==◌,
  ==_refl, ==_ne, contains, Bool-cases, inl, inr, lookup, value_at, or_empty, arith, ◌<>◌,
}
use aergia_controller.Strings.Dashes.{collapse_dashes}
use aergia_controller.Strings.Split.{split, split_of_LacksComma}
use aergia_controller.Kube.{Ingress, Patch, ok, Cluster}
use aergia_controller.Kube.Lawful.{IsLawful, merge_ingress, accepted}
use aergia_controller.World.{pure, continue, ◌>>=◌, patch_ingress}
use aergia_controller.World.Each.{ingresses, ActsAt, get-patch_ingress, get-patch_ingress_other}
use aergia_controller.Idler.Patches.{custom_http_errors, router_middlewares, middleware}
use aergia_controller.Unidler.Helpers.{remove_status_code}
use aergia_controller.Unidler.Helpers.Codes.{IsWithout, remove_status_code-IsWithout}
use aergia_controller.Unidler.Checks.RoundTrip.{unidled_annotations}
use aergia_controller.Unidler.Checks.{
  strip, is_some, unidle_ingress_patch, needs_patch, restore_ingress,
}

-- Neither the code nor the middleware of aergia is listed.
abbrev pub IsClear : Ingress → Type 0
IsClear i =
    (contains (split (value_at custom_http_errors i.annotations)) "503" ≡ false)
    × (contains (split (value_at router_middlewares i.annotations)) (middleware i.namespace)
        ≡ false)

split_empty : split "" ≡ "" ∷ []
split_empty = split_of_LacksComma "" tt

contains-empty : (code : String) → ("" == code) ≡ false → contains (split "") code ≡ false
contains-empty code ne = rw split_empty (ground arith)

-- What is left does not list the code.
contains-strip :
    (v : Option String) (code : String)
    → ("" == code) ≡ false
    → contains (split (or_empty (strip v code))) code ≡ false
contains-strip none code ne = contains-empty code ne
contains-strip (some value) code ne =
    by_rest (remove_status_code value code) (remove_status_code-IsWithout value code)
  where
    by_rest :
        (rest : Option String)
        → IsWithout (split value) code rest
        → contains (split (or_empty rest)) code ≡ false
    by_rest none w = contains-empty code ne
    by_rest (some r) w = w code ∙ ground (arith, ==_refl code)

append-ne-empty : (s t : String) → t ≢ "" → s <> t ≢ ""
append-ne-empty String.[] t ne e = ne (sym (TextLemmas.nil-append t) ∙ e)
append-ne-empty (String.◌∷◌ c s) t ne e =
    TextLemmas.cons-ne-nil c (s <> t) (sym (TextLemmas.cons-append c s t) ∙ e)

middleware-ne : (ns : String) → ("" == middleware ns) ≡ false
unfolding middleware
middleware-ne ns = ==_ne "" _ (λ e.
    append-ne-empty (collapse_dashes ns) "-aergia@kubernetescrd" (TextLemmas.cons-ne-nil _ _)
      (sym e))

-- No annotation, no value.
empty_of_none : (o : Option String) → is_some o ≡ false → or_empty o ≡ ""
empty_of_none none e = refl
empty_of_none (some v) e = cc

or_false : (a b : Bool) → (a || b) ≡ false → (a ≡ false) × (b ≡ false)
or_false a b e = (ground arith, ground arith)

module _ (K : Cluster) (law : IsLawful K)
    (accepts : (s : K.State) (ns name : String) (p : Patch) (i : Ingress)
      → K.get_ingress s ns name ≡ ok i
      → accepted (K.patch_ingress s ns name p).1 ≡ true) where
  abbrev Any : Ingress → Type 0
  Any i = Unit

  abbrev Clear : Ingress → Ingress → Type 0
  Clear i i' = IsClear i'

  merged-IsClear : (i : Ingress) → IsClear (merge_ingress (unidle_ingress_patch i) i)
  merged-IsClear i =
      let (e, f) = unidled_annotations i in
      (
        rw e (contains-strip (lookup custom_http_errors i.annotations) "503" (unfold ◌==◌ in refl)),
        rw f (
            contains-strip (lookup router_middlewares i.annotations) (middleware i.namespace)
              (middleware-ne i.namespace)),
      )

  unneeded-IsClear : (i : Ingress) → needs_patch i ≡ false → IsClear i
  unfolding needs_patch
  unneeded-IsClear i e =
      let (f, g) =
        or_false (is_some (lookup custom_http_errors i.annotations))
          (is_some (lookup router_middlewares i.annotations)) e in
      (
        rw (empty_of_none _ f) (contains-empty "503" (unfold ◌==◌ in refl)),
        rw (empty_of_none _ g)
            (contains-empty (middleware i.namespace) (middleware-ne i.namespace)),
      )

  pub restore_ingress-ActsAt : ActsAt (ingresses K) Any Clear (restore_ingress K)
  unfolding restore_ingress ◌>>=◌ patch_ingress pure continue
  restore_ingress-ActsAt = record {
    returns = λ i w _. elim (Bool-cases (needs_patch i)) [ inl e ↦ rw e | inr e ↦ rw e ];
    makes = λ i w _ there. elim (Bool-cases (needs_patch i)) [
      | inl e ↦ rw e (
        merge_ingress (unidle_ingress_patch i) i,
        get-patch_ingress K law w.cluster _ i (accepts _ _ _ _ i there) there,
        merged-IsClear i,
      )
      | inr e ↦ rw e (i, there, unneeded-IsClear i e)
    ];
    leaves = λ i w ns name _ far. elim (Bool-cases (needs_patch i)) [
      | inl e ↦ rw e (get-patch_ingress_other K law w.cluster _ i ns name far)
      | inr e ↦ rw e
    ];
  }
