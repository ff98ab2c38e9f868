-- ===== src/Unidler/Checks/RoundTrip.antt =====
-- An ingress that the idler annotates and the unidler restores.
use aergia_controller.Base.{
  String, ◌≡◌, refl, sym, ◌∙◌, ap, false, Option, none, some, [], ◌∷◌, ◌++◌, ◌==◌, ==_iff, ==_refl,
  contains, if◌then◌else◌, Bool-cases, inl, inr, StringMap, lookup, value_at, or_empty, erase,
  lookup-insert, lookup-erase,
}
use aergia_controller.Strings.Split.{split, LacksComma}
use aergia_controller.Kube.{Ingress, Changes}
use aergia_controller.Kube.Lawful.{merge, merge_ingress}
use aergia_controller.Idler.Helpers.{add_status_code}
use aergia_controller.Idler.Patches.{
  custom_http_errors, router_middlewares, middleware, idle_ingress_patch,
}
use aergia_controller.Unidler.Helpers.{remove_status_code}
use aergia_controller.Unidler.Helpers.Codes.{remove_status_code-add_status_code}
use aergia_controller.Unidler.Checks.{strip, change_of, unidle_ingress_patch}

merge-append : (cs ds : Changes) (m : StringMap) → merge (cs ++ ds) m ≡ merge ds (merge cs m)
unfolding merge
merge-append [] ds m = refl
merge-append ((k, v) ∷ cs) ds m = merge-append cs ds _

-- The change takes the annotation to the stripped value.
lookup-change_of :
    (key : String) (value : Option String) (code : String) (m : StringMap)
    → lookup key m ≡ value
    → lookup key (merge (change_of key value (strip value code)) m) ≡ strip value code
unfolding merge
lookup-change_of key none code m e = rw (lookup-erase key key m, ==_refl key)
lookup-change_of key (some value) code m e = by_stripped (remove_status_code value code)
  where
    by_stripped : (x : Option String) → lookup key (merge (change_of key (some value) x) m) ≡ x
    by_stripped none = rw (lookup-erase key key m, ==_refl key)
    by_stripped (some s) = elim (Bool-cases (s == value)) [
      | inl same ↦ rw same (e ∙ ap some (sym ((==_iff s value).0 same)))
      | inr other ↦ rw (other, lookup-insert key key s m, ==_refl key)
    ]

lookup-change_of_other :
    (j key : String) (value stripped : Option String) (m : StringMap)
    → (j == key) ≡ false
    → lookup j (merge (change_of key value stripped) m) ≡ lookup j m
unfolding merge
lookup-change_of_other j key value none m e = rw (lookup-erase j key m, e)
lookup-change_of_other j key value (some s) m e = elim (Bool-cases (s == or_empty value)) [
  | inl same ↦ rw same
  | inr other ↦ rw (other, lookup-insert j key s m, e)
]

pub idled_annotations :
    (i : Ingress)
    → let m = (merge_ingress (idle_ingress_patch i) i).annotations in
      (lookup custom_http_errors m
        ≡ some (add_status_code (value_at custom_http_errors i.annotations) "503"))
      × (lookup router_middlewares m
          ≡ some (
              add_status_code (value_at router_middlewares i.annotations) (middleware i.namespace)))
unfolding idle_ingress_patch merge ◌==◌
idled_annotations i = (simp lookup-insert, simp lookup-insert)

-- Two changes, one behind the other, take two annotations to their stripped values.
lookup-two_changes :
    (j k : String) (v w : Option String) (c d : String) (m : StringMap)
    → (j == k) ≡ false
    → (k == j) ≡ false
    → lookup j m ≡ v
    → lookup k m ≡ w
    → let m' = merge (change_of j v (strip v c) ++ change_of k w (strip w d)) m in
      (lookup j m' ≡ strip v c) × (lookup k m' ≡ strip w d)
lookup-two_changes j k v w c d m jk kj e f =
    let m1 = merge (change_of j v (strip v c)) m in
    rw (merge-append (change_of j v (strip v c)) (change_of k w (strip w d)) m) (
      lookup-change_of_other j k w (strip w d) m1 jk ∙ lookup-change_of j v c m e,
      lookup-change_of k w d m1 (lookup-change_of_other k j v (strip v c) m kj ∙ f),
    )

keys_differ :
    ((custom_http_errors == router_middlewares) ≡ false)
    × ((router_middlewares == custom_http_errors) ≡ false)
    × ((custom_http_errors == "idling.amazee.io/idled-at") ≡ false)
    × ((router_middlewares == "idling.amazee.io/idled-at") ≡ false)
unfolding ◌==◌
keys_differ = (refl, refl, refl, refl)

-- The two annotations after the patch of the unidler.
pub unidled_annotations :
    (i : Ingress)
    → let m = (merge_ingress (unidle_ingress_patch i) i).annotations in
      (lookup custom_http_errors m ≡ strip (lookup custom_http_errors i.annotations) "503")
      × (lookup router_middlewares m
          ≡ strip (lookup router_middlewares i.annotations) (middleware i.namespace))
unfolding unidle_ingress_patch merge
unidled_annotations i =
    let m = erase "idling.amazee.io/idled-at" i.annotations in
    let (jk, kj, ja, ka) = keys_differ in
    lookup-two_changes custom_http_errors router_middlewares
      (lookup custom_http_errors i.annotations) (lookup router_middlewares i.annotations) "503"
      (middleware i.namespace) m jk kj
      (rw (lookup-erase custom_http_errors "idling.amazee.io/idled-at" i.annotations, ja))
      (rw (lookup-erase router_middlewares "idling.amazee.io/idled-at" i.annotations, ka))

-- The annotation with its value again; one without a value is gone.
abbrev pub restored : String → Ingress → Option String
restored key i =
    if value_at key i.annotations == "" then none else some (value_at key i.annotations)

-- The patch of the idler and then that of the unidler take the error codes and the middlewares of
-- an ingress back, where an annotation without a value is gone, if the ingress listed neither the
-- code 503 nor the middleware of aergia, and the name of the middleware has no comma.
pub merge_ingress-unidle_ingress_patch-idle_ingress_patch :
    (i : Ingress)
    → contains (split (value_at custom_http_errors i.annotations)) "503" ≡ false
    → contains (split (value_at router_middlewares i.annotations)) (middleware i.namespace) ≡ false
    → LacksComma (middleware i.namespace)
    → let i1 = merge_ingress (idle_ingress_patch i) i in
      let i2 = merge_ingress (unidle_ingress_patch i1) i1 in
      (lookup custom_http_errors i2.annotations ≡ restored custom_http_errors i)
      × (lookup router_middlewares i2.annotations ≡ restored router_middlewares i)
merge_ingress-unidle_ingress_patch-idle_ingress_patch i no_code no_middleware lacks =
    let i1 = merge_ingress (idle_ingress_patch i) i in
    let errors = value_at custom_http_errors i.annotations in
    let middlewares = value_at router_middlewares i.annotations in
    let name = middleware i.namespace in
    let (e, f) = idled_annotations i in
    let (u, v) = unidled_annotations i1 in
    (
      u ∙ rw e (remove_status_code-add_status_code errors "503" (refl, (refl, (refl, tt))) no_code),
      v ∙ rw f (remove_status_code-add_status_code middlewares name lacks no_middleware),
    )
