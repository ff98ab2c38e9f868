-- ===== src/Kube/Lawful.antt =====
-- What the program relies on from the API server: a merge patch that is accepted changes the
-- patched object as RFC 7386 says, one that is refused changes nothing, no patch changes
-- another object, and a namespace is found under its name.
use aergia_controller.Base.{
  String, ◌≡◌, Bool, true, false, ◌&&◌, Option, none, some, [], ◌∷◌, ℤ, StringMap, insert, erase,
  ◌==◌, if◌then◌else◌,
}
use aergia_controller.Kube.{
  Namespace, Deployment, Ingress, Changes, Patch, Result, ok, err, Cluster,
}

abbrev change : String → Option String → StringMap → StringMap
change k none m = erase k m
change k (some v) m = insert k v m

unfoldable pub merge : Changes → StringMap → StringMap
merge [] m = m
merge ((k, v) ∷ cs) m = merge cs (change k v m)

abbrev set_replicas : Option ℤ → Option ℤ → Option ℤ
set_replicas none old = old
set_replicas (some n) old = some n

abbrev pub merge_deployment : Patch → Deployment → Deployment
merge_deployment p d = record d {
  replicas = set_replicas p.replicas d.replicas;
  labels = merge p.labels d.labels;
  annotations = merge p.annotations d.annotations;
}

abbrev pub merge_ingress : Patch → Ingress → Ingress
merge_ingress p i = record i {
  labels = merge p.labels i.labels;
  annotations = merge p.annotations i.annotations;
}

abbrev pub merge_namespace : Patch → Namespace → Namespace
merge_namespace p n = record n {
  labels = merge p.labels n.labels;
  annotations = merge p.annotations n.annotations;
}

abbrev pub on_ok {ℓ κ} : {A : Type ℓ} {B : Type κ} → (A → B) → Result A → Result B
on_ok f (ok a) = ok (f a)
on_ok f (err e) = err e

abbrev pub accepted : Option String → Bool
accepted none = true
accepted (some e) = false

pub record IsLawful (K : Cluster) : Type 0 where
  pub named :
      (s : K.State) (name : String) (ns : Namespace)
      → K.get_namespace s name ≡ ok ns
      → ns.name ≡ name
  pub deployment-patch_deployment :
      (s : K.State) (ns name : String) (p : Patch) (ns' name' : String)
      → K.get_deployment (K.patch_deployment s ns name p).0 ns' name' ≡ (
          if accepted (K.patch_deployment s ns name p).1 && (ns == ns' && name == name')
          then on_ok (merge_deployment p) (K.get_deployment s ns' name')
          else K.get_deployment s ns' name')
  pub ingress-patch_ingress :
      (s : K.State) (ns name : String) (p : Patch) (ns' name' : String)
      → K.get_ingress (K.patch_ingress s ns name p).0 ns' name' ≡ (
          if accepted (K.patch_ingress s ns name p).1 && (ns == ns' && name == name')
          then on_ok (merge_ingress p) (K.get_ingress s ns' name')
          else K.get_ingress s ns' name')
  pub namespace-patch_namespace :
      (s : K.State) (ns : String) (p : Patch) (ns' : String)
      → K.get_namespace (K.patch_namespace s ns p).0 ns' ≡ (
          if accepted (K.patch_namespace s ns p).1 && ns == ns'
          then on_ok (merge_namespace p) (K.get_namespace s ns')
          else K.get_namespace s ns')
  pub deployment-patch_ingress :
      (s : K.State) (ns name : String) (p : Patch) (ns' name' : String)
      → K.get_deployment (K.patch_ingress s ns name p).0 ns' name' ≡ K.get_deployment s ns' name'
  pub deployment-patch_namespace :
      (s : K.State) (ns : String) (p : Patch) (ns' name' : String)
      → K.get_deployment (K.patch_namespace s ns p).0 ns' name' ≡ K.get_deployment s ns' name'
  pub ingress-patch_deployment :
      (s : K.State) (ns name : String) (p : Patch) (ns' name' : String)
      → K.get_ingress (K.patch_deployment s ns name p).0 ns' name' ≡ K.get_ingress s ns' name'
  pub ingress-patch_namespace :
      (s : K.State) (ns : String) (p : Patch) (ns' name' : String)
      → K.get_ingress (K.patch_namespace s ns p).0 ns' name' ≡ K.get_ingress s ns' name'
  pub namespace-patch_deployment :
      (s : K.State) (ns name : String) (p : Patch) (ns' : String)
      → K.get_namespace (K.patch_deployment s ns name p).0 ns' ≡ K.get_namespace s ns'
  pub namespace-patch_ingress :
      (s : K.State) (ns name : String) (p : Patch) (ns' : String)
      → K.get_namespace (K.patch_ingress s ns name p).0 ns' ≡ K.get_namespace s ns'
