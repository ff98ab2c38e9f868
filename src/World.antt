-- ===== src/World.antt =====
-- The state that a call of the program changes, and the actions on it. An action returns or
-- panics; what was changed before a panic stays changed.
pub mod Keeps
pub mod Changed
pub mod Each
pub mod Unchanged
pub mod Returns
pub mod Leads
pub mod Ends
pub mod Registry
use aergia_controller.Base.{
  ℕ, zero, suc, ◌+◌, String, Bool, Option, none, some, List, [], ◌∷◌, ◌++◌, ◌≡◌, if◌then◌else◌,
  ◌==◌,
}
use aergia_controller.Kube.{Namespace, Deployment, Ingress, Pod, Patch, Result, Selector, Cluster}

-- The counters of internal/handlers/metrics, as numbers. `request_count` is a vector by protocol,
-- `request_duration` the observations, newest first, in nanoseconds.
pub record Metrics : Type 0 where
  pub request_count : String → ℕ
  pub request_duration : List (String × ℕ)
  pub allowed_requests : ℕ
  pub verification_requests : ℕ
  pub verification_required : ℕ
  pub blocked_requests : ℕ
  pub no_namespace_requests : ℕ
  pub unidle_events : ℕ
  pub service_idle_events : ℕ
  pub cli_idle_events : ℕ

-- `locks` are the keys of the `sync.Map` of the unidler. `goroutines` are the calls of `Unidle`
-- that have been started, newest last.
pub record World (K : Cluster) : Type 0 where
  pub cluster : K.State
  pub metrics : Metrics
  pub locks : List String
  pub goroutines : List Namespace

pub data Outcome {ℓ} (A : Type ℓ) : Type ℓ where
  returned : A → Outcome A
  panicked : String → Outcome A

abbrev pub Action : Type 0 → Type 0 → Type 0
Action S A = S → Outcome A × S

module _ {S A : Type 0} where
  unfoldable pub pure : A → Action S A
  pure a s = (returned a, s)

  unfoldable pub panic : String → Action S A
  panic e s = (panicked e, s)

  unfoldable pub gets : (S → A) → Action S A
  gets f s = (returned (f s), s)

unfoldable pub modify : {S : Type 0} → (S → S) → Action S (Unit {0})
modify f s = (returned tt, f s)

module _ {S A B : Type 0} where
  unfoldable pub continue : Outcome A → (A → Action S B) → Action S B
  continue (returned a) f s = f a s
  continue (panicked e) f s = (panicked e, s)

  infixl 10 ◌>>=◌ ◌>>◌
  unfoldable pub ◌>>=◌ : Action S A → (A → Action S B) → Action S B
  unfolding continue pure panic gets modify
  ◌>>=◌ m f s = let (r, s') = m s in continue r f s'

  abbrev pub ◌>>◌ : Action S A → Action S B → Action S B
  m >> n = m >>= λ _. n

-- `for _, x := range xs { … }`
unfoldable pub for_each : {S A : Type 0} → List A → (A → Action S (Unit {0})) → Action S (Unit {0})
unfolding pure
for_each [] body = pure tt
for_each (x ∷ xs) body = body x >> for_each xs body

module _ {S A : Type 0} where
  -- The dereference of a pointer that may be nil.
  unfoldable pub deref : Option A → Action S A
  unfolding pure panic
  deref none = panic "invalid memory address or nil pointer dereference"
  deref (some a) = pure a

-- `if err != nil { … } else { … }`
unfoldable pub on_reply : {A B : Type 0} → Result A → (A → B) → (String → B) → B
on_reply (Result.ok a) f g = f a
on_reply (Result.err e) f g = g e

-- The branch on an error that may be nil.
unfoldable pub on_error : {A : Type 0} → Option String → (String → A) → A → A
on_error none f a = a
on_error (some e) f a = f e

module _ (K : Cluster) where
  unfoldable pub patch_namespace : String → Patch → Action (World K) (Option String)
  patch_namespace name p w =
      let (c, e) = K.patch_namespace w.cluster name p in (returned e, record w { cluster = c })

  unfoldable pub patch_deployment : String → String → Patch → Action (World K) (Option String)
  patch_deployment ns name p w =
      let (c, e) = K.patch_deployment w.cluster ns name p in (returned e, record w { cluster = c })

  unfoldable pub patch_ingress : String → String → Patch → Action (World K) (Option String)
  patch_ingress ns name p w =
      let (c, e) = K.patch_ingress w.cluster ns name p in (returned e, record w { cluster = c })

  unfoldable pub poll : (K.State → Result Bool) → Action (World K) (Option String)
  poll condition w =
      let (c, e) = K.poll condition w.cluster in (returned e, record w { cluster = c })

  unfoldable pub read : {A : Type 0} → (K.State → A) → Action (World K) A
  unfolding gets
  read f = gets (λ w. f w.cluster)

  -- `Inc` on a counter.
  unfoldable pub count : (Metrics → Metrics) → Action (World K) (Unit {0})
  unfolding modify
  count f = modify (λ w. record w { metrics = f w.metrics })
