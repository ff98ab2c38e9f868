-- ===== src/Unidler/Requests/Verification.antt =====
-- The verification of requests by a signed name.
use mathlib.Core.Option.{some-injective}
use aergia_controller.Base.{
  String, ◌≡◌, ◌↔◌, ◌⊎◌, sym, ◌∙◌, ap, Bool, true, false, Option, none, some, lookup, Bool-cases,
  inl, inr, arith,
}
use aergia_controller.Strings.Hex.{Bytes, AreBytes, encode, decode, decode-encode, bytes_eq_iff}
use aergia_controller.Stdlib.{Stdlib}
use aergia_controller.Kube.{Namespace, Ingress, Cluster}
use aergia_controller.World.{World, returned, pure, ◌>>=◌, count}
use aergia_controller.Unidler.Config.{Unidler, Request, aergia_verifier_name}
use aergia_controller.Unidler.Helpers.{hmac_sign, equal_if_decoded, hmac_verifier, hmac_signer}
use aergia_controller.Unidler.Requests.{header, is_disabled, disable_verification, verify_request}

-- The comparison succeeds on exactly one decoded text.
equal_if_decoded_iff : (c : Bytes) (o : Option Bytes) → (equal_if_decoded c o ≡ true) ↔ (o ≡ some c)
unfolding equal_if_decoded
equal_if_decoded_iff c none = ground arith
equal_if_decoded_iff c (some b) = (
  λ h. ap some (sym ((bytes_eq_iff c b).0 h)),
  λ h. (bytes_eq_iff c b).1 (sym (some-injective b c h)),
)

module _ (L : Stdlib) where
  -- A text is accepted exactly if it is the code of the name, in hexadecimal of any case.
  pub hmac_verifier_iff :
      (name to_verify secret : String)
      → (hmac_verifier L name to_verify secret ≡ true)
        ↔ (decode to_verify ≡ some (hmac_sign L name secret))
  unfolding hmac_verifier
  hmac_verifier_iff name to_verify secret =
      equal_if_decoded_iff (hmac_sign L name secret) (decode to_verify)

  -- What is signed for one name is accepted for another name exactly if the codes of the two names
  -- are the same, so always for the name itself, where the code is made of bytes.
  pub hmac_verifier-hmac_signer :
      (signed name secret : String)
      → AreBytes (hmac_sign L signed secret)
      → (hmac_verifier L name (hmac_signer L signed secret) secret ≡ true)
        ↔ (hmac_sign L signed secret ≡ hmac_sign L name secret)
  unfolding hmac_signer
  hmac_verifier-hmac_signer signed name secret bytes =
      let read = decode-encode (hmac_sign L signed secret) bytes in
      let accept = hmac_verifier_iff name (encode (hmac_sign L signed secret)) secret in
      (λ h. some-injective _ _ (sym read ∙ accept.0 h), λ e. accept.1 (read ∙ ap some e))

module _ (K : Cluster) (L : Stdlib) (h : Unidler) (r : Request) (ns : Namespace) (i : Ingress) where
  -- Nothing is to be verified, or the header of the request holds the code of the namespace.
  abbrev pub IsVerified : Type 0
  IsVerified =
      (h.verified_unidling ≡ false)
      ⊎ (is_disabled (lookup disable_verification i.annotations) ≡ true)
      ⊎ (is_disabled (lookup disable_verification ns.annotations) ≡ true)
      ⊎ (decode (header r aergia_verifier_name) ≡ some (hmac_sign L ns.name h.verified_secret))

  -- The verification of a request always gives an answer, and it is positive exactly if no
  -- verification is asked for by the program, it is disabled by an annotation of the ingress or of
  -- the namespace, or the header of the request is the code of the namespace in hexadecimal.
  pub verify_request_iff :
      (w : World K)
      → (signed : String) × (verified : Bool) × ((verify_request K L h r ns i w).0
          ≡ returned (signed, verified))
        × ((verified ≡ true) ↔ IsVerified)
  unfolding verify_request pure ◌>>=◌ count
  verify_request_iff w = elim (Bool-cases h.verified_unidling) [
    | inl e ↦ elim (Bool-cases (is_disabled (lookup disable_verification i.annotations))) [
      | inl f ↦ ("", true, ground arith, ground arith)
      | inr f ↦ elim (Bool-cases (is_disabled (lookup disable_verification ns.annotations))) [
        | inl g ↦ ("", true, ground arith, ground arith)
        | inr g ↦ (
          hmac_signer L ns.name h.verified_secret,
          hmac_verifier L ns.name (header r aergia_verifier_name) h.verified_secret,
          ground arith,
          ground (
            arith,
            hmac_verifier_iff L ns.name (header r aergia_verifier_name) h.verified_secret,
          ),
        )
      ]
    ]
    | inr e ↦ ("", true, ground arith, ground arith)
  ]
