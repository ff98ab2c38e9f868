-- ===== src/Tests/Handling.antt =====
-- Runs of the handler of requests, its checks and the lock.
use aergia_controller.Base.{
  String, ◌≡◌, ◌↔◌, ◌⊎◌, refl, Bool, true, false, arith, some, [], ◌∷◌, pos, ◌==◌, StringMap,
  lookup,
}
use aergia_controller.Strings.Decimal.{atoi}
use aergia_controller.World.{returned}
use aergia_controller.Unidler.Helpers.{hmac_sign, hmac_verifier, hmac_signer}
use aergia_controller.Unidler.Restrictions.{check_access}
use aergia_controller.Unidler.Restrictions.Access.{IsDenied, check_access_iff}
use aergia_controller.Unidler.Requests.{pick_ingress, empty_ingress, response_code, verify_request}
use aergia_controller.Unidler.Requests.Verification.{
  IsVerified, hmac_verifier-hmac_signer, verify_request_iff,
}
use aergia_controller.Unidler.Requests.Hosts.{pick_ingress_default}
use aergia_controller.Unidler.Handler.{ingress_handler}
use aergia_controller.Kube.{Namespace, Ingress}
use aergia_controller.Unidler.Handler.Started.{StateSame, Started}
use aergia_controller.Unidler.Handler.Admitted.{IsAdmitted}
use aergia_controller.Unidler.Handler.Starts.{ingress_handler_starts}
use aergia_controller.Unidler.Handler.Sent.{IsHead, ingress_handler_sent}
use aergia_controller.Unidler.Handler.Locks.{IsLocked, ingress_handler_locks}
use aergia_controller.Unidler.Requests.{request_namespace}
use aergia_controller.Unidler.Locking.{Steps, unlocked}
use aergia_controller.Unidler.Locking.Interleavings.{
  HasNoStaleLock, Steps-HasNoStaleLock, Steps-race,
}
use aergia_controller.Tests.Memory.{memory}
use aergia_controller.Tests.Memory.Laws.{memory-IsLawful}
use aergia_controller.Tests.Samples.{
  stdlib, main_namespace, main_ingress, world, unidler, request, exchange,
}

check_access_iff_example :
    (check_access stdlib unidler [] main_ingress.annotations "browser" "10.0.0.9" [] ≡ false)
    ↔ IsDenied stdlib unidler [] main_ingress.annotations "browser" "10.0.0.9" []
check_access_iff_example =
    check_access_iff stdlib unidler [] main_ingress.annotations "browser" "10.0.0.9" []

hmac_verifier-hmac_signer_example :
    (hmac_verifier stdlib "main" (hmac_signer stdlib "main" "secret") "secret" ≡ true)
    ↔ (hmac_sign stdlib "main" "secret" ≡ hmac_sign stdlib "main" "secret")
unfolding hmac_sign ◌==◌
hmac_verifier-hmac_signer_example =
    hmac_verifier-hmac_signer stdlib "main" "main" "secret" (omega arith, tt)

verify_request_iff_example :
    (signed : String) × (verified : Bool) × ((verify_request memory stdlib unidler request
        main_namespace main_ingress world).0
      ≡ returned (signed, verified))
    × ((verified ≡ true) ↔ IsVerified memory stdlib unidler request main_namespace main_ingress)
verify_request_iff_example =
    verify_request_iff memory stdlib unidler request main_namespace main_ingress world

pick_ingress_default_example :
    pick_ingress "example.com" (main_ingress ∷ []) empty_ingress ≡ empty_ingress
pick_ingress_default_example =
    pick_ingress_default "e" "x" "ample.com" (main_ingress ∷ []) empty_ingress

response_code_503 : response_code unidler request ≡ pos 503
unfolding response_code atoi lookup ◌==◌
response_code_503 = refl

ingress_handler_sent_example :
    (hs : StringMap) × ((ingress_handler memory stdlib unidler "/www" request
        exchange).1.writer.sent
      ≡ some (response_code unidler request, hs))
    × IsHead memory stdlib unidler request hs
unfolding response_code atoi lookup ◌==◌
ingress_handler_sent_example =
    ingress_handler_sent memory stdlib unidler memory-IsLawful "/www" request world refl refl

ingress_handler_locks_example :
    let y = (ingress_handler memory stdlib unidler "/www" request exchange).1 in
    (y.world.cluster ≡ world.cluster) × (IsLocked world → IsLocked y.world)
ingress_handler_locks_example =
    ingress_handler_locks memory stdlib unidler memory-IsLawful "/www" request exchange

ingress_handler_starts_example :
    let y = (ingress_handler memory stdlib unidler "/www" request exchange).1 in
    StateSame memory exchange y
    ⊎ ((ns : Namespace) × (i : Ingress) × IsAdmitted memory stdlib unidler request exchange ns i
        × Started memory (request_namespace request) ns exchange y)
ingress_handler_starts_example =
    ingress_handler_starts memory stdlib unidler "/www" request exchange

Steps-HasNoStaleLock_example :
    HasNoStaleLock (record { locks = "main" ∷ []; pending = []; running = "main" ∷ "main" ∷ [] })
Steps-HasNoStaleLock_example =
    Steps-HasNoStaleLock
      (record { locks = "main" ∷ []; pending = []; running = "main" ∷ "main" ∷ [] })
      (Steps-race "main")

Steps-race_example :
    Steps unlocked (record { locks = "main" ∷ []; pending = []; running = "main" ∷ "main" ∷ [] })
Steps-race_example = Steps-race "main"
