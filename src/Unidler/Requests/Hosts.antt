-- ===== src/Unidler/Requests/Hosts.antt =====
-- The ingress that is found by the host name of a request.
use aergia_controller.Base.{Char, String, ◌≡◌, refl, false, List, [], ◌∷◌, ◌==◌, ==_ne}
use aergia_controller.Kube.{Ingress}
use aergia_controller.Unidler.Requests.{has_host, any_host, pick_ingress}

one_character :
    (c d e : Char) (s : String) → (String.◌∷◌ c "" == String.◌∷◌ d (String.◌∷◌ e s)) ≡ false
one_character c d e s = ==_ne _ _ λ p. cc

has_host_default :
    (d e : Char) (s host : String) → has_host (String.◌∷◌ d (String.◌∷◌ e s)) host ≡ false
unfolding has_host
has_host_default d e s String.[] = refl
has_host_default d e s (String.◌∷◌ c host) = rw (one_character c d e s, has_host_default d e s host)

any_host_default :
    (d e : Char) (s : String) (hosts : List String)
    → any_host (String.◌∷◌ d (String.◌∷◌ e s)) hosts ≡ false
unfolding any_host
any_host_default d e s [] = refl
any_host_default d e s (host ∷ hosts) =
    rw (has_host_default d e s host, any_host_default d e s hosts)

-- A host name of more than one character is compared with single characters of the hosts of the
-- rules, so it finds no ingress: the choice is always the one to fall back on.
pub pick_ingress_default :
    (d e : Char) (s : String) (is : List Ingress) (ingress : Ingress)
    → pick_ingress (String.◌∷◌ d (String.◌∷◌ e s)) is ingress ≡ ingress
unfolding pick_ingress
pick_ingress_default d e s [] ingress = refl
pick_ingress_default d e s (i ∷ is) ingress =
    rw (any_host_default d e s i.hosts, pick_ingress_default d e s is ingress)
