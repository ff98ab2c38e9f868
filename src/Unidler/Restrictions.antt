-- ===== src/Unidler/Restrictions.antt =====
-- internal/handlers/unidler/restrictions.go
pub mod Access
use aergia_controller.Base.{
  String, Bool, true, false, not, ◌&&◌, ◌||◌, Option, none, some, List, [], ◌∷◌, ◌==◌,
  if◌then◌else◌, StringMap, lookup, contains,
}
use aergia_controller.Strings.Split.{split}
use aergia_controller.Stdlib.{Stdlib}
use aergia_controller.Unidler.Config.{Unidler}

-- A pattern that does not compile matches nothing.
abbrev pub matches : Stdlib → String → String → Bool
matches L pattern_text agent = elim (L.match_string pattern_text agent) [
  | none ↦ false
  | some b ↦ b
]

any_match : Stdlib → List String → String → Bool
any_match L [] agent = false
any_match L (ua ∷ uas) agent = matches L ua agent || any_match L uas agent

unfoldable pub check_agents : Stdlib → List String → String → Bool
unfolding any_match
check_agents L blocked_agents request_user_agent =
    if request_user_agent == "" then false else any_match L blocked_agents request_user_agent

-- The address of the client, if there is one, or else the addresses that the request came through.
abbrev pub client_ips : List String → String → List String
client_ips x_forwarded_for true_client_ip =
    if true_client_ip == "" then x_forwarded_for else true_client_ip ∷ []

-- The two loops.
any_listed : List String → List String → Bool
any_listed [] ips = false
any_listed (ua ∷ allow_list) ips = contains ips ua || any_listed allow_list ips

unfoldable pub check_ip_list : List String → List String → String → Bool
unfolding any_listed
check_ip_list allow_list x_forwarded_for true_client_ip =
    any_listed allow_list (client_ips x_forwarded_for true_client_ip)

-- `ns` are the annotations of the namespace, `i` those of the ingress and `g` is the global list.
unfoldable pub check_agent_annotations :
    Stdlib → String → String → Option (List String) → StringMap → StringMap → Bool
unfolding check_agents split lookup
check_agent_annotations L annotation ua g ns i = elim (lookup annotation i) [
  | some agents ↦ check_agents L (split agents) ua
  | none ↦ elim (lookup annotation ns) [
    | some agents ↦ check_agents L (split agents) ua
    | none ↦ elim g [ none ↦ false | some agents ↦ check_agents L agents ua ]
  ]
]

unfoldable pub check_ip_annotations :
    String → String → List String → Option (List String) → StringMap → StringMap → Bool
unfolding check_ip_list split lookup
check_ip_annotations annotation tcip xff g ns i = elim (lookup annotation i) [
  | some alist ↦ check_ip_list (split alist) xff tcip
  | none ↦ elim (lookup annotation ns) [
    | some alist ↦ check_ip_list (split alist) xff tcip
    | none ↦ elim g [ none ↦ false | some alist ↦ check_ip_list alist xff tcip ]
  ]
]

unfoldable pub check_access :
    Stdlib → Unidler → StringMap → StringMap → String → String → List String → Bool
unfolding check_agent_annotations check_ip_annotations
check_access L h nsannotations annotations user_agent true_client_ip x_forwarded_for =
    let blocked_ip =
      check_ip_annotations "idling.amazee.io/ip-block-list" true_client_ip x_forwarded_for
        h.blocked_ips nsannotations annotations in
    let allowed_ip =
      check_ip_annotations "idling.amazee.io/ip-allow-list" true_client_ip x_forwarded_for
        h.allowed_ips nsannotations annotations in
    let blocked_agent =
      check_agent_annotations L "idling.amazee.io/blocked-agents" user_agent h.blocked_user_agents
        nsannotations annotations in
    let allowed_agent =
      check_agent_annotations L "idling.amazee.io/allowed-agents" user_agent h.allowed_user_agents
        nsannotations annotations in
    if blocked_ip
    then false
    else if allowed_ip
    then true
    else if blocked_agent
    then false
    else if allowed_agent
    then true
    else true
