-- ===== src/Unidler/Restrictions/Access.antt =====
-- Who may unidle: the access check against a description of the lists that count.
use mathlib.Core.List.{Memᴰ}
use aergia_controller.Base.{
  String, ◌≡◌, ◌≢◌, ◌↔◌, refl, sym, ◌∙◌, ap, Bool, true, false, Option, none, some, List, [], ◌∷◌,
  ◌⊎◌, inl, inr, ◌==◌, ==_iff, arith, contains, lookup, StringMap, Bool-cases,
}
use aergia_controller.Strings.Split.{split}
use aergia_controller.Stdlib.{Stdlib}
use aergia_controller.Unidler.Config.{Unidler}
use aergia_controller.Unidler.Restrictions.{
  matches, any_match, any_listed, check_agents, client_ips, check_agent_annotations,
  check_ip_annotations, check_access,
}

-- The list that counts: the annotation of the ingress, or else of the namespace, or else the global
-- list, if there is one.
abbrev pub effective : String → Option (List String) → StringMap → StringMap → Option (List String)
effective annotation g ns i = elim (lookup annotation i) [
  | some text ↦ some (split text)
  | none ↦ elim (lookup annotation ns) [ some text ↦ some (split text) | none ↦ g ]
]

-- An address of the client is on the list.
abbrev pub IpHit : Option (List String) → List String → Type 0
IpHit none ips = ⊥
IpHit (some l) ips = (ip : String) × Memᴰ ip l × Memᴰ ip ips

-- The client names its agent, and a pattern of the list compiles and matches it.
abbrev pub AgentHit : Stdlib → Option (List String) → String → Type 0
AgentHit L none agent = ⊥
AgentHit L (some l) agent =
    (agent ≢ "") × ((p : String) × Memᴰ p l × (L.match_string p agent ≡ some true))

contains-Mem : (xs : List String) (a : String) → contains xs a ≡ true → Memᴰ a xs
contains-Mem [] a h = cc
contains-Mem (x ∷ xs) a h = elim (Bool-cases (x == a)) [
  | inl e ↦ Memᴰ.head (sym ((==_iff x a).0 e))
  | inr e ↦ Memᴰ.tail (contains-Mem xs a (ground arith))
]

Mem-contains : (xs : List String) (a : String) → Memᴰ a xs → contains xs a ≡ true
Mem-contains [] a m = elim m [ ]
Mem-contains (x ∷ xs) a (Memᴰ.head e) = ground (arith, ==_iff x a)
Mem-contains (x ∷ xs) a (Memᴰ.tail m) = ground (arith, Mem-contains xs a m)

any_listed-IpHit : (l ips : List String) → any_listed l ips ≡ true → IpHit (some l) ips
unfolding any_listed
any_listed-IpHit [] ips h = cc
any_listed-IpHit (a ∷ l) ips h = elim (Bool-cases (contains ips a)) [
  | inl e ↦ (a, Memᴰ.head refl, contains-Mem ips a e)
  | inr e ↦ let (ip, m, n) = any_listed-IpHit l ips (ground arith) in (ip, Memᴰ.tail m, n)
]

IpHit-any_listed :
    (l ips : List String) (ip : String) → Memᴰ ip l → Memᴰ ip ips → any_listed l ips ≡ true
unfolding any_listed
IpHit-any_listed [] ips ip m n = elim m [ ]
IpHit-any_listed (a ∷ l) ips ip (Memᴰ.head e) n = ground (arith, Mem-contains ips ip n)
IpHit-any_listed (a ∷ l) ips ip (Memᴰ.tail m) n = ground (arith, IpHit-any_listed l ips ip m n)

module _ (L : Stdlib) where
  matches_iff :
      (p agent : String) → (matches L p agent ≡ true) ↔ (L.match_string p agent ≡ some true)
  matches_iff p agent = ground arith

  any_match-Mem :
      (l : List String) (agent : String)
      → any_match L l agent ≡ true
      → (p : String) × Memᴰ p l × (L.match_string p agent ≡ some true)
  unfolding any_match
  any_match-Mem [] agent h = cc
  any_match-Mem (p ∷ l) agent h = elim (Bool-cases (matches L p agent)) [
    | inl e ↦ (p, Memᴰ.head refl, (matches_iff p agent).0 e)
    | inr e ↦ let (q, m, f) = any_match-Mem l agent (rw e at h) in (q, Memᴰ.tail m, f)
  ]

  Mem-any_match :
      (l : List String) (agent p : String)
      → Memᴰ p l
      → L.match_string p agent ≡ some true
      → any_match L l agent ≡ true
  unfolding any_match
  Mem-any_match [] agent p m e = elim m [ ]
  Mem-any_match (q ∷ l) agent p (Memᴰ.head f) e =
      rw ((matches_iff q agent).1 (ap (λ t. L.match_string t agent) (sym f) ∙ e))
  Mem-any_match (q ∷ l) agent p (Memᴰ.tail m) e = ground (arith, Mem-any_match l agent p m e)

  check_agents_iff :
      (l : List String) (agent : String)
      → (check_agents L l agent ≡ true) ↔ AgentHit L (some l) agent
  unfolding check_agents
  check_agents_iff l agent = elim (Bool-cases (agent == "")) [
    | inl e ↦ (λ h. absurd (cc (rw e at h)), λ (ne, _). absurd (ne ((==_iff agent "").0 e)))
    | inr e ↦ (
      λ h. (λ f. cc (e, (==_iff agent "").1 f), any_match-Mem l agent (rw e at h)),
      λ (_, (p, m, f)). rw e (Mem-any_match l agent p m f),
    )
  ]

  abbrev on_agents : Option (List String) → String → Bool
  on_agents none agent = false
  on_agents (some l) agent = check_agents L l agent

  on_agents_iff :
      (o : Option (List String)) (agent : String) → (on_agents o agent ≡ true) ↔ AgentHit L o agent
  on_agents_iff none agent = (λ e. cc, λ h. absurd h)
  on_agents_iff (some l) agent = check_agents_iff l agent

  check_effective_agents :
      (annotation agent : String) (g : Option (List String)) (ns i : StringMap)
      → check_agent_annotations L annotation agent g ns i
        ≡ on_agents (effective annotation g ns i) agent
  unfolding check_agent_annotations
  check_effective_agents annotation agent g ns i = ground arith

  agents_iff :
      (annotation agent : String) (g : Option (List String)) (ns i : StringMap)
      → (check_agent_annotations L annotation agent g ns i ≡ true)
        ↔ AgentHit L (effective annotation g ns i) agent
  agents_iff annotation agent g ns i =
      rw (check_effective_agents annotation agent g ns i) (on_agents_iff _ agent)

abbrev on_ips : Option (List String) → List String → Bool
on_ips none ips = false
on_ips (some l) ips = any_listed l ips

on_ips_iff : (o : Option (List String)) (ips : List String) → (on_ips o ips ≡ true) ↔ IpHit o ips
on_ips_iff none ips = (λ e. cc, λ h. absurd h)
on_ips_iff (some l) ips = (any_listed-IpHit l ips, λ (ip, m, n). IpHit-any_listed l ips ip m n)

check_effective_ips :
    (annotation tcip : String) (xff : List String) (g : Option (List String)) (ns i : StringMap)
    → check_ip_annotations annotation tcip xff g ns i
      ≡ on_ips (effective annotation g ns i) (client_ips xff tcip)
unfolding check_ip_annotations
check_effective_ips annotation tcip xff g ns i = ground arith

ips_iff :
    (annotation tcip : String) (xff : List String) (g : Option (List String)) (ns i : StringMap)
    → (check_ip_annotations annotation tcip xff g ns i ≡ true)
      ↔ IpHit (effective annotation g ns i) (client_ips xff tcip)
ips_iff annotation tcip xff g ns i =
    rw (check_effective_ips annotation tcip xff g ns i) (on_ips_iff _ _)

module _ (L : Stdlib) (h : Unidler) (ns i : StringMap) (agent tcip : String)
    (xff : List String) where
  -- The client's address is blocked, or it is not allowed and the agent is blocked.
  abbrev pub IsDenied : Type 0
  IsDenied =
      IpHit (effective "idling.amazee.io/ip-block-list" h.blocked_ips ns i) (client_ips xff tcip)
      ⊎ ((¬ IpHit (effective "idling.amazee.io/ip-allow-list" h.allowed_ips ns i)
            (client_ips xff tcip))
          × AgentHit L (effective "idling.amazee.io/blocked-agents" h.blocked_user_agents ns i)
              agent)

  -- Access is refused to a request exactly if an address of the client is on the list of blocked
  -- addresses, or none is on the list of allowed ones and a pattern of the blocked agents compiles
  -- and matches the agent that the request names; the address is that of its own header, or else
  -- any of those it was forwarded for, and each list is that of the ingress, or else that of the
  -- namespace, or else that of the program. The allowed agents have no part in it.
  pub check_access_iff : (check_access L h ns i agent tcip xff ≡ false) ↔ IsDenied
  unfolding check_access
  check_access_iff = ground (
    arith,
    ips_iff "idling.amazee.io/ip-block-list" tcip xff h.blocked_ips ns i,
    ips_iff "idling.amazee.io/ip-allow-list" tcip xff h.allowed_ips ns i,
    agents_iff L "idling.amazee.io/blocked-agents" agent h.blocked_user_agents ns i,
  )
