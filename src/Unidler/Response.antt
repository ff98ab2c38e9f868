-- ===== src/Unidler/Response.antt =====
-- The `http.ResponseWriter` of Go's standard library, as far as the handlers use it, and the state
-- of one exchange: the world and the response.
use aergia_controller.Base.{
  String, Bool, false, not, ◌&&◌, Option, none, some, List, [], ◌∷◌, ◌++◌, ℤ, pos, negsuc, leb, eqb,
  if◌then◌else◌, StringMap, insert,
}
use aergia_controller.Kube.{Cluster}
use aergia_controller.World.{World, returned, panicked, Action, modify}
use aergia_controller.Unidler.Config.{PageData}

-- What is written to the body: a text, or a page that a template file makes of data.
pub data Body : Type 0 where
  text : String → Body
  page : String → PageData → Body

-- `sent` is the status with the headers as they were when it was written. Later changes of the
-- headers do not reach the client.
pub record Writer : Type 0 where
  pub headers : StringMap
  pub sent : Option (ℤ × StringMap)
  pub body : List Body

abbrev pub new_writer : Writer
new_writer = record { headers = []; sent = none; body = [] }

pub record Exchange (K : Cluster) : Type 0 where
  pub world : World K
  pub writer : Writer

-- A status has three digits.
abbrev pub is_status : ℤ → Bool
is_status (pos n) = leb 100 n && leb n 999
is_status (negsuc n) = false

-- Other than 101, a status below 200 goes ahead of the response and is not its status.
abbrev pub is_informational : ℤ → Bool
is_informational (pos n) = leb 100 n && leb n 199 && not (eqb n 101)
is_informational (negsuc n) = false

-- The status of a response is written once.
abbrev pub send : ℤ → Writer → Writer
send code w = elim w.sent [
  | some s ↦ w
  | none ↦ if is_informational code then w else record w { sent = some (code, w.headers) }
]

-- A body that is written first sends the status 200.
abbrev pub append_body : Body → Writer → Writer
append_body b w = let w' = send (pos 200) w in record w' { body = w'.body ++ b ∷ [] }

module _ (K : Cluster) where
  unfoldable pub set_header : String → String → Action (Exchange K) (Unit {0})
  set_header k v =
      modify λ x. record x { writer = record x.writer { headers = insert k v x.writer.headers } }

  -- A status that is none panics, unless one has been written.
  unfoldable pub write_header : ℤ → Action (Exchange K) (Unit {0})
  write_header code x = elim x.writer.sent [
    | some s ↦ (returned tt, x)
    | none ↦
        if is_status code
        then (returned tt, record x { writer = send code x.writer })
        else (panicked "invalid WriteHeader code", x)
  ]

  unfoldable pub write : Body → Action (Exchange K) (Unit {0})
  write b = modify λ x. record x { writer = append_body b x.writer }

  -- An action on the world.
  unfoldable pub in_world : {A : Type 0} → Action (World K) A → Action (Exchange K) A
  in_world m x = let (r, w) = m x.world in (r, record x { world = w })
