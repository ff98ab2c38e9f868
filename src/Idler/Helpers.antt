-- ===== src/Idler/Helpers.antt =====
-- internal/handlers/idler/helpers.go
use aergia_controller.Base.{
  String, ◌<>◌, ◌≡◌, refl, Option, List, [], ◌∷◌, ◌==◌, contains, if◌then◌else◌,
}
use aergia_controller.Strings.Split.{split}
use aergia_controller.Kube.{Cluster}
use aergia_controller.World.{World, Action, pure, deref, ◌>>=◌}
use aergia_controller.Idler.Config.{IdlerSelector}

module _ (K : Cluster) where
  -- The error of `NewRequirement` is dropped, and the pointer is nil where there is one.
  unfoldable pub generate_selector : IdlerSelector → Option K.Requirement
  generate_selector s = K.new_requirement s.name s.operator s.values

  unfoldable pub generate_label_requirements :
      List IdlerSelector → Action (World K) (List K.Requirement)
  generate_label_requirements [] = pure []
  generate_label_requirements (s ∷ ss) = do
    r ← deref (generate_selector s)
    rs ← generate_label_requirements ss
    pure (r ∷ rs)

-- The result is never nil.
unfoldable pub add_status_code : String → String → String
unfolding split
add_status_code codes code =
    if codes == ""
    then code
    else if contains (split codes) code
    then codes
    else codes <> ("," <> code)

test_add_status_code :
    (add_status_code "" "503" ≡ "503")
    × (add_status_code "404,503" "503" ≡ "404,503")
    × (add_status_code "404" "503" ≡ "404,503")
unfolding add_status_code ◌==◌
test_add_status_code = (refl, refl, refl)
