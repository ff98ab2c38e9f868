-- ===== src/Idler/Exec.antt =====
-- `execPod` of internal/handlers/idler/handler.go: the command that is run in a pod.
use aergia_controller.Base.{String, ◌<>◌, List, [], ◌∷◌}
use aergia_controller.Kube.{Result, ok, err, Cluster}
use aergia_controller.World.{on_reply, on_error}

-- An empty command stands for a shell.
abbrev or_shell : List String → List String
or_shell [] = "sh" ∷ []
or_shell (c ∷ cs) = c ∷ cs

-- The standard output and the standard error, or the first error, with what was tried before it.
unfoldable pub exec_pod :
    (K : Cluster) → K.State → String → String → List String → Result (String × String)
unfolding on_error on_reply
exec_pod K s pod ns command =
    on_error K.get_config (λ e. err ("unable to get config: " <> e))
      (on_error K.new_for_config (λ e. err ("unable to create client: " <> e))
        (on_error K.add_to_scheme (λ e. err ("error adding to scheme: " <> e))
          (on_error (K.new_executor pod ns (or_shell command))
            (λ e. err ("error while creating Executor: " <> e))
            (on_reply (K.stream s pod ns (or_shell command)) (λ out. ok out)
              (λ e. err ("error in Stream: " <> e))))))
