-- ===== src/Unidler/Server.antt =====
-- `Run` of internal/handlers/unidler/unidler.go: the server, its address and its two routes. The
-- multiplexer of net/http sends the path of the favicon to its handler and every other one to the
-- handler of the ingress controller; it redirects a path that is not clean before that.
pub mod Walk
use aergia_controller.Base.{ℕ, Option, none, some, String, ◌<>◌, ◌==◌, if◌then◌else◌}
use aergia_controller.Strings.Decimal.{itoa}
use aergia_controller.Stdlib.{Stdlib}
use aergia_controller.Kube.{Cluster}
use aergia_controller.World.{Action, on_error}
use aergia_controller.Unidler.Config.{Unidler, Request}
use aergia_controller.Unidler.Response.{Exchange}
use aergia_controller.Unidler.Handler.{ingress_handler, favicon_handler}

-- Where the pages are.
unfoldable pub err_files_path : Stdlib → String
err_files_path L = if L.getenv "ERROR_FILES_PATH" == "" then "/www" else L.getenv "ERROR_FILES_PATH"

unfoldable pub server_addr : Unidler → String
unfolding itoa
server_addr h = ":" <> itoa h.unidler_http_port

unfoldable pub serve_http :
    (K : Cluster) → Stdlib → Unidler → String → Request → Action (Exchange K) (Unit {0})
serve_http K L h url_path r =
    if url_path == "/favicon.ico"
    then favicon_handler K
    else ingress_handler K L h (err_files_path L) r

-- `ListenAndServe` gives its error whenever it ends; the program then exits with the status 1.
unfoldable pub run : (String → Option String) → Unidler → Option ℕ
unfolding server_addr on_error
run listen_and_serve h = on_error (listen_and_serve (server_addr h)) (λ _. some 1) none
