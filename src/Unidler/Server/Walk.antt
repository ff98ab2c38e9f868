-- ===== src/Unidler/Server/Walk.antt =====
-- What the handlers keep, the server keeps.
use aergia_controller.Base.{String}
use aergia_controller.Stdlib.{Stdlib}
use aergia_controller.Kube.{Cluster}
use aergia_controller.World.Keeps.{IsPreorder, Keeps, Keeps-bind, Keeps-if}
use aergia_controller.Unidler.Config.{Unidler, Request}
use aergia_controller.Unidler.Response.{Body, Exchange, set_header, write}
use aergia_controller.Unidler.Handler.{ingress_handler, favicon_handler}
use aergia_controller.Unidler.Server.{err_files_path, serve_http}

module _ (K : Cluster) (L : Stdlib) (h : Unidler) {R : Exchange K → Exchange K → Type 0}
    (P : IsPreorder R) (keeps_header : (k v : String) → Keeps R (set_header K k v))
    (keeps_body : (b : Body) → Keeps R (write K b)) where
  favicon-Keeps : Keeps R (favicon_handler K)
  unfolding favicon_handler
  favicon-Keeps = search (keeps_header, keeps_body, Keeps-bind P) depth 12

  pub serve_http-Keeps :
      (r : Request)
      → ((path : String) → Keeps R (ingress_handler K L h path r))
      → (url_path : String) → Keeps R (serve_http K L h url_path r)
  unfolding serve_http
  serve_http-Keeps r kept url_path =
      Keeps-if _ _ _ (λ _. favicon-Keeps) (λ _. kept (err_files_path L))
