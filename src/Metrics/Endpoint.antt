-- ===== src/Metrics/Endpoint.antt =====
-- The web server in src/probes/prometheus.rs, and its handlers.
-- The server of the crate `axum` is the environment: what it answers to the attempt to bind an address,
-- and, where it could, with what it stops to serve.
use probes.Prelude.{ℕ, List, [], ◌∷◌, Option, none, some, Result, ok, err}
use probes.Prelude.Bytes.{Bytes}
use probes.Prelude.Text.{Text, text}

abbrev pub internal_server_error : ℕ
internal_server_error = 500

unfoldable pub healthz_handler : Result Text ℕ
healthz_handler = ok (text "ok")

-- `String::from_utf8` on what the encoder wrote, a parameter as the encoder is.
text_of : Option Text → Result Text ℕ
text_of (some v) = ok v
text_of none = err internal_server_error

-- `encoded` is what the encoder of the crate gives; `from_utf8` the check of the encoding.
unfoldable pub metrics_handler : (Bytes → Option Text) → Result Bytes Text → Result Text ℕ
unfolding text_of
metrics_handler from_utf8 (ok buffer) = text_of (from_utf8 buffer)
metrics_handler from_utf8 (err e) = err internal_server_error

pub data Handler : Type 0 where
  healthz metrics : Handler

abbrev pub SocketAddr : Type 0
SocketAddr = List ℕ × ℕ

pub record WebServer : Type 0 where
  pub try_bind : List (Text × Handler) → SocketAddr → Result (Result (Unit {0}) Text) Text

-- `?` on what `serve` ends with, and the `match` on the server.
served : Result (Result (Unit {0}) Text) Text → Result (Unit {0}) Text
served (ok (ok _)) = ok tt
served (ok (err issue)) = err issue
served (err issue) = err issue

unfoldable pub init_prometheus_http_endpoint : WebServer → ℕ → Result (Unit {0}) Text
unfolding served
init_prometheus_http_endpoint server http_port =
    let app : List (Text × Handler) =
      (text "/healthz", healthz) ∷ (text "/metrics", metrics) ∷ [] in
    served (server.try_bind app (0 ∷ 0 ∷ 0 ∷ 0 ∷ [], http_port))
