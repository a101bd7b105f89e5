-- ===== src/Plugin/Ddns/Server.antt =====
-- coredns-plugin/valon/ddns.go, startDDNSServer: the paths of the HTTP API and the status codes of
-- its responses. net/http and encoding/json are not part of the repository: a request comes with
-- the path that its multiplexer compares, equal texts for patterns without a slash at the end, and
-- the decoders of the two bodies are parameters, `none` for an error.
use valon.Prelude.{ℕ, Option, none, some, [], Bytes, codes, if◌then◌else◌, ◌≟◌}
use valon.Text.{Unicode}
use valon.Etcd.{Etcd}
use valon.Plugin.World.{World, Config}
use valon.Plugin.Ddns.{
  DdnsEndpointRequest, HttpRequest, Response, send_error, send_success, panicked,
  handle_endpoint_update, handle_endpoint_delete, handle_health,
}

pub data HttpReply : Type 0 where
  api : Response → HttpReply
  health : ℕ → HttpReply
  not_found : HttpReply

-- the status code, none if the handler panics: net/http then closes the connection
unfoldable pub status_code : HttpReply → Option ℕ
status_code (api (send_error code message)) = some code
status_code (api (send_success message)) = some 200
status_code (api panicked) = none
status_code (health n) = some 200
status_code not_found = some 404

abbrev pub or_fail : {A B : Type 0} → (A → Option B) → Option A → Option B
or_fail decode none = none
or_fail decode (some body) = decode body

abbrev pub with_body : {A B : Type 0} → (A → Option B) → HttpRequest A → HttpRequest B
with_body decode r = record {
  method = r.method;
  body = or_fail decode r.body;
  forwarded_for = r.forwarded_for;
  remote_addr = r.remote_addr;
}

module _ {Body : Type 0} (decode_update : Body → Option DdnsEndpointRequest)
    (decode_delete : Body → Option Bytes) {S : Type 0} (e : Etcd S) (u : Unicode) (v : Config) where
  unfoldable pub serve_http : Bytes → HttpRequest Body → ℕ → World S → HttpReply × World S
  serve_http path r now w =
      if path ≟ codes "/api/endpoint"
      then (let (response, w') = handle_endpoint_update e u v (with_body decode_update r) now w in
          (api response, w'))
      else if path ≟ codes "/api/endpoint/delete"
      then (let (response, w') = handle_endpoint_delete e v (with_body decode_delete r) w in
          (api response, w'))
      else if path ≟ codes "/health"
      then (health (handle_health w), w)
      else (not_found, w)

  -- what a client gets at the address of the API: nothing listens without a listen address
  unfoldable pub request_ddns_server :
      Bytes → Bytes → HttpRequest Body → ℕ → World S → Option ℕ × World S
  unfolding serve_http status_code
  request_ddns_server ddns_listen path r now w =
      if ddns_listen ≟ []
      then (none, w)
      else let (reply, w') = serve_http path r now w in (status_code reply, w')
