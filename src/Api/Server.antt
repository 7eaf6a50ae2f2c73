-- ===== src/Api/Server.antt =====
-- api.py: the middlewares of the HTTP server.
use lucyd.Base.{
  String, Text, Bool, not, ◌&&◌, ◌||◌, List, [], ◌∷◌, drop, is_empty, lit, starts_with, text_eq,
  mem_name, str_eq, if◌then◌else◌,
}
use lucyd.Api.{check}
use lucyd.Api.Requests.{RawAttachment, sender_or}
use lucyd.Api.Handlers.{HttpApi, HttpRequest, State, Reply, json, route, is_ascii, handle}

module _ (api : HttpApi) (send_to_user : Text → List RawAttachment → Bool) where
  -- `_rate_middleware`: the limiter of the paths that are only read, or the other one
  unfoldable pub is_read_only : HttpRequest → Bool
  unfolding starts_with lit
  is_read_only r =
      mem_name r.path (
        "/api/v1/status" ∷ "/api/v1/sessions" ∷ "/api/v1/cost" ∷ "/api/v1/monitor"
        ∷ "/api/v1/index/status" ∷ [])
      || (starts_with (lit r.path) (lit "/api/v1/sessions/") && str_eq r.method "GET")

  unfoldable pub rate_check : HttpRequest → State → Bool × State
  unfolding check is_read_only sender_or
  rate_check r s =
      let client_ip = sender_or "unknown" r.remote in
      let (passed, hits) = check api.status_rate_limiter r.now client_ip s.status_hits in
      let (passed', hits') = check api.rate_limiter r.now client_ip s.hits in
      if is_read_only r
      then (passed, record s { status_hits = hits })
      else (passed', record s { hits = hits' })

  unfoldable pub rate_middleware : HttpRequest → State → State × Reply
  unfolding rate_check handle route
  rate_middleware r s =
      let (passed, s') = rate_check r s in
      if passed
      then handle api send_to_user (route r.method r.path) r r.parsed s'
      else (s', json 429 (lit "rate limit exceeded"))

  -- `_auth_middleware`. `hmac.compare_digest` raises on a text that is not ASCII.
  unfoldable pub is_exempt : String → Bool
  is_exempt path = mem_name path ("/api/v1/status" ∷ "/metrics" ∷ [])

  unfoldable pub is_local : HttpRequest → Bool
  is_local r = api.trust_localhost && mem_name (sender_or "" r.remote) ("127.0.0.1" ∷ "::1" ∷ [])

  unfoldable pub auth_middleware : HttpRequest → State → State × Reply
  unfolding rate_middleware is_exempt is_local starts_with lit
  auth_middleware r s =
      if is_exempt r.path
      then rate_middleware r s
      else if is_local r
      then rate_middleware r s
      else if is_empty api.auth_token
      then (s, json 503 (lit "No auth token configured"))
      else if not (starts_with r.authorization (lit "Bearer "))
      then (s, json 401 (lit "unauthorized"))
      else if not (is_ascii (drop 7 r.authorization) && is_ascii api.auth_token)
      then (s, json 500 (lit "internal server error"))
      else if text_eq (drop 7 r.authorization) api.auth_token
      then rate_middleware r s
      else (s, json 401 (lit "unauthorized"))
