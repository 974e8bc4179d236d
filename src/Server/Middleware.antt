-- ===== src/Server/Middleware.antt =====
-- `withRateLimit`, `withBearerAuth` and the routes of `Run` of server/server.go.
use baldsky.Common.{
  ℕ, Text, [], ◌∷◌, ◌++◌, Option, none, some, Bool, false, not, ◌||◌, if◌then◌else◌, ℤ, codes,
  is_empty, cut_prefix, text_eq, any, ◌==◌,
}
use baldsky.Db.Tables.{Collation}
use baldsky.RateLimiter.{RatePackage}
use baldsky.RateLimiter
use baldsky.Server.Types.{
  null, error_body, Response, Request, Route, did_json, healthz, describe_feed_generator,
  get_feed_skeleton, admin_delete_post, admin_feed_metrics, Server, World,
}
use baldsky.Server.Handlers.{
  respond, handle_did_document, handle_healthz, handle_describe_feed_generator,
  handle_get_feed_skeleton, handle_delete_post, handle_get_feed_metrics,
}

-- The text before the last colon and the text behind it.
unfoldable pub cut_last_colon : Text → Option (Text × Text)
cut_last_colon [] = none
cut_last_colon (c ∷ s) = elim (cut_last_colon s) [
  | some (host, port) ↦ some (c ∷ host, port)
  | none ↦ if c == b':' then some ([], s) else none
]

-- The text before the first "]" and the text behind it.
abbrev cut_bracket : Text → Option (Text × Text)
cut_bracket [] = none
cut_bracket (c ∷ s) =
    let rest = cut_bracket s in
    if c == b']' then some ([], s) else elim rest [ none ↦ none | some (a, b) ↦ some (c ∷ a, b) ]

abbrev has_char : ℕ → Text → Bool
has_char c s = any (λ d. d == c) s

-- The host of `net.SplitHostPort`; `none` is its error.
unfoldable pub host_of : Text × Text → Option Text
host_of ([], port) = if has_char b'[' port || has_char b']' port then none else some []
host_of (c ∷ host, port) =
    if c == b'['
    then elim (cut_bracket host) [
      | none ↦ none
      | some (inner, rest) ↦
          if not (is_empty rest)
            || (has_char b'[' inner || (has_char b'[' port || has_char b']' port))
          then none
          else some inner
    ]
    else if has_char b':' (c ∷ host)
        || (has_char b'[' (host ++ port) || has_char b']' (c ∷ host ++ port))
    then none
    else some (c ∷ host)

abbrev ip_of : Text → Option Text → Text
ip_of remote_addr none = remote_addr
ip_of remote_addr (some host) = host

abbrev host_of_cut : Option (Text × Text) → Option Text
host_of_cut none = none
host_of_cut (some cut) = host_of cut

-- The address that is counted: without the port, if there is one.
unfoldable pub remote_ip : Text → Text
unfolding cut_last_colon host_of
remote_ip remote_addr = ip_of remote_addr (host_of_cut (cut_last_colon remote_addr))

abbrev pub token_matches : Text → Option Text → Bool
token_matches token none = false
token_matches token (some given) = text_eq given token

module _ {R L : Type 0} where
  -- `withRateLimit`.
  unfoldable pub with_rate_limit :
      RatePackage R L
      → ℤ
      → (Request → World R L → World R L × Response)
      → Request
      → World R L
      → World R L × Response
  unfolding remote_ip
  with_rate_limit pkg now next r w =
      let (limiter, allowed) = RateLimiter.allow pkg now (remote_ip r.remote_addr) w.limiter in
      let w' = record w { limiter = limiter } in
      if not allowed then (w', respond 429 null) else next r w'

  -- `withBearerAuth`.
  unfoldable pub with_bearer_auth :
      Server
      → (Request → World R L → World R L × Response)
      → Request
      → World R L
      → World R L × Response
  with_bearer_auth s next r w =
      if not (token_matches s.admin_token (cut_prefix r.authorization (codes "Bearer ")))
      then (w, respond 401 (error_body (codes "unauthorized")))
      else next r w

  -- The handler that `Run` registers for a route; those under "/admin" ask for the token.
  unfoldable pub route_handler :
      Collation → Server → Route → Request → World R L → World R L × Response
  route_handler c s did_json r w = (w, handle_did_document s)
  route_handler c s healthz r w = (w, handle_healthz s w.ping)
  route_handler c s describe_feed_generator r w = (w, handle_describe_feed_generator s)
  route_handler c s get_feed_skeleton r w = handle_get_feed_skeleton c s r w
  route_handler c s (admin_delete_post uri) r w =
      with_bearer_auth s (λ r' w'. handle_delete_post uri w') r w
  route_handler c s (admin_feed_metrics feed_name) r w =
      with_bearer_auth s (λ r' w'. handle_get_feed_metrics feed_name w') r w

  -- A request on a route, through the middleware of `Run`.
  unfoldable pub serve :
      RatePackage R L → Collation → Server → ℤ → Route → Request → World R L → World R L × Response
  unfolding route_handler
  serve pkg c s now route r w = with_rate_limit pkg now (route_handler c s route) r w
