-- ===== src/Server/Access.antt =====
-- Who may do what at the HTTP server of server/server.go.
use baldsky.Common.{
  Text, ◌++◌, Bool, true, false, ℤ, codes, cut_prefix, cut_prefix-append, cut_prefix_sound,
  text_eq_iff, text_eq_refl, ◌≡◌, ◌≢◌, ◌⊎◌, inl, inr, ◌↔◌, Bool-cases, Option-cases, ap, ◌∙◌,
}
use baldsky.Db.Tables.{Collation}
use baldsky.RateLimiter.{RatePackage}
use baldsky.RateLimiter
use baldsky.Server.Types.{
  null, error_body, Response, Request, Route, admin_delete_post, admin_feed_metrics, Server, World,
}
use baldsky.Server.Handlers.{respond, handle_delete_post, handle_get_feed_metrics}
use baldsky.Server.Middleware.{
  remote_ip, with_rate_limit, with_bearer_auth, token_matches, route_handler, serve,
}

-- The header that the admin routes ask for.
abbrev pub bearer : Server → Text
bearer s = codes "Bearer " ++ s.admin_token

token_iff :
    (s : Server) (authorization : Text)
    → (token_matches s.admin_token (cut_prefix authorization (codes "Bearer ")) ≡ true)
      ↔ (authorization ≡ bearer s)
token_iff s authorization = (
  λ h. elim (Option-cases (cut_prefix authorization (codes "Bearer "))) [
    | inl e ↦ let k = rw e at h in cc
    | inr (given, e) ↦
        let k = rw e at h in
        cut_prefix_sound authorization (codes "Bearer ") given e
        ∙ ap (λ t. codes "Bearer " ++ t) ((text_eq_iff given s.admin_token).0 k)
  ],
  λ e. rw (e, cut_prefix-append (codes "Bearer ") s.admin_token) (text_eq_refl s.admin_token),
)

module _ {R L : Type 0} (s : Server) (next : Request → World R L → World R L × Response)
    (r : Request) (w : World R L) where
  bearer_accepted :
      token_matches s.admin_token (cut_prefix r.authorization (codes "Bearer ")) ≡ true
      → with_bearer_auth s next r w ≡ next r w
  unfolding with_bearer_auth
  bearer_accepted e = rw e

  bearer_refused :
      token_matches s.admin_token (cut_prefix r.authorization (codes "Bearer ")) ≡ false
      → with_bearer_auth s next r w ≡ (w, respond 401 (error_body (codes "unauthorized")))
  unfolding with_bearer_auth
  bearer_refused e = rw e

module _ {R L : Type 0} (pkg : RatePackage R L) (c : Collation) (s : Server) (now : ℤ) where
  -- The answer of the rate limiter to a request.
  abbrev pub admitted : Request → World R L → Bool
  admitted r w = (RateLimiter.allow pkg now (remote_ip r.remote_addr) w.limiter).1

  -- What every request changes.
  abbrev pub counted : Request → World R L → World R L
  counted r w = record w {
    limiter = (RateLimiter.allow pkg now (remote_ip r.remote_addr) w.limiter).0;
  }

  -- A request that the rate limiter refuses.
  pub serve_limited :
      (route : Route) (r : Request) (w : World R L)
      → admitted r w ≡ false
      → serve pkg c s now route r w ≡ (counted r w, respond 429 null)
  unfolding serve with_rate_limit
  serve_limited route r w h = rw h

  pub serve-admitted :
      (route : Route) (r : Request) (w : World R L)
      → admitted r w ≡ true
      → serve pkg c s now route r w ≡ route_handler c s route r (counted r w)
  unfolding serve with_rate_limit
  serve-admitted route r w h = rw h

  -- An admitted request on an admin route runs its handler exactly if its Authorization header is
  -- "Bearer " and the configured token; any other is answered 401 and changes nothing but the
  -- limiter.
  pub serve_admin :
      (uri : Text) (r : Request) (w : World R L)
      → admitted r w ≡ true
      → ((r.authorization ≡ bearer s)
          × (serve pkg c s now (admin_delete_post uri) r w ≡ handle_delete_post uri (counted r w))
          × (serve pkg c s now (admin_feed_metrics uri) r w
              ≡ handle_get_feed_metrics uri (counted r w)))
        ⊎ ((r.authorization ≢ bearer s)
            × (serve pkg c s now (admin_delete_post uri) r w
                ≡ (counted r w, respond 401 (error_body (codes "unauthorized"))))
            × (serve pkg c s now (admin_feed_metrics uri) r w
                ≡ (counted r w, respond 401 (error_body (codes "unauthorized")))))
  unfolding route_handler
  serve_admin uri r w h =
      elim (Bool-cases
        (token_matches s.admin_token (cut_prefix r.authorization (codes "Bearer ")))) [
          | inl e ↦ inl (
            (token_iff s r.authorization).0 e,
            serve-admitted (admin_delete_post uri) r w h
                ∙ bearer_accepted s (λ r' w'. handle_delete_post uri w') r (counted r w) e,
            serve-admitted (admin_feed_metrics uri) r w h
                ∙ bearer_accepted s (λ r' w'. handle_get_feed_metrics uri w') r (counted r w) e,
          )
          | inr e ↦ inr (
            λ t. let k = (token_iff s r.authorization).1 t in cc,
            serve-admitted (admin_delete_post uri) r w h
                ∙ bearer_refused s (λ r' w'. handle_delete_post uri w') r (counted r w) e,
            serve-admitted (admin_feed_metrics uri) r w h
                ∙ bearer_refused s (λ r' w'. handle_get_feed_metrics uri w') r (counted r w) e,
          )
        ]
