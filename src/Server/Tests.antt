-- ===== src/Server/Tests.antt =====
-- The theorems on the HTTP server of server/server.go at concrete inputs.
use baldsky.Common.{
  Text, [], ◌∷◌, none, some, true, false, ℕ, pos, codes, ◌≡◌, refl, ◌≢◌, ◌⊎◌, ◌↔◌, text_eq,
}
use baldsky.Cache
use baldsky.Cache.{find}
use baldsky.RateLimiter.{allow, get_limiter}
use baldsky.RateLimiter.Tests.{counter, rl}
use baldsky.Db.Bytes.{bytes}
use baldsky.Feed.Tests.{service, posts, feed_uri, bald_resolved}
use baldsky.Server.Types.{
  error_body, Request, Server, World, healthz, admin_delete_post, admin_feed_metrics,
}
use baldsky.Server.Handlers.{
  respond, handle_healthz, handle_delete_post, handle_get_feed_metrics, extract_feed_name,
  handle_get_feed_skeleton,
}
use baldsky.Server.Middleware.{serve, remote_ip, cut_last_colon, host_of}
use baldsky.Server.Access.{admitted, counted, bearer, serve_admin}
use baldsky.Server.Limited.{serve_limited_iff}
use baldsky.Server.Answers.{
  HasSource, healthz_iff, extract_feed_name-resolve, CountsView, skeleton-CountsView,
}

abbrev pub server : Server
server = record {
  svc = service;
  firehose = some false;
  workers = true ∷ [];
  admin_token = codes "secret";
  metrics = some 256;
}

abbrev pub world : World ℕ ℕ
world = record { db = posts; ping = true; limiter = rl; views = [] }

abbrev pub from_addr : Text → Request
from_addr addr = record {
  remote_addr = addr;
  authorization = codes "Bearer secret";
  feed = feed_uri;
  limit = codes "2";
  cursor = [];
}

remote_ip_runs :
    (remote_ip (codes "10.0.0.1:4242") ≡ codes "10.0.0.1")
    × (remote_ip (codes "[::1]:80") ≡ codes "::1")
    × (remote_ip (codes "10.0.0.1") ≡ codes "10.0.0.1")
unfolding remote_ip cut_last_colon host_of
remote_ip_runs = (refl, refl, refl)

-- The first address has used its events up, the second has not.
refused : admitted counter bytes server (pos 1000) (from_addr (codes "10.0.0.1:4242")) world ≡ false
unfolding remote_ip cut_last_colon host_of allow get_limiter Cache.get find text_eq
refused = refl

let_in : admitted counter bytes server (pos 1000) (from_addr (codes "10.0.0.2:4242")) world ≡ true
unfolding remote_ip cut_last_colon host_of allow get_limiter Cache.get find text_eq
let_in = refl

serve_limited_iff_example :
    let r = from_addr (codes "10.0.0.1:4242") in
    let after = serve counter bytes server (pos 1000) healthz r world in
    ((after.1.status ≡ 429) ↔ (admitted counter bytes server (pos 1000) r world ≡ false))
    × (after.1.status ≡ 429 → (after.0.db ≡ world.db) × (after.0.views ≡ world.views))
serve_limited_iff_example =
    serve_limited_iff counter bytes server (pos 1000) healthz (from_addr (codes "10.0.0.1:4242"))
      world

-- The first address is refused.
refused_run :
    (serve counter bytes server
      (pos 1000)
      healthz
      (from_addr (codes "10.0.0.1:4242"))
      world).1.status
    ≡ 429
refused_run =
    (serve_limited_iff counter bytes server (pos 1000) healthz (from_addr (codes "10.0.0.1:4242"))
        world).0.1
      refused

serve_admin_example :
    let r = from_addr (codes "10.0.0.2:4242") in
    let w = counted counter bytes server (pos 1000) r world in
    ((r.authorization ≡ bearer server)
      × (serve counter bytes server (pos 1000) (admin_delete_post (codes "a")) r world
          ≡ handle_delete_post (codes "a") w)
      × (serve counter bytes server (pos 1000) (admin_feed_metrics (codes "a")) r world
          ≡ handle_get_feed_metrics (codes "a") w))
    ⊎ ((r.authorization ≢ bearer server)
        × (serve counter bytes server (pos 1000) (admin_delete_post (codes "a")) r world
            ≡ (w, respond 401 (error_body (codes "unauthorized"))))
        × (serve counter bytes server (pos 1000) (admin_feed_metrics (codes "a")) r world
            ≡ (w, respond 401 (error_body (codes "unauthorized")))))
serve_admin_example =
    serve_admin counter bytes server (pos 1000) (codes "a") (from_addr (codes "10.0.0.2:4242"))
      world let_in

healthz_iff_example :
    ((handle_healthz server true).status ≡ 200)
    ↔ ((true ≡ true) × (((some false ≡ none) × (true ∷ [] ≡ [])) ⊎ HasSource server))
healthz_iff_example = healthz_iff server true

extract_feed_name-resolve_example : extract_feed_name feed_uri ≡ codes "bald"
extract_feed_name-resolve_example =
    extract_feed_name-resolve server feed_uri (codes "bald") bald_resolved

skeleton-CountsView_example :
    CountsView server 256
      (from_addr (codes "10.0.0.2:4242"))
      world
      (handle_get_feed_skeleton bytes server (from_addr (codes "10.0.0.2:4242")) world)
skeleton-CountsView_example =
    skeleton-CountsView bytes server 256 (from_addr (codes "10.0.0.2:4242")) world refl
