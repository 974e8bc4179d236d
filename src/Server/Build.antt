-- ===== src/Server/Build.antt =====
-- `New` and the options of server/server.go, and the options that `serve` of cmd/serve.go passes.
use baldsky.Common.{
  Text, List, [], ◌∷◌, ◌++◌, Option, none, some, Bool, ℕ, ◌≡◌, refl, ◌∙◌, ap, map, append_assoc,
  sym, append-nil,
}
use baldsky.Feed.Service.{Service}
use baldsky.Server.Types.{Server}

-- What `WithFirehose`, `WithWorker` and `WithMetrics` are given: whether the checker is connected,
-- and the capacity of the channel.
pub data ServerOption : Type 0 where
  with_firehose : Bool → ServerOption
  with_worker : Bool → ServerOption
  with_metrics : ℕ → ServerOption

abbrev pub apply_option : ServerOption → Server → Server
apply_option (with_firehose connected) s = record s { firehose = some connected }
apply_option (with_worker connected) s = record s { workers = s.workers ++ connected ∷ [] }
apply_option (with_metrics capacity) s = record s { metrics = some capacity }

unfoldable pub apply_options : List ServerOption → Server → Server
apply_options [] s = s
apply_options (option ∷ options) s = apply_options options (apply_option option s)

-- `New`.
unfoldable pub new_server : Service → Text → List ServerOption → Server
unfolding apply_options
new_server svc admin_token options =
    apply_options options (record {
      svc = svc;
      firehose = none;
      workers = [];
      admin_token = admin_token;
      metrics = none;
    })

abbrev pub firehose_option : Option Bool → List ServerOption
firehose_option none = []
firehose_option (some connected) = with_firehose connected ∷ []

-- The options of `serve`: those of the subscription and of the publisher, where there is one, those
-- of the workers, and the metrics service with its channel of 1000 events.
abbrev pub serve_options : Option Bool → Option Bool → List Bool → List ServerOption
serve_options sub publisher workers =
    firehose_option sub
    ++ (firehose_option publisher ++ (map with_worker workers ++ with_metrics 1000 ∷ []))

abbrev pub or_else : Option Bool → Option Bool → Option Bool
or_else none second = second
or_else (some b) second = some b

apply_options-append :
    (xs ys : List ServerOption) (s : Server)
    → apply_options (xs ++ ys) s ≡ apply_options ys (apply_options xs s)
unfolding apply_options
apply_options-append [] ys s = refl
apply_options-append (x ∷ xs) ys s = apply_options-append xs ys (apply_option x s)

workers_lem :
    (workers : List Bool) (rest : List ServerOption) (s : Server)
    → apply_options (map with_worker workers ++ rest) s
      ≡ apply_options rest (record s { workers = s.workers ++ workers })
unfolding apply_options
workers_lem [] rest s =
    ap (λ l. apply_options rest (record s { workers = l })) (sym (append-nil s.workers))
workers_lem (w ∷ workers) rest s =
    workers_lem workers rest (record s { workers = s.workers ++ w ∷ [] })
    ∙ ap (λ l. apply_options rest (record s { workers = l }))
        (append_assoc s.workers (w ∷ []) workers)

-- The server of `serve` checks the publisher, or else the subscription, and all the workers, in
-- their order.
pub new_server-serve_options :
    (svc : Service) (admin_token : Text) (sub publisher : Option Bool) (workers : List Bool)
    → new_server svc admin_token (serve_options sub publisher workers) ≡ record {
      svc = svc;
      firehose = or_else publisher sub;
      workers = workers;
      admin_token = admin_token;
      metrics = some 1000;
    }
unfolding new_server apply_options
new_server-serve_options svc token none none workers = workers_lem workers _ _
new_server-serve_options svc token none (some p) workers = workers_lem workers _ _
new_server-serve_options svc token (some f) none workers = workers_lem workers _ _
new_server-serve_options svc token (some f) (some p) workers = workers_lem workers _ _
