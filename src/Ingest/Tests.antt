-- ===== src/Ingest/Tests.antt =====
-- Runs of the processing of commit events, and the theorems at concrete inputs.
use baldsky.Common.{
  Text, List, [], ◌∷◌, none, some, true, false, ℤ, pos, codes, ◌≡◌, refl, ◌≢◌, ◌⊎◌, ok,
}
use baldsky.Pipeline.Tests.{ascii, bald, post}
use baldsky.Common.Utf8.{to_bytes, escape}
use baldsky.Ingest.Uri.{build_uri}
use baldsky.Ingest.Processor.{Commit, feed_post, CarReader, process_event}
use baldsky.Ingest.Calls.{calls_of, make_calls, process_event-make_calls}
use baldsky.Ingest.Commit.{CursorStore, ProcessorOf, NatsConn, returned, publish_commit}
use baldsky.Ingest.Worker.{message, run_worker, handle_commits, run_worker-handle_commits}
use baldsky.Ingest.Handlers.{Delivered, publish_commit-Delivered}

abbrev pub evt : Commit
evt = record {
  repo = codes "did:plc:me";
  seq = pos 42;
  too_big = false;
  blocks = [];
  ops =
      record { action = codes "create"; path = codes "app.bsky.feed.post/3k"; cid = codes "bafy" }
      ∷ record { action = codes "create"; path = codes "app.bsky.feed.like/3k"; cid = codes "bafz" }
      ∷ record { action = codes "delete"; path = codes "app.bsky.feed.post/2j"; cid = [] }
      ∷ [];
}

abbrev pub all_posts : CarReader
all_posts = λ blocks. some (λ path. feed_post post)

build_uri_run :
    build_uri (codes "did:plc:me") (codes "app.bsky.feed.post/3k")
    ≡ codes "at://did:plc:me/app.bsky.feed.post/3k"
unfolding build_uri to_bytes escape
build_uri_run = refl

process_event-make_calls_example :
    process_event ascii all_posts (bald ∷ []) (some evt) 0
    ≡ (make_calls (calls_of ascii all_posts (bald ∷ []) (some evt)) 0, none)
process_event-make_calls_example = process_event-make_calls ascii all_posts (bald ∷ []) (some evt) 0

-- A cursor store of one number, and a connection that lists the messages published.
abbrev one_cursor : CursorStore ℤ
one_cursor = record {
  get_cursor = λ service st. (ok st, st);
  upsert_cursor = λ service cursor st. (cursor, none);
}

abbrev pub conn : NatsConn (List Text)
conn = record { publish = λ subject message n. (message ∷ n, none); flush_timeout = λ n. (n, none) }

publish_commit-Delivered_example :
    ((pos 42 ≡ pos 7) × (returned none ≢ returned none))
    ⊎ ((pos 42 ≡ pos 42)
        × ((false ≡ true) × (codes "m" ∷ [] ≡ [])
            ⊎ Delivered conn one_cursor
                (λ e. some (codes "m"))
                (codes "wss")
                (codes "posts")
                evt
                []
                (codes "m" ∷ [])))
publish_commit-Delivered_example =
    publish_commit-Delivered conn one_cursor (λ e. some (codes "m")) (codes "wss") (codes "posts")
      evt (pos 7) (pos 42) [] (codes "m" ∷ []) (returned none) (unfold publish_commit in refl)

abbrev accept : ProcessorOf ℤ
accept = λ e st. (st, none)

-- A worker that gets the message of the event twice.
run_worker-handle_commits_example :
    run_worker
      (λ m. some evt)
      accept
      (some one_cursor)
      (codes "wss")
      none
      (message (codes "m") ∷ message (codes "m") ∷ [])
      (pos 7)
    ≡ record {
      stores =
          handle_commits
            (λ m. some evt)
            accept
            (some one_cursor)
            (codes "wss")
            (evt ∷ evt ∷ [])
            (pos 7);
      connected = true;
    }
run_worker-handle_commits_example =
    run_worker-handle_commits (λ m. some evt) accept (some one_cursor) (codes "wss")
      (λ e. codes "m") (evt ∷ evt ∷ []) (pos 7) (refl, (refl, tt))
