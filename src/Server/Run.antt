-- ===== src/Server/Run.antt =====
-- `Run` of server/server.go: the requests that are handled, the goroutine of `StartCleanup`, and the
-- `select` at its end. Requests are handled one at a time, each as a whole.
pub mod Guarded
pub mod Leaves
pub mod Spared
mod Tests
use baldsky.Common.{
  Text, List, [], ◌∷◌, ◌++◌, Option, none, some, Bool, true, false, if◌then◌else◌, ℤ, Error,
  text_eq, ◌≡◌,
}
use baldsky.Db.Tables.{Collation, Database}
use baldsky.RateLimiter.{RatePackage, sweep_at}
use baldsky.Server.Types.{Request, Route, admin_delete_post, Server, World}
use baldsky.Server.Middleware.{serve}
use baldsky.Server.Access.{bearer}

-- How `Run` returns: listening failed, or the context was done and `Shutdown` answered.
pub data Exit : Type 0 where
  listen_failed : Error → Exit
  shut_down : Option Error → Exit

-- `cleaning` tells whether the goroutine of the limiter's cleanup runs. `asked` is a history, which no
-- step reads: the URIs whose deletion was asked for with the token.
pub record Running (R L : Type 0) : Type 0 where
  pub world : World R L
  pub cancelled : Bool
  pub cleaning : Bool
  pub returned : Option Exit
  pub asked : List Text

-- `Run` is called.
abbrev pub started : {R L : Type 0} → World R L → Running R L
started w = record { world = w; cancelled = false; cleaning = true; returned = none; asked = [] }

abbrev pub asked_by : Server → Route → Request → List Text
asked_by s (admin_delete_post uri) r = if text_eq r.authorization (bearer s) then uri ∷ [] else []
asked_by s _ r = []

module _ {R L : Type 0} (pkg : RatePackage R L) (c : Collation) (s : Server) where
  unfoldable pub handle : ℤ → Route → Request → Running R L → Running R L
  handle now route r st = record st {
    world = (serve pkg c s now route r st.world).0;
    asked = asked_by s route r ++ st.asked;
  }

  pub data Step : Running R L → Running R L → Type 0 where
    -- a handler may outlive `Run`, when `Shutdown` gives up
    request :
        (st : Running R L) (now : ℤ) (route : Route) (r : Request) → Step st (handle now route r st)
    -- `withCleanup` made a ticker of a minute
    tick :
        (st : Running R L) (now : ℤ)
        → st.cleaning ≡ true
        → Step st
            (record st { world = record (st.world) { limiter = sweep_at now (st.world).limiter } })
    stop_cleaning :
        (st : Running R L) → st.cancelled ≡ true → Step st (record st { cleaning = false })
    cancel : (st : Running R L) → Step st (record st { cancelled = true })
    fail_to_listen :
        (st : Running R L) (e : Error)
        → st.returned ≡ none
        → Step st (record st { returned = some (listen_failed e) })
    shutdown :
        (st : Running R L) (e : Option Error)
        → st.cancelled ≡ true
        → st.returned ≡ none
        → Step st (record st { returned = some (shut_down e) })
    -- `Run` of the metrics service receives a view
    take_view :
        (st : Running R L) (view : Text) (views : List Text)
        → (st.world).views ≡ view ∷ views
        → Step st (record st { world = record (st.world) { views = views } })
    -- others use the database, and leave the posts alone
    elsewhere :
        (st : Running R L) (db : Database) (ping : Bool)
        → db.post ≡ (st.world).db.post
        → Step st (record st { world = record (st.world) { db = db; ping = ping } })

  pub data Reach (first : World R L) : Running R L → Type 0 where
    here : Reach first (started first)
    later : {t u : Running R L} → Reach first t → Step t u → Reach first u
