-- ===== src/Serve/Roles/Wanted.antt =====
-- The roles that a configuration asks `serve` of cmd/serve.go for.
use baldsky.Common.{
  List, [], ◌∷◌, ◌++◌, Option, none, some, not, ◌&&◌, ◌||◌, Result, ok, err, Error, ℕ, zero, suc,
  ◌+◌, pos_part, is_empty, if◌then◌else◌, ◌≡◌, refl, ◌∙◌, ap, sym, append_assoc, append-nil,
  Bool-cases, inl, inr,
}
use baldsky.Config.{Config}
use baldsky.Pipeline.Build.{Runtime, BuildError, PipelineStore}
use baldsky.Serve.{build_pipelines}
use baldsky.Serve.Roles.{
  Role, metrics, publisher, worker, subscription, server, ServeError, Outside, Trace, unless_failed,
  publisher_name, worker_name, started_or, start_publisher, worker_loop, with_pipelines,
  start_workers, standalone, start_subscription, worker_count, start_server, start_roles,
  with_database, serve, worker_error, publisher_error,
}

-- What was started is a part of what is wanted, from the front, and all of it if there is no error.
abbrev pub StartsOf : List Role → Trace → Type 0
StartsOf wanted (roles, e) = (rest : List Role) × (wanted ≡ roles ++ rest) × (e ≡ none → rest ≡ [])

-- A stage starts what is wanted of it, behind the roles started before.
abbrev Stage : (List Role → Trace) → List Role → Type 0
Stage f wanted = (roles : List Role) → StartsOf (roles ++ wanted) (f roles)

of_failed :
    (roles wanted more : List Role) (t : Trace) (g : List Role → Trace)
    → StartsOf (roles ++ wanted) t
    → Stage g more
    → StartsOf (roles ++ (wanted ++ more)) (unless_failed t g)
of_failed roles wanted more (r, some e) g (rest, h, k) next = (
  rest ++ more,
  sym (append_assoc roles wanted more) ∙ ap (λ l. l ++ more) h ∙ append_assoc r rest more,
  λ q. cc,
)
of_failed roles wanted more (r, none) g (rest, h, k) next =
    let all : roles ++ wanted ≡ r = h ∙ ap (λ l. r ++ l) (k refl) ∙ append-nil r in
    let (later, h', k') = next r in
    (later, sym (append_assoc roles wanted more) ∙ ap (λ l. l ++ more) all ∙ h', k')

two_stages :
    (f g : List Role → Trace) (wanted more : List Role)
    → Stage f wanted
    → Stage g more
    → Stage (λ roles. unless_failed (f roles) g) (wanted ++ more)
two_stages f g wanted more s t roles = of_failed roles wanted more (f roles) g (s roles) t

-- Nothing is wanted, and nothing is started.
nothing_started : (roles : List Role) → StartsOf (roles ++ []) (roles, none)
nothing_started roles = ([], refl, λ q. refl)

one_started :
    (roles : List Role) (role : Role) → StartsOf (roles ++ role ∷ []) (roles ++ role ∷ [], none)
one_started roles role = ([], sym (append-nil (roles ++ role ∷ [])), λ q. refl)

module _ {R S : Type 0} (rt : Runtime) (store : PipelineStore S) (cfg : Config R)
    (out : Outside) where
  abbrev pub wanted_publisher : List Role
  wanted_publisher =
      if cfg.publisher.enabled then publisher (publisher_name rt store cfg out) ∷ [] else []

  abbrev pub workers_from : ℕ → ℕ → List Role
  workers_from zero i = []
  workers_from (suc left) i = worker (worker_name rt store cfg out i) ∷ workers_from left (i + 1)

  abbrev pub wanted_workers : List Role
  wanted_workers = if cfg.worker.enabled then workers_from (pos_part cfg.worker.count) 0 else []

  abbrev pub wanted_subscription : List Role
  wanted_subscription =
      if cfg.subscription.enabled && (not cfg.publisher.enabled && not cfg.worker.enabled)
      then subscription ∷ []
      else []

  -- The server checks the firehose of the subscription or the publisher, and the workers.
  abbrev pub wanted_server : List Role
  wanted_server =
      if not cfg.server.enabled
      then []
      else server (standalone rt store cfg out || cfg.publisher.enabled)
          (worker_count rt store cfg out)
        ∷ []

  abbrev pub wanted_roles : List Role
  wanted_roles =
      metrics ∷ (((wanted_publisher ++ wanted_workers) ++ wanted_subscription) ++ wanted_server)

  started_or_lem :
      (wrap : Error → ServeError) (e : Option Error) (role : Role) (roles : List Role)
      → StartsOf (roles ++ role ∷ []) (started_or rt store cfg out wrap e role roles)
  started_or_lem wrap (some e) role roles = (role ∷ [], refl, λ q. cc)
  started_or_lem wrap none role roles = one_started roles role

  publisher-Stage : Stage (start_publisher rt store cfg out) wanted_publisher
  unfolding start_publisher
  publisher-Stage roles = elim (Bool-cases cfg.publisher.enabled) [
    | inl e ↦ simp e (
        started_or_lem publisher_error (out.connect_nats (publisher_name rt store cfg out))
          (publisher (publisher_name rt store cfg out)) roles)
    | inr e ↦ simp e (nothing_started roles)
  ]

  worker-Stage : (left i : ℕ) → Stage (worker_loop rt store cfg out left i) (workers_from left i)
  unfolding worker_loop
  worker-Stage zero i roles = nothing_started roles
  worker-Stage (suc left) i roles =
      of_failed roles (worker (worker_name rt store cfg out i) ∷ []) (workers_from left (i + 1))
        (started_or rt store cfg out (worker_error (worker_name rt store cfg out i))
          (out.connect_nats (worker_name rt store cfg out i))
          (worker (worker_name rt store cfg out i)) roles)
        (λ roles'. worker_loop rt store cfg out left (i + 1) roles')
        (started_or_lem _ (out.connect_nats (worker_name rt store cfg out i))
          (worker (worker_name rt store cfg out i)) roles)
        (worker-Stage left (i + 1))

  pipelines-Stage :
      {A : Type 0} (o : Result BuildError A) (f : List Role → Trace) (wanted : List Role)
      → Stage f wanted
      → Stage (λ roles. with_pipelines rt store cfg out o roles f) wanted
  pipelines-Stage (err e) f wanted s roles = (wanted, refl, λ q. cc)
  pipelines-Stage (ok p) f wanted s roles = s roles

  workers-Stage : Stage (start_workers rt store cfg out) wanted_workers
  unfolding start_workers
  workers-Stage roles = elim (Bool-cases cfg.worker.enabled) [
    | inl e ↦ simp e (
        pipelines-Stage (build_pipelines rt store cfg.pipelines) _ _
          (worker-Stage (pos_part cfg.worker.count) 0) roles)
    | inr e ↦ simp e (nothing_started roles)
  ]

  subscription-Stage : Stage (start_subscription rt store cfg out) wanted_subscription
  unfolding start_subscription
  subscription-Stage roles = elim (Bool-cases (standalone rt store cfg out)) [
    | inl e ↦ rw e (
        pipelines-Stage (build_pipelines rt store cfg.pipelines)
          (λ roles'. (roles' ++ subscription ∷ [], none)) (subscription ∷ [])
          (λ roles'. one_started roles' subscription) roles)
    | inr e ↦ rw e (nothing_started roles)
  ]

  server-Stage : Stage (start_server rt store cfg out) wanted_server
  unfolding start_server
  server-Stage roles = elim (Bool-cases cfg.server.enabled) [
    | inl e ↦ simp e (one_started roles _)
    | inr e ↦ simp e (nothing_started roles)
  ]

  start_roles_lem : StartsOf wanted_roles (start_roles rt store cfg out)
  unfolding start_roles
  start_roles_lem = elim (Bool-cases (is_empty cfg.server.user_agent)) [
    | inl e ↦ simp e (wanted_roles, refl, λ q. cc)
    | inr e ↦ simp e (
        two_stages _ _ _ _
          (two_stages _ _ _ _ (two_stages _ _ _ _ publisher-Stage workers-Stage) subscription-Stage)
          server-Stage (metrics ∷ []))
  ]

  database_lem : (e m : Option Error) → StartsOf wanted_roles (with_database rt store cfg out e m)
  database_lem (some e) m = (wanted_roles, refl, λ q. cc)
  database_lem none (some m) = (wanted_roles, refl, λ q. cc)
  database_lem none none = start_roles_lem

  -- Whatever the database and NATS answer, `serve` starts roles that the configuration asks for, in
  -- their order and without a gap: the counting of views, the publisher, the workers, the standalone
  -- subscription if there is neither of these, and the server with what it checks; and it starts all
  -- of them if it returns no error.
  pub serve_lem : StartsOf wanted_roles (serve rt store cfg out)
  unfolding serve
  serve_lem =
      elim (Bool-cases (
        not cfg.server.enabled
        && (not cfg.subscription.enabled
            && (not cfg.publisher.enabled && not cfg.worker.enabled)))) [
              | inl e ↦ rw e (wanted_roles, refl, λ q. cc)
              | inr e ↦
                  elim (Bool-cases
                    ((cfg.publisher.enabled || cfg.worker.enabled) && is_empty cfg.nats.url)) [
                      | inl f ↦ rw (e, f) (wanted_roles, refl, λ q. cc)
                      | inr f ↦ rw (e, f) (database_lem out.connect_database out.migrate)
                    ]
            ]
