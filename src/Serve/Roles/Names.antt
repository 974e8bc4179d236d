-- ===== src/Serve/Roles/Names.antt =====
-- The names under which the roles that `serve` of cmd/serve.go starts connect to NATS.
use baldsky.Common.{
  Text, List, [], ◌∷◌, ◌++◌, ℕ, zero, suc, ◌+◌, ◌<◌, not, pos_part, is_empty, codes, ◌≡◌, ◌≢◌, refl,
  sym, ap, ◌∙◌, arith, All, Bool-cases, inl, inr, append-nil, subst, ◌&&◌,
}
use baldsky.Common.Decimal.{show}
use baldsky.Common.Shown.{show-injective}
use baldsky.Config.{Config}
use baldsky.Pipeline.Build.{Runtime, PipelineStore}
use baldsky.Serve.Roles.{
  Role, metrics, publisher, worker, subscription, server, Outside, publisher_name, worker_name,
  serve,
}
use baldsky.Serve.Roles.Wanted.{
  wanted_publisher, workers_from, wanted_workers, wanted_subscription, wanted_server, wanted_roles,
  serve_lem,
}

-- The names of the connections.
abbrev pub names : List Role → List Text
names [] = []
names (publisher name ∷ roles) = name ∷ names roles
names (worker name ∷ roles) = name ∷ names roles
names (_ ∷ roles) = names roles

abbrev pub DistinctNames : List Text → Type 0
DistinctNames [] = Unit
DistinctNames (x ∷ xs) = All (λ y. x ≢ y) xs × DistinctNames xs

names-append : (xs ys : List Role) → names (xs ++ ys) ≡ names xs ++ names ys
names-append [] ys = refl
names-append (metrics ∷ xs) ys = names-append xs ys
names-append (publisher name ∷ xs) ys = ap (λ l. name ∷ l) (names-append xs ys)
names-append (worker name ∷ xs) ys = ap (λ l. name ∷ l) (names-append xs ys)
names-append (subscription ∷ xs) ys = names-append xs ys
names-append (server b n ∷ xs) ys = names-append xs ys

All-front : (P : Text → Type 0) (xs ys : List Text) → All P (xs ++ ys) → All P xs
All-front P [] ys h = tt
All-front P (x ∷ xs) ys h = (h.0, All-front P xs ys h.1)

front-DistinctNames : (xs ys : List Text) → DistinctNames (xs ++ ys) → DistinctNames xs
front-DistinctNames [] ys h = tt
front-DistinctNames (x ∷ xs) ys h = (All-front _ xs ys h.0, front-DistinctNames xs ys h.1)

cancel_prefix : (p x y : Text) → p ++ x ≡ p ++ y → x ≡ y
cancel_prefix [] x y h = h
cancel_prefix (c ∷ p) x y h = cancel_prefix p x y cc

abbrev first_rune : Text → ℕ
first_rune [] = 0
first_rune (c ∷ s) = c

other_role : (t : Text) → codes "publisher" ≢ codes "worker-" ++ t
other_role t e = let k : 112 ≡ 119 = ap first_rune e in omega (arith, k)

module _ {R S : Type 0} (rt : Runtime) (store : PipelineStore S) (cfg : Config R)
    (out : Outside) where
  worker_name-injective :
      (i j : ℕ) → worker_name rt store cfg out i ≡ worker_name rt store cfg out j → i ≡ j
  worker_name-injective i j h = elim (Bool-cases (is_empty cfg.nats.name_prefix)) [
    | inl e ↦ show-injective i j (cancel_prefix (codes "worker-") _ _ (rw e at h))
    | inr e ↦
        show-injective i j (
          cancel_prefix (codes "-worker-") _ _ (cancel_prefix cfg.nats.name_prefix _ _ (rw e at h)))
  ]

  publisher_ne_worker : (i : ℕ) → publisher_name rt store cfg out ≢ worker_name rt store cfg out i
  publisher_ne_worker i h = elim (Bool-cases (is_empty cfg.nats.name_prefix)) [
    | inl e ↦ other_role (show i) (rw e at h)
    | inr e ↦
        other_role (show i)
          (cancel_prefix (codes "-") _ _ (cancel_prefix cfg.nats.name_prefix _ _ (rw e at h)))
  ]

  later_workers :
      (left i j : ℕ)
      → i < j
      → All (λ y. worker_name rt store cfg out i ≢ y) (names (workers_from rt store cfg out left j))
  later_workers zero i j h = tt
  later_workers (suc left) i j h = (
    λ e. let same = worker_name-injective i j e in omega arith,
    later_workers left i (j + 1) (omega arith),
  )

  workers-DistinctNames :
      (left i : ℕ) → DistinctNames (names (workers_from rt store cfg out left i))
  workers-DistinctNames zero i = tt
  workers-DistinctNames (suc left) i =
      (later_workers left i (i + 1) (omega arith), workers-DistinctNames left (i + 1))

  not_publisher :
      (left i : ℕ)
      → All
          (λ y. publisher_name rt store cfg out ≢ y)
          (names (workers_from rt store cfg out left i))
  not_publisher zero i = tt
  not_publisher (suc left) i = (publisher_ne_worker i, not_publisher left (i + 1))

  wanted-DistinctNames :
      DistinctNames (names (wanted_publisher rt store cfg out ++ wanted_workers rt store cfg out))
  wanted-DistinctNames = elim (Bool-cases cfg.publisher.enabled) [
    | inl e ↦ elim (Bool-cases cfg.worker.enabled) [
      | inl f ↦
          rw (e, f)
            (
              not_publisher (pos_part cfg.worker.count) 0,
              workers-DistinctNames (pos_part cfg.worker.count) 0,
            )
      | inr f ↦ rw (e, f) (tt, tt)
    ]
    | inr e ↦ elim (Bool-cases cfg.worker.enabled) [
      | inl f ↦ rw (e, f) (workers-DistinctNames (pos_part cfg.worker.count) 0)
      | inr f ↦ rw (e, f) tt
    ]
  ]

  no_names_subscription : names (wanted_subscription rt store cfg out) ≡ []
  no_names_subscription =
      elim (Bool-cases
        (cfg.subscription.enabled && (not cfg.publisher.enabled && not cfg.worker.enabled))) [
          | inl e ↦ rw e refl
          | inr e ↦ rw e refl
        ]

  no_names_server : names (wanted_server rt store cfg out) ≡ []
  no_names_server = elim (Bool-cases cfg.server.enabled) [ inl e ↦ rw e refl | inr e ↦ rw e refl ]

  -- The names of the wanted roles are those of the publisher and the workers.
  wanted_names :
      names (wanted_roles rt store cfg out)
      ≡ names (wanted_publisher rt store cfg out ++ wanted_workers rt store cfg out)
  wanted_names =
      let first = wanted_publisher rt store cfg out ++ wanted_workers rt store cfg out in
      names-append (first ++ wanted_subscription rt store cfg out) (wanted_server rt store cfg out)
      ∙ ap (λ l. names (first ++ wanted_subscription rt store cfg out) ++ l) no_names_server
      ∙ append-nil _
      ∙ names-append first (wanted_subscription rt store cfg out)
      ∙ ap (λ l. names first ++ l) no_names_subscription
      ∙ append-nil _

  -- Whatever the database and NATS answer, the publisher and the workers that `serve` starts connect
  -- to NATS under names that differ from each other.
  pub serve-DistinctNames : DistinctNames (names (serve rt store cfg out).0)
  serve-DistinctNames =
      let (rest, wanted, all) = serve_lem rt store cfg out in
      front-DistinctNames (names (serve rt store cfg out).0) (names rest) (
        subst DistinctNames
          (sym wanted_names ∙ ap names wanted ∙ names-append (serve rt store cfg out).0 rest)
          wanted-DistinctNames)
