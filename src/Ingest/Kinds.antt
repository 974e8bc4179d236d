-- ===== src/Ingest/Kinds.antt =====
-- The cases of an operation in the loop of `ProcessEvent` of subscription/subscription.go.
use baldsky.Common.{true, false, codes, has_prefix, text_eq, ◌≡◌, Bool-cases, inl, inr}
use baldsky.Ingest.Processor.{RepoOp}

pub data Kind (op : RepoOp) : Type 0 where
  other_record : has_prefix op.path (codes "app.bsky.feed.post/") ≡ false → Kind op
  deletes :
      has_prefix op.path (codes "app.bsky.feed.post/") ≡ true
      → text_eq op.action (codes "delete") ≡ true
      → Kind op
  creates :
      has_prefix op.path (codes "app.bsky.feed.post/") ≡ true
      → text_eq op.action (codes "delete") ≡ false
      → text_eq op.action (codes "create") ≡ true
      → Kind op
  updates :
      has_prefix op.path (codes "app.bsky.feed.post/") ≡ true
      → text_eq op.action (codes "delete") ≡ false
      → text_eq op.action (codes "create") ≡ false
      → Kind op

pub Kind-cases : (op : RepoOp) → Kind op
Kind-cases op = elim (Bool-cases (has_prefix op.path (codes "app.bsky.feed.post/"))) [
  | inr e ↦ other_record e
  | inl e ↦ elim (Bool-cases (text_eq op.action (codes "delete"))) [
    | inl f ↦ deletes e f
    | inr f ↦ elim (Bool-cases (text_eq op.action (codes "create"))) [
      | inl g ↦ creates e f g
      | inr g ↦ updates e f g
    ]
  ]
]
