-- ===== src/Feed.antt =====
-- The feed service of feed/feed.go over the database: `Service` has its state and constructor,
-- `Cursor` the page cursors, `Skeleton` the page of a feed, `Store` the calls of the pipelines and
-- of the firehose, `Metrics` and `Views` the counting of views, and `Publish` the records on the
-- publisher's PDS; `Entries`, `Pages`, `Walk`, `Resolve`, `Stored` and `Lookup` hold proofs.
pub mod Service
pub mod Cursor
pub mod Entries
pub mod Skeleton
pub mod Pages
pub mod Walk
pub mod Resolve
pub mod Store
pub mod Stored
pub mod Lookup
pub mod Metrics
pub mod Views
pub mod Publish
pub mod Tests
