-- ===== src/Ingest.antt =====
-- The processing of the commits of the firehose: subscription/subscription.go, with the handlers of
-- publisher/publisher.go and worker/worker.go and the connection of firehose/firehose.go.
pub mod Uri
pub mod Processor
pub mod Kinds
pub mod Calls
pub mod Asked
pub mod Commit
pub mod Handlers
pub mod Stream
pub mod Worker
pub mod Rows
pub mod Tests
