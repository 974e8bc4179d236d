-- ===== src/Db.antt =====
-- The database: the tables of db/schema/migrations and the queries of db/schema/queries/feed.sql,
-- through the generated functions of db/gen. `Keys` and `Page` prove what a page of posts holds.
pub mod Tables
pub mod Queries
pub mod Keys
pub mod Page
pub mod Bytes
pub mod Connect
