-- ===== src/Pipeline.antt =====
-- The keyword pipelines of subscription/subscription.go: `Regexp` has the regular expressions that
-- `NewPipeline` builds, `Build` has `NewPipeline`, `Match` has `matches`, `MatchesPost` and
-- `shouldInsert`. The children `Words`, `Rule` and `Admission` prove what they decide.
pub mod Regexp
pub mod Build
pub mod Match
pub mod Words
pub mod Rule
pub mod Admission
pub mod Tests
