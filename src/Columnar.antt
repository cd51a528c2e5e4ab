-- ===== src/Columnar.antt =====
-- The columnar encoder, `src/columnar_encoder.rs`, with what it uses of
-- `src/tuned_pattern_learner.rs`. A string is the list of its UTF-8 bytes: the code looks for ASCII
-- characters only, and no byte of another character is one.
pub mod Skeleton
pub mod Foreign
pub mod Timestamps
pub mod LogLevel
pub mod Uuid
pub mod Text
pub mod Payload
pub mod Matches
pub mod Encoder
pub mod Runs
