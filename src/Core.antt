-- ===== src/Core.antt =====
-- The crate kemuri-core (crates/kemuri-core/src): the vocabulary of the program, its parsers and
-- its two binary formats.
pub mod Kinds
pub mod Duration
pub mod Percentage
pub mod Ids
pub mod SampleBlob
pub mod Histogram
