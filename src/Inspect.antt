-- ===== src/Inspect.antt =====
-- pkg/inspect: untyped values, read and written by paths, and merged.
pub mod Value
pub mod Fields
pub mod Getter
pub mod Setter
pub mod Merge
pub mod Json
pub mod Missing
pub mod Source
pub mod Strings
