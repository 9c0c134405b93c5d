-- ===== src/MoeTrace.antt =====
-- The file format of recorded expert routes: pkg/moetrace. A file is the list of its bytes.
mod Tests
pub mod Words
pub mod Header
pub mod Length
pub mod Accumulator
pub mod Slices
pub mod Writer
pub mod Reader
pub mod Open
pub mod Source
