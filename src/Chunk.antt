-- ===== src/Chunk.antt =====
-- core/src/docrunr/chunk.py: the recursive chunking of Markdown. `Span` has the spans and the
-- tiling that every pass keeps; the other modules are the passes, in the order of the source.
pub mod Span
pub mod Separator
pub mod Windows
pub mod Recursive
pub mod Pack
pub mod Heading
pub mod Section
pub mod Boundary
pub mod Normalize
pub mod Config
pub mod Build
