-- ===== src/Clean.antt =====
-- core/src/docrunr/clean.py: the split of a text into code blocks, which are kept, and the rest.
pub mod Fence
