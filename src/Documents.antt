-- ===== src/Documents.antt =====
-- `modules/documents`: the text of an uploaded document, cut into chunks.
pub mod Chunking
mod Tests
