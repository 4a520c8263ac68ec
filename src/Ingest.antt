-- ===== src/Ingest.antt =====
-- internal/ingest: the retries of a frame's projection, and the check of the events that a decoder returns.
pub mod Retrying
pub mod Events
