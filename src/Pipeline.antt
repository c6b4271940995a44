-- ===== src/Pipeline.antt =====
-- internal/pipeline: the discovery pipeline, which registers an informer for each configured
-- resource, and the event handlers, which publish what the informers see.
pub mod Handlers
pub mod Plan
pub mod Steps
