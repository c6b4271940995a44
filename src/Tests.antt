-- ===== src/Tests.antt =====
-- Runs of the definitions, and the theorems applied to concrete inputs.
pub mod Fixtures
mod OutputTests
mod ModelTests
mod PipelineTests
mod ConfigTests
mod HandlerTests
mod LoopTests
mod StartupTests
mod RunTests
mod StreamTests
mod StoreTests
