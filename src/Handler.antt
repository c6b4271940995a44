-- ===== src/Handler.antt =====
-- meshsync/: the handler that runs discoveries and reacts to the CRD watch and to requests.
pub mod Discovery
pub mod CrdWatch
pub mod Backoff
pub mod Slices
pub mod Stores
pub mod Sessions
pub mod RunLoop
pub mod Streams
pub mod Factories
pub mod Resync
pub mod ActivePool
pub mod ExecSession
pub mod Requests
pub mod Listening
