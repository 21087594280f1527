-- ===== src/Broker.antt =====
-- sidecar/autoskill/services/broker.py: the broker that answers a request with a hint of skills.
pub mod Types
pub mod Select
pub mod Policies
pub mod Selection
pub mod Retrieved
pub mod Cache
pub mod Hint
pub mod Serve
pub mod Rendering
pub mod Serving
pub mod Memories
pub mod Caching
mod Tests
