-- ===== src/Tests.antt =====
-- The theorems at concrete inputs.
pub mod Retry
pub mod JsonRpc
pub mod Protocol
pub mod GrpcWeb
pub mod Cache
pub mod Stream
pub mod Standard
pub mod Features
pub mod Interceptors
pub mod Routes
pub mod Reflect
pub mod Schema
