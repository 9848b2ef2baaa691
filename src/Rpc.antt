-- ===== src/Rpc.antt =====
-- The package rpc.
pub mod Codes
pub mod Errors
pub mod Retry
pub mod Interceptor
pub mod Throttle
pub mod RetryLoop
pub mod JsonRpc
pub mod Protocol
pub mod Unary
pub mod Compression
pub mod Context
pub mod Input
pub mod Standard
pub mod Stream
pub mod Interceptors
