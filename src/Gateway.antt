-- ===== src/Gateway.antt =====
-- The package gateway.
pub mod Frames
pub mod Trailers
pub mod GrpcWeb
pub mod Routes
