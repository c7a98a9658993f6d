-- ===== src/Rpc.antt =====
-- pkg/rpc/encoder.go: the RPC requests, the topics, and the handlers.
pub mod Requests
pub mod Topic
pub mod Encoder
pub mod Tests
