-- ===== src/Ipc.antt =====
-- internal/ipc: the JSON-RPC codec.
pub mod Jsonrpc
pub mod Frames
