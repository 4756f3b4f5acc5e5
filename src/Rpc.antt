-- ===== src/Rpc.antt =====
-- ytlib/ytrpc/rpc_util: the buffers and the filters of the RPC ends.
pub mod BufferVec
pub mod FilterMgr
