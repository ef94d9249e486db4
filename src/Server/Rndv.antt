-- ===== src/Server/Rndv.antt =====
-- OckRpcRndvReceiveHandler of src/hcom4db.cpp, which libhcom.so calls with a rendezvous message.
-- The library's message has at most NET_SGE_MAX_IOV = 4 parts, the room of OckRpcRndvMessage.
pub mod Delivered
use hcom4db.Base.{ℕ, ℤ, pos, List, Option, none, some, map, to_i16}
use hcom4db.Base.Maps.{lookup, int_eq}
use hcom4db.Hcom.Types.{Message, RpcMessage, ock_rpc_ok, ock_rpc_err}
use hcom4db.Hcom.Context.{
  service_get_rndv_ctx_type, service_get_rndv_message, service_get_rndv_op_info,
}
use hcom4db.Hcom.World.{
  M, World, Mutex, LockOp, mutex, handle_rndv, pure, ◌>>=◌, ◌>>◌, gets, emit, unless_ok, or_return,
}

abbrev pub part_of : Message → RpcMessage
part_of m = record { data_ptr = m.data_ptr; len = m.size }

-- The handler runs between lock_shared and unlock.
unfoldable pub dispatch_rndv : ℕ → ℕ → List RpcMessage → M ℤ
dispatch_rndv op_code ctx msg = do
  emit (mutex Mutex.service_add_rndv_mutex LockOp.lock_shared)
  handlers ← gets (λ w. w.rndv_handle_map)
  or_return (lookup (to_i16 (pos op_code)) handlers) tt
      (λ handler. emit (handle_rndv handler ctx msg))
  emit (mutex Mutex.service_add_rndv_mutex LockOp.unlock)
  pure ock_rpc_ok

unfoldable pub rndv_receive_handler : ℕ → M ℤ
unfolding service_get_rndv_message service_get_rndv_ctx_type service_get_rndv_op_info
rndv_receive_handler ctx = do
  message ← service_get_rndv_message ctx
  unless_ok message.ret ock_rpc_err do
    ctx_type ← service_get_rndv_ctx_type ctx
    unless_ok ctx_type.ret ock_rpc_err do
      op_info ← service_get_rndv_op_info ctx
      unless_ok op_info.ret ock_rpc_err
          (dispatch_rndv op_info.out ctx (map part_of message.messages))
