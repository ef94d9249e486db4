-- ===== src/Server.antt =====
-- The server of src/hcom4db.cpp: its creation and destruction, the registration of message handlers,
-- and the receive handlers that libhcom.so calls. A shared mutex is its history of operations.
pub mod Locks
pub mod Registered
pub mod Received
pub mod Named
pub mod Options
pub mod Features
pub mod Create
pub mod Kept
pub mod Undone
pub mod Tls
pub mod TlsCallback
pub mod Answer
pub mod Rndv
pub mod Registry
use hcom4db.Base.{
  ℕ, zero, suc, ◌+◌, ◌-◌, ◌%◌, ◌^◌, ◌==◌, ℤ, pos, Bool, true, false, ◌&&◌, not, List, [], ◌∷◌,
  Option, none, some, length, ltb, leb, if◌then◌else◌, to_i16,
}
use hcom4db.Base.Maps.{lookup, insert, assign, erase, bytes_key, int_eq, bytes_eq}
use hcom4db.Config.{ConfigMap, CStr}
use hcom4db.Hcom.Types.{
  Bytes, ContextType, RpcMessage, ServiceType, ServiceOptions, TlsFuncs, WorkingMode, codes,
  ock_rpc_ok, ock_rpc_err, ock_rpc_err_invalid_param,
}
use hcom4db.Hcom.Context.{
  service_get_context_type, service_get_message_data, service_get_message_data_len,
  service_get_op_info,
}
use hcom4db.Hcom.Service.{service_create, service_start, service_stop, service_destroy}
use hcom4db.Hcom.World.{
  M, World, Reply, Mutex, LockOp, mutex, handle, load_msg_id, pure, ◌>>=◌, ◌>>◌, gets, modify, ask,
  emit, is_ok, unless_ok, or_return,
}

-- OckRpcService.
pub record RpcService : Type 0 where
  pub id : ℕ
  pub handler : ℕ

abbrev pub max_message_id_size : ℕ
max_message_id_size = 1000

-- `std::find_if` over the values: the first name with this server.
unfoldable pub find_server : ℕ → List (Bytes × ℕ) → Option Bytes
find_server server [] = none
find_server server ((name, s) ∷ m) = if s == server then some name else find_server server m

abbrev is_valid_service : RpcService → Bool
is_valid_service s = ltb s.id max_message_id_size && not (s.handler == 0)

-- The guards of OckRpcServerAddService, in their order.
unfoldable pub checked_service : Option Bytes → Option RpcService → Option RpcService
checked_service none service = none
checked_service (some _) none = none
checked_service (some _) (some s) = if is_valid_service s then some s else none

unfoldable pub server_add_service : ℕ → Option RpcService → M ℤ
server_add_service server service = do
  emit (mutex Mutex.service_add_mutex LockOp.lock)
  servers ← gets (λ w. w.service_map)
  elim (checked_service (find_server server servers) service) [
    | none ↦ (do emit (mutex Mutex.service_add_mutex LockOp.unlock); pure ock_rpc_err_invalid_param)
    | some s ↦ (do
      modify (λ w. record w { handle_map = assign (to_i16 (pos s.id)) s.handler w.handle_map })
      emit (mutex Mutex.service_add_mutex LockOp.unlock)
      pure ock_rpc_ok)
  ]

unfoldable pub server_add_rndv_service : ℕ → Option RpcService → M ℤ
server_add_rndv_service server service = do
  emit (mutex Mutex.service_add_rndv_mutex LockOp.lock)
  servers ← gets (λ w. w.service_map)
  elim (checked_service (find_server server servers) service) [
    | none ↦ (do
      emit (mutex Mutex.service_add_rndv_mutex LockOp.unlock)
      pure ock_rpc_err_invalid_param)
    | some s ↦ (do
      modify (λ w. record w {
        rndv_handle_map = assign (to_i16 (pos s.id)) s.handler w.rndv_handle_map;
      })
      emit (mutex Mutex.service_add_rndv_mutex LockOp.unlock)
      pure ock_rpc_ok)
  ]

-- The end of OckRpcReceiveHandle: the handler runs between lock_shared and unlock.
unfoldable pub dispatch : ℕ → ℕ → RpcMessage → M ℤ
dispatch msg_id ctx msg = do
  emit (mutex Mutex.service_add_mutex LockOp.lock_shared)
  handlers ← gets (λ w. w.handle_map)
  or_return (lookup (to_i16 (pos msg_id)) handlers) tt (λ handler. emit (handle handler ctx msg))
  emit (mutex Mutex.service_add_mutex LockOp.unlock)
  pure ock_rpc_ok

-- `msg.data + 2` and `msg.len - 2`, a size_t.
abbrev pub behind_header : RpcMessage → RpcMessage
behind_header msg = record { data_ptr = msg.data_ptr + 2; len = (msg.len + 2 ^ 64 - 2) % 2 ^ 64 }

unfoldable pub receive_by_op_info : ℕ → RpcMessage → M ℤ
unfolding service_get_op_info
receive_by_op_info ctx msg = do
  op_info ← service_get_op_info ctx
  unless_ok op_info.ret ock_rpc_err (dispatch op_info.out ctx msg)

-- A raw message has its id in front; that of another one is the operation code.
unfoldable pub receive_message : ContextType → ℕ → RpcMessage → M ℤ
receive_message ContextType.service_received_raw ctx msg = do
  head ← ask (load_msg_id msg.data_ptr)
  dispatch head.out ctx (behind_header msg)
receive_message _ ctx msg = receive_by_op_info ctx msg

unfoldable pub receive_handle : ℕ → M ℤ
unfolding service_get_context_type service_get_message_data service_get_message_data_len
receive_handle ctx = do
  data_ptr ← service_get_message_data ctx
  if data_ptr.out == 0 then pure ock_rpc_err else (do
    len ← service_get_message_data_len ctx
    ctx_type ← service_get_context_type ctx
    unless_ok ctx_type.ret ock_rpc_err (
        receive_message ctx_type.context_type ctx
          (record { data_ptr = data_ptr.out; len = len.out })))

abbrev pub server_name_key : Bytes
server_name_key = codes "server.create.name"

abbrev pub communication_type_key : Bytes
communication_type_key = codes "server.create.type"

-- OCK_RPC_STR_SERVER_NAME, `service` by default.
abbrev pub service_name : ConfigMap → Bytes
service_name m = elim (lookup server_name_key m) [ none ↦ codes "service" | some v ↦ v.bytes ]

-- OCK_RPC_STR_COMMUNICATION_TYPE: no entry, a transport, or an error.
unfoldable pub transport_of : ConfigMap → Option (Option ServiceType)
transport_of m = elim (lookup communication_type_key m) [
  | none ↦ some none
  | some v ↦
      if bytes_eq v.bytes (codes "TCP")
      then some (some ServiceType.c_service_tcp)
      else if bytes_eq v.bytes (codes "RDMA")
      then some (some ServiceType.c_service_rdma)
      else none
]

-- The part behind the choice of the transport. The insertion runs under a shared lock.
unfoldable pub create_service : ServiceType → Bytes → M (ℤ × ℕ)
unfolding service_create
create_service type name = do
  server ← service_create type name true
  unless_ok server.ret (ock_rpc_err, server.out)
      do
        emit (mutex Mutex.service_mutex LockOp.lock_shared)
        modify (λ w. record w { service_map = insert name server.out w.service_map })
        emit (mutex Mutex.service_mutex LockOp.unlock_shared)
        pure (ock_rpc_ok, server.out)

-- The status, and what `*server` is set to; 0 stands for its old value where nothing is set.
unfoldable pub create_server : ConfigMap → M (ℤ × ℕ)
create_server m =
    if ltb 64 (length (service_name m))
    then pure (ock_rpc_err_invalid_param, 0)
    else (elim (transport_of m) [
      | none ↦ pure (ock_rpc_err_invalid_param, 0)
      | some none ↦ create_service ServiceType.c_service_rdma (service_name m)
      | some (some type) ↦ (do
        modify (λ w. record w { connection_type = type })
        create_service type (service_name m))
    ])

unfoldable pub server_start : ℕ → M ℤ
unfolding service_start
server_start server = do
  options ← gets (λ w. w.options)
  r ← service_start server options
  unless_ok r.ret ock_rpc_err (pure ock_rpc_ok)

-- Service_Options() and TlsFuncs().
abbrev pub zero_options : ServiceOptions
zero_options = record {
  net_device_ip_mask = [];
  enable_tls = false;
  tls_version = 0;
  enable_rndv = false;
  mode = WorkingMode.c_service_busy_polling;
  worker_groups = [];
  worker_groups_cpu_set = [];
  heart_beat_idle_time = 0;
  mr_send_receive_seg_count = 0;
  mr_send_receive_seg_size = 0;
  completion_queue_depth = 0;
  pre_post_receive_size_per_qp = 0;
  qp_send_queue_size = 0;
  qp_receive_queue_size = 0;
  oob_port_range = [];
}

abbrev pub zero_tls_funcs : TlsFuncs
zero_tls_funcs = record { get_ca_and_verify = 0; get_cert = 0; get_pri_key = 0; erase_key_pass = 0 }

-- `g_serviceMap.erase(iter)`, then the two globals are reset.
unfoldable pub forget_server : Bytes → M (Unit {0})
forget_server name = do
  modify (λ w. record w { service_map = erase name w.service_map })
  emit (mutex Mutex.service_mutex LockOp.unlock)
  modify (λ w. record w { options = zero_options; tls_func = zero_tls_funcs })

unfoldable pub server_destroy : ℕ → M (Unit {0})
unfolding service_stop service_destroy
server_destroy server = do
  emit (mutex Mutex.service_mutex LockOp.lock)
  servers ← gets (λ w. w.service_map)
  elim (find_server server servers) [
    | none ↦ emit (mutex Mutex.service_mutex LockOp.unlock)
    | some name ↦ (do
      service_stop server
      r ← service_destroy server
      if is_ok r.ret then forget_server name else emit (mutex Mutex.service_mutex LockOp.unlock))
  ]
