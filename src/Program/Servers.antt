-- ===== src/Program/Servers.antt =====
-- The creation and the end of a server and the receive handlers of src/hcom4db.cpp keep the program sound.
use hcom4db.Base.{ℕ, ℤ, List, Option, none, some, if◌then◌else◌, ltb, length}
use hcom4db.Base.Maps.{bytes_key, int_eq}
use hcom4db.Config.{ConfigMap}
use hcom4db.Hcom.Call.{Call}
use hcom4db.Hcom.Types.{Bytes, ContextType, RpcMessage, ServiceType, ock_rpc_err_invalid_param}
use hcom4db.Hcom.Context.{
  service_get_context_type, service_get_message_data, service_get_message_data_len,
  service_get_op_info, service_get_rndv_ctx_type, service_get_rndv_message,
  service_get_rndv_op_info,
}
use hcom4db.Hcom.Service.{service_create, service_destroy, service_stop}
use hcom4db.Hcom.World.{
  M, LockOp, Mutex, emit, invoke_int, invoke_value, invoke_void, is_ok, modify, mutex, pure, ◌>>=◌,
  ◌>>◌,
}
use hcom4db.Server.{
  create_server, create_service, dispatch, find_server, forget_server, receive_by_op_info,
  receive_handle, receive_message, server_destroy, service_name, transport_of, zero_options,
  zero_tls_funcs,
}
use hcom4db.Server.Kept.{others, others-Keeps, invoke_value-Keeps, invoke_void-Keeps}
use hcom4db.Server.Rndv.{dispatch_rndv, rndv_receive_handler}
use hcom4db.Program.Kept.{invoke_int-Keeps}
use hcom4db.Program.Safe.{
  Safe, Keeps-Safe, bind-Safe, emit-Safe, gets-Safe, if-Safe, pure-Safe, safely,
}

invoke_int-Safe : (c : Call) → Safe (invoke_int c)
invoke_int-Safe c = Keeps-Safe (invoke_int-Keeps c)

invoke_value-Safe : (c : Call) → Safe (invoke_value c)
invoke_value-Safe c = Keeps-Safe (invoke_value-Keeps c)

invoke_void-Safe : (c : Call) → Safe (invoke_void c)
invoke_void-Safe c = Keeps-Safe (invoke_void-Keeps c)

connection_type-Safe : (t : ServiceType) → Safe (modify (λ w. record w { connection_type = t }))
connection_type-Safe t = record {
  safe = λ w s. record {
    handlers = s.handlers;
    rndv_handlers = s.rndv_handlers;
    servers = s.servers;
    allocators = s.allocators;
    regions = s.regions;
  };
}

ruleset calling = (safely, invoke_int-Safe, invoke_value-Safe, invoke_void-Safe)

-- An option that the code looks at with a branch for each case.
case-Safe :
    {A B : Type 0} (o : Option A) (m : M B) (f : A → M B)
    → Safe m
    → ((a : A) → Safe (f a))
    → Safe (elim o [ none ↦ m | some a ↦ f a ])
case-Safe none m f missing there = missing
case-Safe (some a) m f missing there = there a

create_service-Safe : (t : ServiceType) (name : Bytes) → Safe (create_service t name)
unfolding create_service service_create
create_service-Safe t name = search calling depth 12

-- The service of a transport that was chosen.
create_chosen : Bytes → Option (Option ServiceType) → M (ℤ × ℕ)
create_chosen name chosen = elim chosen [
  | none ↦ pure (ock_rpc_err_invalid_param, 0)
  | some none ↦ create_service ServiceType.c_service_rdma name
  | some (some type) ↦ (do
    modify (λ w. record w { connection_type = type })
    create_service type name)
]

create_chosen-Safe : (name : Bytes) (o : Option (Option ServiceType)) → Safe (create_chosen name o)
unfolding create_chosen
create_chosen-Safe name none = pure-Safe _
create_chosen-Safe name (some none) = create_service-Safe _ _
create_chosen-Safe name (some (some t)) =
    bind-Safe (connection_type-Safe t) (λ _. create_service-Safe t name)

pub create_server-Safe : (m : ConfigMap) → Safe (create_server m)
unfolding create_server create_chosen
create_server-Safe m =
    if-Safe (ltb 64 (length (service_name m))) (pure-Safe _)
      (create_chosen-Safe (service_name m) (transport_of m))

reset-Safe : Safe (modify (λ w. record w { options = zero_options; tls_func = zero_tls_funcs }))
reset-Safe =
    Keeps-Safe
      (others-Keeps (λ w. record (others w) { options = zero_options; tls_func = zero_tls_funcs }))

forget_server-Safe : (name : Bytes) → Safe (forget_server name)
unfolding forget_server
forget_server-Safe name = search (calling, reset-Safe) depth 10

-- The end of OckRpcServerDestroy, for the server that was found.
destroy_found : ℕ → Option Bytes → M (Unit {0})
destroy_found server found = elim found [
  | none ↦ emit (mutex Mutex.service_mutex LockOp.unlock)
  | some name ↦ (do
    service_stop server
    r ← service_destroy server
    if is_ok r.ret then forget_server name else emit (mutex Mutex.service_mutex LockOp.unlock))
]

destroy_found-Safe : (server : ℕ) (found : Option Bytes) → Safe (destroy_found server found)
unfolding destroy_found service_stop service_destroy
destroy_found-Safe server none = emit-Safe _
destroy_found-Safe server (some name) = search (calling, forget_server-Safe) depth 12

pub server_destroy-Safe : (server : ℕ) → Safe (server_destroy server)
unfolding server_destroy destroy_found
server_destroy-Safe server = bind-Safe (emit-Safe (mutex Mutex.service_mutex LockOp.lock)) (λ _.
    bind-Safe (gets-Safe (λ w. w.service_map))
      (λ servers. destroy_found-Safe server (find_server server servers)))

dispatch-Safe : (id ctx : ℕ) (msg : RpcMessage) → Safe (dispatch id ctx msg)
unfolding dispatch
dispatch-Safe id ctx msg = search calling depth 12

receive_by_op_info-Safe : (ctx : ℕ) (msg : RpcMessage) → Safe (receive_by_op_info ctx msg)
unfolding receive_by_op_info service_get_op_info
receive_by_op_info-Safe ctx msg = search (calling, dispatch-Safe) depth 10

receive_message-Safe :
    (t : ContextType) (ctx : ℕ) (msg : RpcMessage) → Safe (receive_message t ctx msg)
unfolding receive_message
receive_message-Safe ContextType.service_received_raw ctx msg = search (calling, dispatch-Safe)
receive_message-Safe _ ctx msg = receive_by_op_info-Safe ctx msg

pub receive_handle-Safe : (ctx : ℕ) → Safe (receive_handle ctx)
unfolding receive_handle service_get_context_type service_get_message_data
    service_get_message_data_len
receive_handle-Safe ctx = search (calling, receive_message-Safe) depth 14

dispatch_rndv-Safe : (code ctx : ℕ) (msg : List RpcMessage) → Safe (dispatch_rndv code ctx msg)
unfolding dispatch_rndv
dispatch_rndv-Safe code ctx msg = search calling depth 12

pub rndv_receive_handler-Safe : (ctx : ℕ) → Safe (rndv_receive_handler ctx)
unfolding rndv_receive_handler service_get_rndv_message service_get_rndv_ctx_type
    service_get_rndv_op_info
rndv_receive_handler-Safe ctx = search (calling, dispatch_rndv-Safe) depth 14
