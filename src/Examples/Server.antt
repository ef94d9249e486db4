-- ===== src/Examples/Server.antt =====
-- Servers, services and messages, at concrete inputs.
use hcom4db.Base.{◌≡◌, refl, pos, true, [], ◌∷◌, none, some, arith, eq_ℤ, ◌&&◌, if◌then◌else◌}
use hcom4db.Base.Maps.{lookup, int_eq, bytes_key}
use hcom4db.Hcom.Call.{symbol}
use hcom4db.Hcom.Types.{RpcMessage, codes, ock_rpc_ok, ock_rpc_err_invalid_param}
use hcom4db.Hcom.World.{World, LockOp, Mutex, handle_rndv, mutex, is_ok, invoke_int, invoke_value}
use hcom4db.Hcom.Service.{service_create}
use hcom4db.Hcom.Context.{
  service_get_message_data, service_get_message_data_len, service_get_context_type,
  service_get_op_info,
}
use hcom4db.Server.{
  RpcService, create_server, create_service, dispatch, find_server, receive_handle, receive_message,
  receive_by_op_info, server_add_rndv_service, server_add_service, service_name, transport_of,
}
use hcom4db.Server.Locks.{HoldsNone, hold_of, receive_handle-undefined}
use hcom4db.Server.Registered.{
  accepts, delivered, server_add_service_lem, dispatch-server_add_service,
}
use hcom4db.Server.Rndv.{dispatch_rndv}
use hcom4db.Server.Rndv.Delivered.{dispatch_rndv-server_add_rndv_service}
use hcom4db.Server.Received.{Received, receive_handle_lem}
use hcom4db.Server.Named.{create_server-free_name, create_server-taken_name}
use hcom4db.Examples.Answers.{with_functions}

abbrev pub svc : RpcService
svc = record { id = 42; handler = 900 }

-- A server 5 on record, with a handler for the id that the answers give, and functions to receive with.
abbrev pub serving : World
serving =
    record (with_functions (
      "Service_GetMessageData" ∷ "Service_GetMessageDataLen" ∷ "Service_GetContextType"
      ∷ "Service_GetOpInfo" ∷ "Service_Create" ∷ [])) {
        service_map = (codes "service", 5) ∷ [];
        handle_map = (pos 42, 700) ∷ [];
      }

serving-accepts : accepts serving 5 svc ≡ true
unfolding find_server
serving-accepts = refl

server_add_service_lem_example :
    let r = server_add_service 5 (some svc) serving in
    (r.0 ≡ (if accepts serving 5 svc then ock_rpc_ok else ock_rpc_err_invalid_param))
    × (lookup (pos 42) r.1.handle_map ≡ (
        if accepts serving 5 svc && eq_ℤ (pos 42) (pos 42)
        then some 900
        else lookup (pos 42) serving.handle_map))
server_add_service_lem_example = server_add_service_lem 5 svc serving (pos 42)

abbrev hello : RpcMessage
hello = record { data_ptr = 100; len = 5 }

dispatch-server_add_service_example :
    let w = (server_add_service 5 (some svc) serving).1 in
    let r = dispatch 42 8 hello w in (r.0 ≡ ock_rpc_ok) × (r.1.trace ≡ delivered 900 8 hello w)
dispatch-server_add_service_example =
    dispatch-server_add_service 5 8 svc hello serving serving-accepts

dispatch_rndv-server_add_rndv_service_example :
    let w = (server_add_rndv_service 5 (some svc) serving).1 in
    let r = dispatch_rndv 42 8 (hello ∷ []) w in
    (r.0 ≡ ock_rpc_ok)
    × (r.1.trace
        ≡ mutex Mutex.service_add_rndv_mutex LockOp.unlock
          ∷ handle_rndv 900 8 (hello ∷ [])
          ∷ mutex Mutex.service_add_rndv_mutex LockOp.lock_shared
          ∷ w.trace)
dispatch_rndv-server_add_rndv_service_example =
    dispatch_rndv-server_add_rndv_service 5 8 svc (hello ∷ []) serving serving-accepts

pub serving-HoldsNone : HoldsNone serving
serving-HoldsNone m = refl

received-ok : is_ok (receive_handle 8 serving).0 ≡ true
unfolding receive_handle service_get_message_data service_get_message_data_len
    service_get_context_type receive_message receive_by_op_info service_get_op_info dispatch
    invoke_int invoke_value symbol lookup
received-ok = refl

receive_handle-undefined_example :
    hold_of Mutex.service_add_mutex (receive_handle 8 serving).1.trace ≡ none
receive_handle-undefined_example = receive_handle-undefined 8 serving refl received-ok

receive_handle_lem_example : Received 8 serving (receive_handle 8 serving)
receive_handle_lem_example = receive_handle_lem 8 serving

abbrev unnamed : World
unnamed = record serving { service_map = [] }

unnamed-free : lookup (service_name []) unnamed.service_map ≡ none
unfolding lookup
unnamed-free = refl

unnamed-ok : is_ok (create_server [] unnamed).0.0 ≡ true
unfolding create_server create_service service_create transport_of invoke_int symbol lookup
unnamed-ok = refl

create_server-free_name_example :
    let ((ret, server), w) = create_server [] unnamed in
    (server_add_service server (some svc) w).0 ≡ ock_rpc_ok
create_server-free_name_example =
    create_server-free_name [] svc unnamed unnamed-free (omega arith, λ e. absurd (omega arith))
      unnamed-ok

serving-taken : lookup (service_name []) serving.service_map ≡ some 5
unfolding lookup
serving-taken = refl

serving-ok : is_ok (create_server [] serving).0.0 ≡ true
unfolding create_server create_service service_create transport_of invoke_int symbol lookup
serving-ok = refl

serving-fresh : find_server (create_server [] serving).0.1 serving.service_map ≡ none
unfolding create_server create_service service_create transport_of invoke_int symbol lookup
    find_server
serving-fresh = refl

create_server-taken_name_example :
    let ((ret, server), w) = create_server [] serving in
    (server_add_service server (some svc) w).0 ≡ ock_rpc_err_invalid_param
create_server-taken_name_example =
    create_server-taken_name [] svc serving 5 serving-taken serving-ok serving-fresh
