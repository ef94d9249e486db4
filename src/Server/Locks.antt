-- ===== src/Server/Locks.antt =====
-- The shared mutexes of src/hcom4db.cpp as one thread uses them: a mutex is free, held exclusively or
-- held shared, and an operation that its state does not allow is undefined behaviour, `none`.
use hcom4db.Base.{
  ℕ, ◌==◌, ◌≡◌, ◌∙◌, Bool, true, false, List, [], ◌∷◌, Option, none, some, Bool-cases,
  if◌then◌else◌, arith, inl, inr,
}
use hcom4db.Config.{ConfigMap}
use hcom4db.Hcom.Call.{Call}
use hcom4db.Hcom.Types.{RpcMessage, ContextType}
use hcom4db.Hcom.Context.{
  service_get_context_type, service_get_message_data, service_get_message_data_len,
  service_get_op_info,
}
use hcom4db.Hcom.Service.{service_create, service_stop, service_destroy}
use hcom4db.Hcom.World.{
  World, Event, Mutex, LockOp, mutex, is_ok, invoke_int, invoke_value, invoke_void,
}
use hcom4db.Server.{
  RpcService, server_add_service, server_add_rndv_service, dispatch, receive_message,
  receive_handle, receive_by_op_info, create_service, create_server, forget_server, server_destroy,
}

pub data Hold : Type 0 where
  free exclusive shared : Hold

abbrev pub lock_step : LockOp → Option Hold → Option Hold
lock_step LockOp.lock (some Hold.free) = some Hold.exclusive
lock_step LockOp.unlock (some Hold.exclusive) = some Hold.free
lock_step LockOp.lock_shared (some Hold.free) = some Hold.shared
lock_step LockOp.unlock_shared (some Hold.shared) = some Hold.free
lock_step _ _ = none

abbrev same_mutex : Mutex → Mutex → Bool
same_mutex Mutex.service_mutex Mutex.service_mutex = true
same_mutex Mutex.service_add_mutex Mutex.service_add_mutex = true
same_mutex Mutex.service_add_rndv_mutex Mutex.service_add_rndv_mutex = true
same_mutex _ _ = false

abbrev pub hold_after : Mutex → Event → Option Hold → Option Hold
hold_after m (mutex n op) h = if same_mutex m n then lock_step op h else h
hold_after m _ h = h

-- How a thread holds a mutex after a history, which began with the mutex free.
abbrev pub hold_of : Mutex → List Event → Option Hold
hold_of m [] = some Hold.free
hold_of m (e ∷ t) = hold_after m e (hold_of m t)

-- The thread holds no mutex.
abbrev pub HoldsNone : World → Type 0
HoldsNone w = (m : Mutex) → hold_of m w.trace ≡ some Hold.free

pub server_add_service-free :
    (server : ℕ) (service : Option RpcService) (w : World) (m : Mutex)
    → hold_of m w.trace ≡ some Hold.free
    → hold_of m (server_add_service server service w).1.trace ≡ some Hold.free
unfolding server_add_service
server_add_service-free server service w Mutex.service_mutex h = ground arith
server_add_service-free server service w Mutex.service_add_mutex h = ground arith
server_add_service-free server service w Mutex.service_add_rndv_mutex h = ground arith

pub server_add_rndv_service-free :
    (server : ℕ) (service : Option RpcService) (w : World) (m : Mutex)
    → hold_of m w.trace ≡ some Hold.free
    → hold_of m (server_add_rndv_service server service w).1.trace ≡ some Hold.free
unfolding server_add_rndv_service
server_add_rndv_service-free server service w Mutex.service_mutex h = ground arith
server_add_rndv_service-free server service w Mutex.service_add_mutex h = ground arith
server_add_rndv_service-free server service w Mutex.service_add_rndv_mutex h = ground arith

pub server_destroy-free :
    (server : ℕ) (w : World) (m : Mutex)
    → hold_of m w.trace ≡ some Hold.free
    → hold_of m (server_destroy server w).1.trace ≡ some Hold.free
unfolding server_destroy forget_server service_stop service_destroy invoke_int invoke_void
server_destroy-free server w Mutex.service_mutex h = ground arith
server_destroy-free server w Mutex.service_add_mutex h = ground arith
server_destroy-free server w Mutex.service_add_rndv_mutex h = ground arith

pub create_server-free :
    (c : ConfigMap) (w : World) (m : Mutex)
    → hold_of m w.trace ≡ some Hold.free
    → hold_of m (create_server c w).1.trace ≡ some Hold.free
unfolding create_server create_service service_create invoke_int
create_server-free c w Mutex.service_mutex h = ground arith
create_server-free c w Mutex.service_add_mutex h = ground arith
create_server-free c w Mutex.service_add_rndv_mutex h = ground arith

-- A thread that holds no mutex of the program holds none after OckRpcCreateServer,
-- OckRpcServerAddService, OckRpcServerAddRndvService and OckRpcServerDestroy either, on every branch,
-- and each of its operations on a mutex was allowed.
server-HoldsNone :
    (c : ConfigMap) (server : ℕ) (service : Option RpcService) (w : World)
    → HoldsNone w
    → HoldsNone (create_server c w).1
      × HoldsNone (server_add_service server service w).1
      × HoldsNone (server_add_rndv_service server service w).1
      × HoldsNone (server_destroy server w).1
server-HoldsNone c server service w none_held = (
  λ m. create_server-free c w m (none_held m),
  λ m. server_add_service-free server service w m (none_held m),
  λ m. server_add_rndv_service-free server service w m (none_held m),
  λ m. server_destroy-free server w m (none_held m),
)

dispatch-undefined :
    (msg_id ctx : ℕ) (msg : RpcMessage) (w : World)
    → hold_of Mutex.service_add_mutex w.trace ≡ some Hold.free
    → hold_of Mutex.service_add_mutex (dispatch msg_id ctx msg w).1.trace ≡ none
unfolding dispatch
dispatch-undefined msg_id ctx msg w h = ground arith

invoke_int-hold :
    (m : Mutex) (c : Call) (w : World) → hold_of m (invoke_int c w).1.trace ≡ hold_of m w.trace
unfolding invoke_int
invoke_int-hold m c w = ground arith

invoke_value-hold :
    (m : Mutex) (c : Call) (w : World) → hold_of m (invoke_value c w).1.trace ≡ hold_of m w.trace
unfolding invoke_value
invoke_value-hold m c w = ground arith

receive_by_op_info-undefined :
    (ctx : ℕ) (msg : RpcMessage) (w : World)
    → hold_of Mutex.service_add_mutex w.trace ≡ some Hold.free
    → let r = receive_by_op_info ctx msg w in
      is_ok r.0 ≡ true → hold_of Mutex.service_add_mutex r.1.trace ≡ none
unfolding receive_by_op_info service_get_op_info
receive_by_op_info-undefined ctx msg w h =
    let call = Call.service_get_op_info ctx in
    elim (Bool-cases (is_ok (invoke_int call w).0.ret)) [
      | inl found ↦ rw found λ good.
          dispatch-undefined _ ctx msg _ (invoke_int-hold Mutex.service_add_mutex call w ∙ h)
      | inr missing ↦ rw missing λ good. cc
    ]

receive_message-undefined :
    (t : ContextType) (ctx : ℕ) (msg : RpcMessage) (w : World)
    → hold_of Mutex.service_add_mutex w.trace ≡ some Hold.free
    → let r = receive_message t ctx msg w in
      is_ok r.0 ≡ true → hold_of Mutex.service_add_mutex r.1.trace ≡ none
unfolding receive_message
receive_message-undefined ContextType.service_received_raw ctx msg w h =
    λ good. dispatch-undefined _ ctx _ _ h
receive_message-undefined _ ctx msg w h = receive_by_op_info-undefined ctx msg w h

-- A thread that does not hold `serviceAddMutex` and whose OckRpcReceiveHandle answers OCK_RPC_OK
-- has done an operation on that mutex that its state does not allow.
pub receive_handle-undefined :
    (ctx : ℕ) (w : World)
    → hold_of Mutex.service_add_mutex w.trace ≡ some Hold.free
    → let r = receive_handle ctx w in
      is_ok r.0 ≡ true → hold_of Mutex.service_add_mutex r.1.trace ≡ none
unfolding receive_handle service_get_message_data service_get_message_data_len
    service_get_context_type
receive_handle-undefined ctx w h =
    let add = Mutex.service_add_mutex in
    let (data_ptr, w1) = invoke_value (Call.service_get_message_data ctx) w in
    let (len, w2) = invoke_value (Call.service_get_message_data_len ctx) w1 in
    let (ctx_type, w3) = invoke_int (Call.service_get_context_type ctx) w2 in
    let still : hold_of add w3.trace ≡ some Hold.free =
      invoke_int-hold add _ w2 ∙ invoke_value-hold add _ w1 ∙ invoke_value-hold add _ w ∙ h in
    elim (Bool-cases (data_ptr.out == 0)) [
      | inl null ↦ rw null λ good. cc
      | inr there ↦ rw there (elim (Bool-cases (is_ok ctx_type.ret)) [
        | inl known ↦ rw known (receive_message-undefined ctx_type.context_type ctx _ w3 still)
        | inr failed ↦ rw failed λ good. cc
      ])
    ]
