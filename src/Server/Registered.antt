-- ===== src/Server/Registered.antt =====
-- OckRpcServerAddService of src/hcom4db.cpp: which registrations it accepts, and which handler a
-- message then reaches.
use hcom4db.Base.{
  ℕ, ◌==◌, ◌≡◌, refl, ℤ, pos, Bool, true, ◌&&◌, not, List, ◌∷◌, some, is_some, if◌then◌else◌, arith,
  to_i16, eq_ℤ, ltb,
}
use hcom4db.Base.Maps.{lookup, int_eq, lookup-assign}
use hcom4db.Hcom.Types.{RpcMessage, ock_rpc_ok, ock_rpc_err_invalid_param}
use hcom4db.Hcom.World.{World, Event, Mutex, LockOp, mutex, handle}
use hcom4db.Server.{
  RpcService, checked_service, find_server, max_message_id_size, server_add_service, dispatch,
}

-- The server is one that was recorded, the id is in range and the handler is not null.
abbrev pub accepts : World → ℕ → RpcService → Bool
accepts w server s =
    is_some (find_server server w.service_map)
    && ltb s.id max_message_id_size
    && not (s.handler == 0)

-- For a service that is not null, OckRpcServerAddService answers OCK_RPC_OK if the server is
-- recorded, the id is below 1000 and the handler is not null, and then the id leads to this
-- handler and every other id where it led before; in any other case it answers
-- OCK_RPC_ERR_INVALID_PARAM and changes no id.
pub server_add_service_lem :
    (server : ℕ) (s : RpcService) (w : World) (key : ℤ)
    → let r = server_add_service server (some s) w in
      (r.0 ≡ (if accepts w server s then ock_rpc_ok else ock_rpc_err_invalid_param))
      × (lookup key r.1.handle_map ≡ (
          if accepts w server s && eq_ℤ (pos s.id) key
          then some s.handler
          else lookup key w.handle_map))
unfolding server_add_service checked_service
server_add_service_lem server s w key =
    ground (arith, lookup-assign (to_i16 (pos s.id)) key s.handler w.handle_map)

-- The history of a message that reaches its handler.
abbrev pub delivered : ℕ → ℕ → RpcMessage → World → List Event
delivered handler ctx msg w =
    mutex Mutex.service_add_mutex LockOp.unlock
    ∷ handle handler ctx msg
    ∷ mutex Mutex.service_add_mutex LockOp.lock_shared
    ∷ w.trace

-- After a registration that was accepted, a message with the id that OckRpcReceiveHandle
-- dispatches reaches exactly the handler that was registered, once, with its context and its data.
pub dispatch-server_add_service :
    (server ctx : ℕ) (s : RpcService) (msg : RpcMessage) (w : World)
    → accepts w server s ≡ true
    → let w' = (server_add_service server (some s) w).1 in
      let r = dispatch s.id ctx msg w' in
      (r.0 ≡ ock_rpc_ok) × (r.1.trace ≡ delivered s.handler ctx msg w')
unfolding dispatch
dispatch-server_add_service server ctx s msg w ok =
    let (answer, found) = server_add_service_lem server s w (pos s.id) in
    let narrow : to_i16 (pos s.id) ≡ pos s.id = ground arith in
    let reached : lookup (to_i16 (pos s.id)) (server_add_service server (some s) w).1.handle_map
        ≡ some s.handler =
      ground arith in
    rw reached (refl, refl)
