-- ===== src/Server/Rndv/Delivered.antt =====
-- OckRpcServerAddRndvService and OckRpcRndvReceiveHandler of src/hcom4db.cpp: a rendezvous message
-- reaches the handler that was registered for it.
use hcom4db.Base.{ℕ, ◌≡◌, refl, pos, true, List, ◌∷◌, some, to_i16, arith}
use hcom4db.Base.Maps.{assign, int_eq, lookup-assign_self}
use hcom4db.Hcom.Types.{RpcMessage, ock_rpc_ok}
use hcom4db.Hcom.World.{World, LockOp, Mutex, handle_rndv, mutex}
use hcom4db.Server.{RpcService, checked_service, server_add_rndv_service}
use hcom4db.Server.Registered.{accepts}
use hcom4db.Server.Rndv.{dispatch_rndv}

registered :
    (server : ℕ) (s : RpcService) (w : World)
    → accepts w server s ≡ true
    → (server_add_rndv_service server (some s) w).1.rndv_handle_map
      ≡ assign (to_i16 (pos s.id)) s.handler w.rndv_handle_map
unfolding server_add_rndv_service checked_service
registered server s w ok = ground arith

-- After a registration that OckRpcServerAddRndvService accepts (a server on record, an id below
-- 1000, a handler that is not null), a rendezvous message with the id that OckRpcRndvReceiveHandler
-- dispatches reaches exactly the handler that was registered, once, with its context and its parts.
pub dispatch_rndv-server_add_rndv_service :
    (server ctx : ℕ) (s : RpcService) (msg : List RpcMessage) (w : World)
    → accepts w server s ≡ true
    → let w' = (server_add_rndv_service server (some s) w).1 in
      let r = dispatch_rndv s.id ctx msg w' in
      (r.0 ≡ ock_rpc_ok)
      × (r.1.trace
          ≡ mutex Mutex.service_add_rndv_mutex LockOp.unlock
            ∷ handle_rndv s.handler ctx msg
            ∷ mutex Mutex.service_add_rndv_mutex LockOp.lock_shared
            ∷ w'.trace)
unfolding dispatch_rndv
dispatch_rndv-server_add_rndv_service server ctx s msg w ok =
    rw (registered server s w ok)
      (rw (lookup-assign_self (to_i16 (pos s.id)) s.handler w.rndv_handle_map) (refl, refl))
