-- ===== src/Program/Unlocked.antt =====
-- The mutexes of src/hcom4db.cpp over a run of the program in one thread.
use hcom4db.Base.{◌≡◌, ◌∙◌, Bool, true, false, List, [], ◌∷◌, All}
use hcom4db.Hcom.World.{M, World}
use hcom4db.Program.Orderly.{Orderly}
use hcom4db.Program.{Operation, perform}
use hcom4db.Program.Calls.{
  client_call-Keeps, client_call_rndv-Keeps, client_call_rndv_iov-Keeps, response_call_back-Keeps,
  server_reply-Keeps, server_reply_rndv-Keeps, set_timeout-Keeps,
}
use hcom4db.Program.Completing.{ock_rpc_callback_func-Orderly}
use hcom4db.Program.Packing.{client_call_with_param-Orderly}
use hcom4db.Program.Connections.{connect_with_cfg-Orderly, disconnect-Orderly}
use hcom4db.Program.Kept.{rpc_read-Keeps, rpc_read_sgl-Keeps, rpc_write-Keeps, rpc_write_sgl-Keeps}
use hcom4db.Program.Creating.{
  server_create_with_cfg-Orderly, server_destroy-Orderly, server_start-Orderly,
}
use hcom4db.Server.Kept.{Kept}
use hcom4db.Server.Locks.{HoldsNone, server_add_rndv_service-free, server_add_service-free}

-- The handlers that libhcom.so calls for a message that came in.
abbrev pub is_receive : Operation → Bool
is_receive (Operation.receive _) = true
is_receive (Operation.receive_rndv _) = true
is_receive _ = false

-- Operations one after the other.
abbrev pub run : List Operation → World → World
run [] w = w
run (op ∷ ops) w = run ops (perform op w)

Kept-HoldsNone : {w u : World} → Kept w u → HoldsNone w → HoldsNone u
Kept-HoldsNone k h n = k.holds n ∙ h n

Orderly-HoldsNone :
    {A : Type 0} {m : M A} → Orderly m → (w : World) → HoldsNone w → HoldsNone (m w).1
Orderly-HoldsNone o w h n = o.tidy w n (h n)

perform-HoldsNone :
    (op : Operation) (w : World) → is_receive op ≡ false → HoldsNone w → HoldsNone (perform op w)
unfolding perform
perform-HoldsNone (Operation.create ip port server c) w call h =
    Orderly-HoldsNone (server_create_with_cfg-Orderly ip port server c) w h
perform-HoldsNone (Operation.add_service server s) w call h =
    λ n. server_add_service-free server s w n (h n)
perform-HoldsNone (Operation.add_rndv_service server s) w call h =
    λ n. server_add_rndv_service-free server s w n (h n)
perform-HoldsNone (Operation.start server) w call h =
    Orderly-HoldsNone (server_start-Orderly server) w h
perform-HoldsNone (Operation.destroy server) w call h =
    Orderly-HoldsNone (server_destroy-Orderly server) w h
perform-HoldsNone (Operation.receive ctx) w call h = cc
perform-HoldsNone (Operation.receive_rndv ctx) w call h = cc
perform-HoldsNone (Operation.reply ctx id m d) w call h =
    Kept-HoldsNone ((server_reply-Keeps ctx id m d).kept w) h
perform-HoldsNone (Operation.reply_rndv ctx id m d) w call h =
    Kept-HoldsNone ((server_reply_rndv-Keeps ctx id m d).kept w) h
perform-HoldsNone (Operation.replied arg ctx) w call h =
    Kept-HoldsNone ((response_call_back-Keeps arg ctx).kept w) h
perform-HoldsNone (Operation.connect ip port client c o) w call h =
    Orderly-HoldsNone (connect_with_cfg-Orderly ip port client c o) w h
perform-HoldsNone (Operation.disconnected client) w call h =
    Orderly-HoldsNone (disconnect-Orderly client) w h
perform-HoldsNone (Operation.call client id m rsp d) w call h =
    Kept-HoldsNone ((client_call-Keeps client id m rsp d).kept w) h
perform-HoldsNone (Operation.call_with_param params) w call h =
    Orderly-HoldsNone (client_call_with_param-Orderly params) w h
perform-HoldsNone (Operation.completed arg ctx) w call h =
    Orderly-HoldsNone (ock_rpc_callback_func-Orderly arg ctx) w h
perform-HoldsNone (Operation.call_rndv client id m rsp d) w call h =
    Kept-HoldsNone ((client_call_rndv-Keeps client id m rsp d).kept w) h
perform-HoldsNone (Operation.call_rndv_iov client id m rsp d) w call h =
    Kept-HoldsNone ((client_call_rndv_iov-Keeps client id m rsp d).kept w) h
perform-HoldsNone (Operation.read client req d) w call h =
    Kept-HoldsNone ((rpc_read-Keeps client req d).kept w) h
perform-HoldsNone (Operation.write client req d) w call h =
    Kept-HoldsNone ((rpc_write-Keeps client req d).kept w) h
perform-HoldsNone (Operation.read_sgl client req d) w call h =
    Kept-HoldsNone ((rpc_read_sgl-Keeps client req d).kept w) h
perform-HoldsNone (Operation.write_sgl client req d) w call h =
    Kept-HoldsNone ((rpc_write_sgl-Keeps client req d).kept w) h
perform-HoldsNone (Operation.timeout client t) w call h =
    Kept-HoldsNone ((set_timeout-Keeps client t).kept w) h

-- A thread that holds no mutex of the program holds none after any sequence of the operations of
-- Program but the two receive handlers, with any arguments and any answers of libhcom.so, and each
-- operation on a mutex on the way was allowed.
pub run-HoldsNone :
    (ops : List Operation) (w : World)
    → All (λ op. is_receive op ≡ false) ops
    → HoldsNone w
    → HoldsNone (run ops w)
run-HoldsNone [] w calls h = h
run-HoldsNone (op ∷ ops) w (call, calls) h =
    run-HoldsNone ops (perform op w) calls (perform-HoldsNone op w call h)
