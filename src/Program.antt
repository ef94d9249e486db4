-- ===== src/Program.antt =====
-- The operations of src/hcom4db.cpp that a user calls, and the handlers and callbacks that libhcom.so
-- calls, as the steps of one program: any of them may follow any other.
pub mod Kept
pub mod Calls
pub mod Sound
pub mod Safe
pub mod Orderly
pub mod Loading
pub mod Servers
pub mod Creating
pub mod Connections
pub mod Packing
pub mod Completing
pub mod Reached
pub mod Unlocked
pub mod Delivered
pub mod Settled
use hcom4db.Base.{ℕ, ℤ, List, [], ◌∷◌, Option}
use hcom4db.Client.Call.{CallParams, client_call, client_call_with_param}
use hcom4db.Client.Callback.{ock_rpc_callback_func, response_call_back}
use hcom4db.Client.Connection.{connect_with_cfg, disconnect}
use hcom4db.Client.OneSided.{rpc_read, rpc_read_sgl, rpc_write, rpc_write_sgl}
use hcom4db.Client.Rndv.{MessageInfo, MessageInfoIov, client_call_rndv, client_call_rndv_iov}
use hcom4db.Client.Timeout.{set_timeout}
use hcom4db.Config.{CreateConfig}
use hcom4db.Hcom.Types.{AllocatorOptions, Bytes, CallDone, Request, RpcMessage, SglRequest}
use hcom4db.Hcom.World.{World}
use hcom4db.Server.{
  RpcService, receive_handle, server_add_rndv_service, server_add_service, server_destroy,
  server_start,
}
use hcom4db.Server.Create.{server_create_with_cfg}
use hcom4db.Server.Answer.{server_reply, server_reply_rndv}
use hcom4db.Server.Rndv.{rndv_receive_handler}

pub data Operation : Type 0 where
  create : Option Bytes → ℕ → ℕ → Option CreateConfig → Operation
  add_service add_rndv_service : ℕ → Option RpcService → Operation
  start destroy : ℕ → Operation
  receive receive_rndv : ℕ → Operation
  reply reply_rndv : ℕ → ℕ → Option RpcMessage → Option CallDone → Operation
  replied : ℕ → ℕ → Operation
  connect : Option Bytes → ℕ → ℕ → Option CreateConfig → AllocatorOptions → Operation
  disconnected : ℕ → Operation
  call : ℕ → ℕ → Option RpcMessage → Option ℕ → Option CallDone → Operation
  call_with_param : Option CallParams → Operation
  completed : ℕ → ℕ → Operation
  call_rndv : ℕ → ℕ → Option MessageInfo → Option ℕ → Option CallDone → Operation
  call_rndv_iov : ℕ → ℕ → Option MessageInfoIov → Option ℕ → Option CallDone → Operation
  read write : ℕ → Option Request → Option CallDone → Operation
  read_sgl write_sgl : ℕ → Option SglRequest → Option CallDone → Operation
  timeout : ℕ → ℤ → Operation

-- The state behind an operation; its answer does not matter here.
unfoldable pub perform : Operation → World → World
perform (create ip port server c) w = (server_create_with_cfg ip port server c w).1
perform (add_service server s) w = (server_add_service server s w).1
perform (add_rndv_service server s) w = (server_add_rndv_service server s w).1
perform (start server) w = (server_start server w).1
perform (destroy server) w = (server_destroy server w).1
perform (receive ctx) w = (receive_handle ctx w).1
perform (receive_rndv ctx) w = (rndv_receive_handler ctx w).1
perform (reply ctx id m d) w = (server_reply ctx id m d w).1
perform (reply_rndv ctx id m d) w = (server_reply_rndv ctx id m d w).1
perform (replied arg ctx) w = (response_call_back arg ctx w).1
perform (connect ip port client c o) w = (connect_with_cfg ip port client c o w).1
perform (disconnected client) w = (disconnect client w).1
perform (call client id m rsp d) w = (client_call client id m rsp d w).1
perform (call_with_param params) w = (client_call_with_param params w).1
perform (completed arg ctx) w = (ock_rpc_callback_func arg ctx w).1
perform (call_rndv client id m rsp d) w = (client_call_rndv client id m rsp d w).1
perform (call_rndv_iov client id m rsp d) w = (client_call_rndv_iov client id m rsp d w).1
perform (read client req d) w = (rpc_read client req d w).1
perform (write client req d) w = (rpc_write client req d w).1
perform (read_sgl client req d) w = (rpc_read_sgl client req d w).1
perform (write_sgl client req d) w = (rpc_write_sgl client req d w).1
perform (timeout client t) w = (set_timeout client t w).1

pub data Step : World → World → Type 0 where
  step : (op : Operation) (w : World) → Step w (perform op w)

-- The worlds that a run of the program reaches.
pub data Reach (w : World) : World → Type 0 where
  started : Reach w w
  then_step : {u v : World} → Reach w u → Step u v → Reach w v
