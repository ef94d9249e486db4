-- ===== src/Client/OneSided.antt =====
-- OckRpcRead, OckRpcReadSgl, OckRpcWrite and OckRpcWriteSgl of src/hcom4db.cpp. A null `cb` asks for
-- a synchronous operation.
use hcom4db.Base.{ℕ, ℤ, Option, none, some}
use hcom4db.Hcom.Types.{CallDone, Func, Request, SglRequest, ock_rpc_err_invalid_param}
use hcom4db.Hcom.Channel.{channel_read, channel_read_sgl, channel_write, channel_write_sgl}
use hcom4db.Hcom.World.{M, pure, ◌>>=◌}
use hcom4db.Client.Async.{as_is, give_info, runs, told_to}

unfoldable pub rpc_read : ℕ → Option Request → Option CallDone → M ℤ
unfolding channel_read
rpc_read client none cb = pure ock_rpc_err_invalid_param
rpc_read client (some req) none = do r ← channel_read client req none; pure r.ret
rpc_read client (some req) (some d) =
    give_info (told_to (some d))
      (λ addr. channel_read client req (some (runs Func.ock_rpc_callback_func addr))) as_is

unfoldable pub rpc_read_sgl : ℕ → Option SglRequest → Option CallDone → M ℤ
unfolding channel_read_sgl
rpc_read_sgl client req none = do r ← channel_read_sgl client req none; pure r.ret
rpc_read_sgl client req (some d) =
    give_info (told_to (some d))
      (λ addr. channel_read_sgl client req (some (runs Func.ock_rpc_callback_func addr))) as_is

unfoldable pub rpc_write : ℕ → Option Request → Option CallDone → M ℤ
unfolding channel_write
rpc_write client none cb = pure ock_rpc_err_invalid_param
rpc_write client (some req) none = do r ← channel_write client req none; pure r.ret
rpc_write client (some req) (some d) =
    give_info (told_to (some d))
      (λ addr. channel_write client req (some (runs Func.ock_rpc_callback_func addr))) as_is

unfoldable pub rpc_write_sgl : ℕ → Option SglRequest → Option CallDone → M ℤ
unfolding channel_write_sgl
rpc_write_sgl client req none = do r ← channel_write_sgl client req none; pure r.ret
rpc_write_sgl client req (some d) =
    give_info (told_to (some d))
      (λ addr. channel_write_sgl client req (some (runs Func.ock_rpc_callback_func addr))) as_is
