-- ===== src/Program/Kept.antt =====
-- The operations of src/hcom4db.cpp that leave the maps of the program alone.
use hcom4db.Base.{ℕ, refl, ℤ, Option, none, some}
use hcom4db.Hcom.Call.{Call}
use hcom4db.Hcom.Types.{AsyncCbInfo, CallDone, Request, RpcMessage, SglRequest, ock_rpc_err}
use hcom4db.Hcom.World.{
  M, World, Reply, ask, emit, free, malloc, done, dangling, modify, no_reply, invoke_int,
}
use hcom4db.Server.Kept.{
  others, others-Keeps, Kept, Keeps, Kept-refl, event-Kept, keeping, library-Keeps,
}
use hcom4db.Hcom.Channel.{channel_read, channel_read_sgl, channel_write, channel_write_sgl}
use hcom4db.Client.Async.{give_info, settle}
use hcom4db.Client.OneSided.{rpc_read, rpc_read_sgl, rpc_write, rpc_write_sgl}

pub invoke_int-Keeps : (c : Call) → Keeps (invoke_int c)
unfolding invoke_int
invoke_int-Keeps c = library-Keeps c (no_reply ock_rpc_err)

pub malloc-Keeps : (n : ℕ) → Keeps (ask (malloc n))
malloc-Keeps n = record { kept = λ w. event-Kept (malloc n) w (λ m h. refl) }

pub free-Keeps : (a : ℕ) → Keeps (emit (free a))
free-Keeps a = record { kept = λ w. event-Kept (free a) w (λ m h. refl) }

pub done-Keeps : (cb : ℕ) (r : ℤ) (arg : ℕ) → Keeps (emit (done cb r arg))
done-Keeps cb r arg = record { kept = λ w. event-Kept (done cb r arg) w (λ m h. refl) }

pub dangling-Keeps : (a : ℕ) → Keeps (emit (dangling a))
dangling-Keeps a = record { kept = λ w. event-Kept (dangling a) w (λ m h. refl) }

pub infos-Keeps :
    (f : World → ℕ → Option AsyncCbInfo) → Keeps (modify (λ w. record w { cb_infos = f w }))
infos-Keeps f = others-Keeps (λ w. record (others w) { cb_infos = f w })

pub messages-Keeps :
    (f : World → ℕ → RpcMessage) → Keeps (modify (λ w. record w { rpc_messages = f w }))
messages-Keeps f = others-Keeps (λ w. record (others w) { rpc_messages = f w })

pub time-Keeps : (f : World → ℤ) → Keeps (modify (λ w. record w { timeout_time = f w }))
time-Keeps f = others-Keeps (λ w. record (others w) { timeout_time = f w })

pub ruleset client_steps = (
  keeping, invoke_int-Keeps, malloc-Keeps, free-Keeps, done-Keeps, dangling-Keeps, infos-Keeps,
  messages-Keeps, time-Keeps,
)

settle-Keeps : (a : ℕ) (failed : ℤ → ℤ) (ret : ℤ) → Keeps (settle a failed ret)
unfolding settle
settle-Keeps a failed ret = search client_steps depth 10

pub give_info-Keeps :
    (fill : AsyncCbInfo → AsyncCbInfo) (post : ℕ → M Reply) (failed : ℤ → ℤ)
    → ((a : ℕ) → Keeps (post a))
    → Keeps (give_info fill post failed)
unfolding give_info
give_info-Keeps fill post failed posts = search (client_steps, settle-Keeps, posts) depth 12

pub rpc_read-Keeps :
    (client : ℕ) (req : Option Request) (cb : Option CallDone) → Keeps (rpc_read client req cb)
unfolding rpc_read channel_read
rpc_read-Keeps client none cb = search client_steps
rpc_read-Keeps client (some req) none = search client_steps
rpc_read-Keeps client (some req) (some d) = search (client_steps, give_info-Keeps)

pub rpc_write-Keeps :
    (client : ℕ) (req : Option Request) (cb : Option CallDone) → Keeps (rpc_write client req cb)
unfolding rpc_write channel_write
rpc_write-Keeps client none cb = search client_steps
rpc_write-Keeps client (some req) none = search client_steps
rpc_write-Keeps client (some req) (some d) = search (client_steps, give_info-Keeps)

pub rpc_read_sgl-Keeps :
    (client : ℕ) (req : Option SglRequest) (cb : Option CallDone)
    → Keeps (rpc_read_sgl client req cb)
unfolding rpc_read_sgl channel_read_sgl
rpc_read_sgl-Keeps client req none = search client_steps
rpc_read_sgl-Keeps client req (some d) = search (client_steps, give_info-Keeps)

pub rpc_write_sgl-Keeps :
    (client : ℕ) (req : Option SglRequest) (cb : Option CallDone)
    → Keeps (rpc_write_sgl client req cb)
unfolding rpc_write_sgl channel_write_sgl
rpc_write_sgl-Keeps client req none = search client_steps
rpc_write_sgl-Keeps client req (some d) = search (client_steps, give_info-Keeps)
