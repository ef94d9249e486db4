-- ===== src/Program/Calls.antt =====
-- The calls, replies and callbacks of src/hcom4db.cpp leave the maps of the program alone.
use hcom4db.Base.{ℕ, ◌==◌, ℤ, Option, none, some, if◌then◌else◌}
use hcom4db.Hcom.Channel.{
  channel_async_call, channel_async_rndv_call, channel_async_rndv_sgl_call, channel_post_response,
  channel_post_response_raw, channel_post_send, channel_set_one_side_timeout,
  channel_set_two_side_timeout, channel_sync_call, channel_sync_rndv_call,
  channel_sync_rndv_sgl_call,
}
use hcom4db.Hcom.Context.{
  service_get_channel, service_get_context_type, service_get_result, service_get_rsp_ctx,
  service_rndv_reply,
}
use hcom4db.Hcom.Types.{
  AsyncCbInfo, CallDone, Callback, ContextType, Message, OpInfo, Request, RpcMessage, SglRequest,
}
use hcom4db.Hcom.World.{Reply, M, dangling, emit, pure, ◌>>=◌, ◌>>◌}
use hcom4db.Server.Kept.{Keeps, bind-Keeps, gets-Keeps}
use hcom4db.Client.Call.{call_async, call_sync, client_call}
use hcom4db.Client.Callback.{int_of, free_info, report, response_call_back}
use hcom4db.Client.Rndv.{
  MessageInfo, MessageInfoIov, call_rndv_iov_with, call_rndv_with, client_call_rndv,
  client_call_rndv_iov, store_answer,
}
use hcom4db.Client.Timeout.{set_timeout}
use hcom4db.Server.Answer.{post_reply, send_reply, server_reply, server_reply_rndv}
use hcom4db.Program.Kept.{client_steps, dangling-Keeps, give_info-Keeps}

store_answer-Keeps : (p : ℕ) (r : Reply) → Keeps (store_answer p r)
unfolding store_answer
store_answer-Keeps p r = search client_steps

call_rndv_with-Keeps :
    (client : ℕ) (info : OpInfo) (req : Request) (rsp : ℕ) (d : Option CallDone)
    → Keeps (call_rndv_with client info req rsp d)
unfolding call_rndv_with channel_sync_rndv_call channel_async_rndv_call
call_rndv_with-Keeps client info req rsp none = search (client_steps, store_answer-Keeps) depth 10
call_rndv_with-Keeps client info req rsp (some d) = search (client_steps, give_info-Keeps)

pub client_call_rndv-Keeps :
    (client id : ℕ) (m : Option MessageInfo) (rsp : Option ℕ) (d : Option CallDone)
    → Keeps (client_call_rndv client id m rsp d)
unfolding client_call_rndv
client_call_rndv-Keeps client id none rsp d = search client_steps
client_call_rndv-Keeps client id (some m) none d = search client_steps
client_call_rndv-Keeps client id (some m) (some p) d = search (client_steps, call_rndv_with-Keeps)

call_rndv_iov_with-Keeps :
    (client : ℕ) (info : OpInfo) (req : SglRequest) (rsp : ℕ) (d : Option CallDone)
    → Keeps (call_rndv_iov_with client info req rsp d)
unfolding call_rndv_iov_with channel_sync_rndv_sgl_call channel_async_rndv_sgl_call
call_rndv_iov_with-Keeps client info req rsp none =
    search (client_steps, store_answer-Keeps) depth 10
call_rndv_iov_with-Keeps client info req rsp (some d) = search (client_steps, give_info-Keeps)

pub client_call_rndv_iov-Keeps :
    (client id : ℕ) (m : Option MessageInfoIov) (rsp : Option ℕ) (d : Option CallDone)
    → Keeps (client_call_rndv_iov client id m rsp d)
unfolding client_call_rndv_iov
client_call_rndv_iov-Keeps client id m rsp d = search (client_steps, call_rndv_iov_with-Keeps)

post_reply-Keeps :
    (t : ContextType) (channel rsp_ctx : ℕ) (req : Message) (cb : Callback)
    → Keeps (post_reply t channel rsp_ctx req cb)
unfolding post_reply channel_post_response channel_post_response_raw
post_reply-Keeps ContextType.service_received_raw channel rsp_ctx req cb = search client_steps
post_reply-Keeps _ channel rsp_ctx req cb = search client_steps

send_reply-Keeps : (ctx : ℕ) (req : Message) (d : Option CallDone) → Keeps (send_reply ctx req d)
unfolding send_reply service_get_channel service_get_rsp_ctx service_get_context_type
send_reply-Keeps ctx req d = search (client_steps, give_info-Keeps, post_reply-Keeps) depth 14

pub server_reply-Keeps :
    (ctx id : ℕ) (m : Option RpcMessage) (d : Option CallDone) → Keeps (server_reply ctx id m d)
unfolding server_reply
server_reply-Keeps ctx id m d = search (client_steps, send_reply-Keeps)

pub server_reply_rndv-Keeps :
    (ctx id : ℕ) (m : Option RpcMessage) (d : Option CallDone)
    → Keeps (server_reply_rndv ctx id m d)
unfolding server_reply_rndv service_rndv_reply
server_reply_rndv-Keeps ctx id m d = search (client_steps, give_info-Keeps)

pub set_timeout-Keeps : (client : ℕ) (t : ℤ) → Keeps (set_timeout client t)
unfolding set_timeout channel_set_one_side_timeout channel_set_two_side_timeout
set_timeout-Keeps client t = search client_steps depth 10

call_sync-Keeps :
    (client : ℕ) (info : OpInfo) (m : Message) (rsp : Option ℕ)
    → Keeps (call_sync client info m rsp)
unfolding call_sync channel_post_send channel_sync_call
call_sync-Keeps client info m none = search client_steps
call_sync-Keeps client info m (some p) = search client_steps depth 12

call_async-Keeps :
    (client : ℕ) (info : OpInfo) (m : Message) (rsp : Option ℕ) (d : CallDone)
    → Keeps (call_async client info m rsp d)
unfolding call_async channel_post_send channel_async_call
call_async-Keeps client info m none d = search client_steps depth 14
call_async-Keeps client info m (some p) d = search client_steps depth 14

pub client_call-Keeps :
    (client id : ℕ) (m : Option RpcMessage) (rsp : Option ℕ) (d : Option CallDone)
    → Keeps (client_call client id m rsp d)
unfolding client_call
client_call-Keeps client id none rsp d = search client_steps
client_call-Keeps client id (some m) rsp none = search (client_steps, call_sync-Keeps) depth 10
client_call-Keeps client id (some m) rsp (some d) = search (client_steps, call_async-Keeps) depth 10

report-Keeps : (info : AsyncCbInfo) (r : ℤ) → Keeps (report info r)
unfolding report
report-Keeps info r = search client_steps

-- What ResponseCallBack does with an AsyncCbInfo that it finds.
answer_told : ℕ → ℕ → AsyncCbInfo → M (Unit {0})
answer_told arg ctx info =
    (if info.cb == 0 then pure tt else (do r ← service_get_result ctx; report info (int_of r.out)))
    >> free_info arg

answer_told-Keeps : (arg ctx : ℕ) (info : AsyncCbInfo) → Keeps (answer_told arg ctx info)
unfolding answer_told service_get_result
answer_told-Keeps arg ctx info = search (client_steps, report-Keeps) depth 12

found-Keeps :
    (arg ctx : ℕ) (o : Option AsyncCbInfo)
    → Keeps (elim o [ none ↦ emit (dangling arg) | some i ↦ answer_told arg ctx i ])
found-Keeps arg ctx none = dangling-Keeps arg
found-Keeps arg ctx (some i) = answer_told-Keeps arg ctx i

pub response_call_back-Keeps : (arg ctx : ℕ) → Keeps (response_call_back arg ctx)
unfolding response_call_back answer_told
response_call_back-Keeps arg ctx =
    bind-Keeps (gets-Keeps (λ w. w.cb_infos arg)) (found-Keeps arg ctx)
