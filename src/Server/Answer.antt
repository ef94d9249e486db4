-- ===== src/Server/Answer.antt =====
-- OckRpcServerReply and OckRpcServerReplyRndv of src/hcom4db.cpp: an answer to a request, whose
-- completion ResponseCallBack reports to the user.
pub mod Owned
use hcom4db.Base.{ℕ, ◌-◌, ◌^◌, ℤ, Bool, true, false, Option, none, some, if◌then◌else◌, ltb}
use hcom4db.Hcom.Types.{
  CallDone, Callback, ContextType, Func, Message, OpInfo, RpcMessage, zero_op_info, ock_rpc_err,
  ock_rpc_err_invalid_param,
}
use hcom4db.Hcom.Channel.{channel_post_response, channel_post_response_raw}
use hcom4db.Hcom.Context.{
  service_get_channel, service_get_context_type, service_get_rsp_ctx, service_rndv_reply,
}
use hcom4db.Hcom.World.{M, Reply, pure, ◌>>=◌, ◌>>◌, unless_ok, or_return}
use hcom4db.Client.Async.{as_err, give_info, runs, told_to}
use hcom4db.Client.Call.{message_of}

-- `none` is a null reply, or one longer than UINT32_MAX.
unfoldable pub checked_reply : Option RpcMessage → Option Message
checked_reply none = none
checked_reply (some reply) = if ltb (2 ^ 32 - 1) reply.len then none else some (message_of reply)

-- A raw request gets a raw response.
unfoldable pub post_reply : ContextType → ℕ → ℕ → Message → Callback → M Reply
unfolding channel_post_response_raw channel_post_response
post_reply ContextType.service_received_raw channel rsp_ctx req cb =
    channel_post_response_raw channel rsp_ctx req (some cb)
post_reply _ channel rsp_ctx req cb =
    channel_post_response channel rsp_ctx zero_op_info req (some cb)

unfoldable pub send_reply : ℕ → Message → Option CallDone → M ℤ
unfolding service_get_channel service_get_rsp_ctx service_get_context_type
send_reply ctx req completion = do
  channel ← service_get_channel ctx
  unless_ok channel.ret ock_rpc_err do
    rsp_ctx ← service_get_rsp_ctx ctx
    unless_ok rsp_ctx.ret ock_rpc_err do
      ctx_type ← service_get_context_type ctx
      unless_ok ctx_type.ret ock_rpc_err (
          give_info (told_to completion)
            (λ addr.
              post_reply ctx_type.context_type channel.out rsp_ctx.out req
                (runs Func.response_call_back addr))
            as_err)

-- The message id is not used.
unfoldable pub server_reply : ℕ → ℕ → Option RpcMessage → Option CallDone → M ℤ
server_reply ctx msg_id reply completion =
    or_return (checked_reply reply) ock_rpc_err_invalid_param λ req. send_reply ctx req completion

unfoldable pub server_reply_rndv : ℕ → ℕ → Option RpcMessage → Option CallDone → M ℤ
unfolding service_rndv_reply
server_reply_rndv ctx msg_id reply completion =
    or_return (checked_reply reply) ock_rpc_err_invalid_param λ rsp.
      give_info (told_to completion)
        (λ addr. service_rndv_reply ctx zero_op_info rsp (some (runs Func.response_call_back addr)))
        as_err
