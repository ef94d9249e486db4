-- ===== src/Client/Own/Calling.antt =====
-- OckRpcClientCallWithParam of src/hcom4db.cpp, and the allocator that it uses.
use hcom4db.Base.{ℕ, Option, none, some, Option-cases, inl, inr}
use hcom4db.Client.Call.{
  CallParams, call_async_sgl, call_sync_sgl, call_with_messages, client_call_with_param,
  post_async_sgl, send_packed,
}
use hcom4db.Client.Own.{Own, owning, pure-Own}
use hcom4db.Client.Own.Packing.{free_requests-Own, pack_req_info-Own}
use hcom4db.Hcom.Channel.{
  channel_async_call_raw_sgl, channel_post_send_raw_sgl, channel_sync_call_raw_sgl,
}
use hcom4db.Hcom.Types.{CallDone, RpcMessage, SglRequest}

call_sync_sgl-Own :
    {a : ℕ} (client : ℕ) (r : SglRequest) (rsp : Option ℕ)
    → Own client a (call_sync_sgl client r rsp)
unfolding call_sync_sgl channel_post_send_raw_sgl channel_sync_call_raw_sgl
call_sync_sgl-Own client r none = search owning depth 10
call_sync_sgl-Own client r (some p) = search owning depth 12

post_async_sgl-Own :
    {a : ℕ} (client : ℕ) (r : SglRequest) (rsp : Option ℕ) (at array : ℕ)
    → Own client a (post_async_sgl client r rsp at array)
unfolding post_async_sgl channel_post_send_raw_sgl channel_async_call_raw_sgl
post_async_sgl-Own client r none at array = search owning depth 14
post_async_sgl-Own client r (some p) at array = search owning depth 14

call_async_sgl-Own :
    {a : ℕ} (client : ℕ) (r : SglRequest) (rsp : Option ℕ) (d : CallDone)
    → Own client a (call_async_sgl client r rsp d)
unfolding call_async_sgl
call_async_sgl-Own client r rsp d = search (owning, post_async_sgl-Own) depth 14

send_packed-Own :
    {a : ℕ} (params : CallParams) (r : SglRequest) → Own params.client a (send_packed params r)
unfolding send_packed
send_packed-Own params r = elim (Option-cases params.done) [
  | inl sync ↦ rw sync (search (owning, call_sync_sgl-Own, free_requests-Own) depth 12)
  | inr (d, async) ↦ rw async (search (owning, call_async_sgl-Own) depth 10)
]

call_with_messages-Own :
    {a : ℕ} (params : CallParams) (msgs : ℕ → RpcMessage)
    → Own params.client a (call_with_messages params msgs)
unfolding call_with_messages
call_with_messages-Own params msgs = search (owning, pack_req_info-Own, send_packed-Own) depth 14

pub client_call_with_param-Own :
    (a : ℕ) (params : CallParams) → Own params.client a (client_call_with_param (some params))
unfolding client_call_with_param
client_call_with_param-Own a params = elim (Option-cases params.req_msgs) [
  | inl missing ↦ rw missing (pure-Own _)
  | inr (msgs, there) ↦ rw there (call_with_messages-Own params msgs)
]
