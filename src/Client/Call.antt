-- ===== src/Client/Call.antt =====
-- The two-sided calls of src/hcom4db.cpp: OckRpcClientCall with OckRpcCallSync and OckRpcCallASync,
-- and OckRpcClientCallWithParam with OckRpcCallSyncSgl and OckRpcCallAsyncSgl. A response is the
-- address of the user's OckRpcMessage.
pub mod Released
pub mod Handed
use hcom4db.Base.{
  ℕ, zero, suc, ◌+◌, ◌-◌, ◌*◌, ◌^◌, ◌==◌, ℤ, Bool, true, false, ◌||◌, List, [], ◌∷◌, Option, none,
  some, get_or, ltb, leb, if◌then◌else◌, u32, to_i16,
}
use hcom4db.Hcom.Types.{
  AsyncCbInfo, RpcMessage, Message, OpInfo, CallDone, Callback, Func, Request, SglRequest,
  zero_op_info, zero_request, ock_rpc_ok, ock_rpc_err, ock_rpc_err_invalid_param,
}
use hcom4db.Hcom.Channel.{
  channel_sync_call, channel_async_call, channel_post_send, channel_sync_call_raw_sgl,
  channel_async_call_raw_sgl, channel_post_send_raw_sgl,
}
use hcom4db.Hcom.World.{
  M, World, Reply, free, malloc, pure, ◌>>=◌, ◌>>◌, gets, modify, ask, emit, is_ok, unless_ok,
  update,
}
use hcom4db.Client.Blocks.{free_requests}
use hcom4db.Client.Callback.{free_info}
use hcom4db.Client.Pack.{pack_req_info}
use hcom4db.Client.Pack.Packed.{empty_request}

-- The Service_Message of the user's message.
abbrev pub message_of : RpcMessage → Message
message_of m = record { data_ptr = m.data_ptr; size = u32 m.len }

abbrev pub store_response : ℕ → Reply → M (Unit {0})
store_response p r = modify (λ w. record w {
  rpc_messages = update w.rpc_messages p (record { data_ptr = r.out; len = r.size });
})

unfoldable pub call_sync : ℕ → OpInfo → Message → Option ℕ → M ℤ
call_sync client req_op_info request none = do
  r ← channel_post_send client req_op_info request none
  unless_ok r.ret ock_rpc_err (pure ock_rpc_ok)
call_sync client req_op_info request (some p) = do
  response ← gets (λ w. w.rpc_messages p)
  r ← channel_sync_call client req_op_info request zero_op_info (message_of response)
  unless_ok r.ret ock_rpc_err do store_response p r; pure ock_rpc_ok

-- sizeof(AsyncCbInfo) and sizeof(uintptr_t).
abbrev pub sizeof_info : ℕ
sizeof_info = 48

abbrev pub sizeof_pointer : ℕ
sizeof_pointer = 8

-- `malloc` of an AsyncCbInfo: the address, 0 where it fails, and the indeterminate contents.
abbrev pub malloc_info : M Reply
malloc_info = ask (malloc sizeof_info)

abbrev pub store_info : ℕ → AsyncCbInfo → M (Unit {0})
store_info addr info = modify (λ w. record w { cb_infos = update w.cb_infos addr (some info) })

abbrev pub callback_to : ℕ → Callback
callback_to addr = record { cb = Func.ock_rpc_callback_func; arg = addr }

unfoldable pub call_async : ℕ → OpInfo → Message → Option ℕ → CallDone → M ℤ
call_async client req_op_info request response completion = do
  block ← malloc_info
  if block.out == 0 then pure ock_rpc_err else (do
    store_info block.out (record block.garbage {
      cb = completion.cb;
      arg = completion.arg;
      req_addr = none;
      req_cnt = 0;
      rsp = response;
    })
    let cb = some (callback_to block.out)
    r ← elim response [
      | none ↦ channel_post_send client req_op_info request cb
      | some _ ↦ channel_async_call client req_op_info request cb
    ]
    if is_ok r.ret then pure ock_rpc_ok else (free_info block.out >> pure ock_rpc_err))

-- `none` is a null request; a null `done` asks for a synchronous call. `timeout` is an int16_t.
unfoldable pub client_call : ℕ → ℕ → Option RpcMessage → Option ℕ → Option CallDone → M ℤ
client_call client msg_id none response completion = pure ock_rpc_err_invalid_param
client_call client msg_id (some request) response completion =
    if ltb (2 ^ 32 - 1) request.len then pure ock_rpc_err_invalid_param else do
      timeout ← gets (λ w. w.timeout_time)
      let info : OpInfo = record { op_code = msg_id; timeout = to_i16 timeout }
      ret ← elim completion [
        | none ↦ call_sync client info (message_of request) response
        | some d ↦ call_async client info (message_of request) response d
      ]
      unless_ok ret ock_rpc_err (pure ock_rpc_ok)

unfoldable pub call_sync_sgl : ℕ → SglRequest → Option ℕ → M ℤ
call_sync_sgl client request none = do
  r ← channel_post_send_raw_sgl client request none
  unless_ok r.ret ock_rpc_err (pure ock_rpc_ok)
call_sync_sgl client request (some p) = do
  response ← gets (λ w. w.rpc_messages p)
  r ← channel_sync_call_raw_sgl client request (message_of response)
  unless_ok r.ret ock_rpc_err do store_response p r; pure ock_rpc_ok

-- `reqAddr[i] = iov[i].lAddress` for `n` entries from `from`.
unfoldable pub request_addresses : ℕ → ℕ → List Request → List ℕ
request_addresses from zero iov = []
request_addresses from (suc n) iov =
    (get_or iov from zero_request).l_address ∷ request_addresses (from + 1) n iov

unfoldable pub post_async_sgl : ℕ → SglRequest → Option ℕ → ℕ → ℕ → M ℤ
post_async_sgl client request response info_addr array = do
  let cb = some (callback_to info_addr)
  r ← elim response [
    | none ↦ channel_post_send_raw_sgl client request cb
    | some _ ↦ channel_async_call_raw_sgl client request cb
  ]
  if is_ok r.ret
      then pure ock_rpc_ok
      else (do emit (free array); free_info info_addr; pure ock_rpc_err)

unfoldable pub call_async_sgl : ℕ → SglRequest → Option ℕ → CallDone → M ℤ
unfolding request_addresses
call_async_sgl client request response completion = do
  block ← malloc_info
  if block.out == 0 then pure ock_rpc_err else (do
    array ← ask (malloc (sizeof_pointer * request.iov_count))
    let addrs = request_addresses 0 request.iov_count request.iov
    store_info block.out (record {
      cb = completion.cb;
      arg = completion.arg;
      client = client;
      rsp = response;
      req_addr = if array.out == 0 then none else some (array.out, addrs);
      req_cnt = request.iov_count;
    })
    if array.out == 0
        then free_info block.out >> pure ock_rpc_err
        else post_async_sgl client request response block.out array.out)

-- OckRpcClientCallParams, the fields that the code reads; `req_msgs` is null or an array.
pub record CallParams : Type 0 where
  pub client : ℕ
  pub msg_id : ℕ
  pub req_count : ℕ
  pub req_msgs : Option (ℕ → RpcMessage)
  pub rsp_msgs : Option ℕ
  pub done : Option CallDone

abbrev pub max_call_with_params_count : ℕ
max_call_with_params_count = 8

-- One of `n` messages from `i` on is longer than a segment.
unfoldable pub any_too_long : (ℕ → RpcMessage) → ℕ → ℕ → ℕ → Bool
any_too_long msgs seg i zero = false
any_too_long msgs seg i (suc n) = ltb seg (msgs i).len || any_too_long msgs seg (i + 1) n

unfoldable pub send_packed : CallParams → SglRequest → M ℤ
send_packed params service_req = elim params.done [
  | none ↦ (do
    ret ← call_sync_sgl params.client service_req params.rsp_msgs
    free_requests params.client service_req.iov 0 service_req.iov_count
    unless_ok ret ock_rpc_err (pure ock_rpc_ok))
  | some d ↦ (do
    ret ← call_async_sgl params.client service_req params.rsp_msgs d
    unless_ok ret ock_rpc_err (pure ock_rpc_ok))
]

unfoldable pub call_with_messages : CallParams → (ℕ → RpcMessage) → M ℤ
call_with_messages params msgs =
    if ltb max_call_with_params_count params.req_count || leb params.req_count 0
    then pure ock_rpc_err_invalid_param
    else do
      seg ← gets (λ w. w.options.mr_send_receive_seg_size)
      if any_too_long msgs seg 0 params.req_count then pure ock_rpc_err_invalid_param else do
        (ret, service_req) ←
            pack_req_info params.client msgs params.req_count params.msg_id empty_request
        unless_ok ret ock_rpc_err (send_packed params service_req)

unfoldable pub client_call_with_param : Option CallParams → M ℤ
client_call_with_param none = pure ock_rpc_err_invalid_param
client_call_with_param (some params) = elim params.req_msgs [
  | none ↦ pure ock_rpc_err_invalid_param
  | some msgs ↦ call_with_messages params msgs
]
