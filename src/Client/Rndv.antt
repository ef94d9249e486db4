-- ===== src/Client/Rndv.antt =====
-- OckRpcClientCallRndv and OckRpcClientCallRndvIov of src/hcom4db.cpp. A response is the address of
-- the user's OckRpcMessage; a null `done` asks for a synchronous call.
use hcom4db.Base.{
  ℕ, zero, suc, ◌+◌, ℤ, ◌||◌, List, [], ◌∷◌, Option, none, some, if◌then◌else◌, leb, ltb, to_i16,
}
use hcom4db.Hcom.Types.{
  AsyncCbInfo, CallDone, Func, OpInfo, Request, SglRequest, zero_op_info, zero_request, ock_rpc_ok,
  ock_rpc_err, ock_rpc_err_invalid_param,
}
use hcom4db.Hcom.Channel.{
  channel_async_rndv_call, channel_async_rndv_sgl_call, channel_sync_rndv_call,
  channel_sync_rndv_sgl_call,
}
use hcom4db.Hcom.World.{M, Reply, pure, ◌>>=◌, ◌>>◌, gets, unless_ok, or_return}
use hcom4db.Client.Async.{as_err, give_info, runs}
use hcom4db.Client.Call.{message_of, store_response}

-- OckRpcMessageInfo.
pub record MessageInfo : Type 0 where
  pub l_address : ℕ
  pub l_key : ℕ
  pub size : ℕ

abbrev pub request_of : MessageInfo → Request
request_of m = record zero_request { l_address = m.l_address; l_key = m.l_key; size = m.size }

-- The AsyncCbInfo of a rendezvous call: no blocks of the allocator.
abbrev pub rndv_info : CallDone → ℕ → AsyncCbInfo → AsyncCbInfo
rndv_info d response info = record info {
  cb = d.cb;
  arg = d.arg;
  req_addr = none;
  req_cnt = 0;
  rsp = some response;
}

-- The answer of a synchronous call is the library's.
unfoldable pub store_answer : ℕ → Reply → M ℤ
store_answer response r =
    unless_ok r.ret ock_rpc_err (do store_response response r; pure ock_rpc_ok)

unfoldable pub call_rndv_with : ℕ → OpInfo → Request → ℕ → Option CallDone → M ℤ
unfolding channel_sync_rndv_call channel_async_rndv_call
call_rndv_with client info req response none = do
  old ← gets (λ w. w.rpc_messages response)
  r ← channel_sync_rndv_call client info req zero_op_info (message_of old)
  store_answer response r
call_rndv_with client info req response (some d) =
    give_info (rndv_info d response)
      (λ addr.
        channel_async_rndv_call client info req (some (runs Func.ock_rpc_callback_func addr)))
      as_err

unfoldable pub client_call_rndv : ℕ → ℕ → Option MessageInfo → Option ℕ → Option CallDone → M ℤ
client_call_rndv client msg_id none response completion = pure ock_rpc_err_invalid_param
client_call_rndv client msg_id (some request) none completion = pure ock_rpc_err_invalid_param
client_call_rndv client msg_id (some request) (some response) completion = do
  timeout ← gets (λ w. w.timeout_time)
  call_rndv_with client (record { op_code = msg_id; timeout = to_i16 timeout }) (request_of request)
      response completion

-- OckRpcMessageInfoIov: `reqs` is null or an array.
pub record MessageInfoIov : Type 0 where
  pub count : ℕ
  pub reqs : Option (ℕ → MessageInfo)

abbrev pub max_message_sgl_count : ℕ
max_message_sgl_count = 4

-- OckRpcRndvIovCheckParams: the count, the array and the response where all is well.
unfoldable pub rndv_iov_checked :
    Option MessageInfoIov → Option ℕ → Option (ℕ × (ℕ → MessageInfo) × ℕ)
rndv_iov_checked none response = none
rndv_iov_checked (some request) none = none
rndv_iov_checked (some request) (some response) =
    if ltb max_message_sgl_count request.count || leb request.count 0
    then none
    else elim request.reqs [ none ↦ none | some reqs ↦ some (request.count, reqs, response) ]

-- `n` entries of the array from `i` on.
unfoldable pub rndv_entries : (ℕ → MessageInfo) → ℕ → ℕ → List Request
rndv_entries reqs i zero = []
rndv_entries reqs i (suc n) = request_of (reqs i) ∷ rndv_entries reqs (i + 1) n

unfoldable pub call_rndv_iov_with : ℕ → OpInfo → SglRequest → ℕ → Option CallDone → M ℤ
unfolding channel_sync_rndv_sgl_call channel_async_rndv_sgl_call
call_rndv_iov_with client info req response none = do
  old ← gets (λ w. w.rpc_messages response)
  r ← channel_sync_rndv_sgl_call client info req zero_op_info (message_of old)
  store_answer response r
call_rndv_iov_with client info req response (some d) =
    give_info (rndv_info d response)
      (λ addr.
        channel_async_rndv_sgl_call client info req (some (runs Func.ock_rpc_callback_func addr)))
      as_err

-- Unlike OckRpcClientCallRndv it leaves the timeout zero.
unfoldable pub client_call_rndv_iov :
    ℕ → ℕ → Option MessageInfoIov → Option ℕ → Option CallDone → M ℤ
unfolding rndv_entries
client_call_rndv_iov client msg_id request response completion =
    or_return (rndv_iov_checked request response) ock_rpc_err_invalid_param λ (count, reqs, rsp).
      call_rndv_iov_with client (record zero_op_info { op_code = msg_id })
        (record { iov = rndv_entries reqs 0 count; iov_count = count }) rsp completion
