-- ===== src/Examples/Async.antt =====
-- Asynchronous operations and replies, at concrete inputs.
use hcom4db.Base.{◌≡◌, refl, [], ◌∷◌, none, some, arith}
use hcom4db.Base.Maps.{lookup}
use hcom4db.Client.Async.{give_info, runs, settle}
use hcom4db.Client.Async.Given.{FreshInfos, Given, Outcome}
use hcom4db.Client.Async.Owned.{one_sided-Outcome, rndv-Outcome}
use hcom4db.Client.Callback.{response_call_back}
use hcom4db.Client.Callback.Quiet.{completions}
use hcom4db.Client.OneSided.{rpc_read, rpc_read_sgl, rpc_write, rpc_write_sgl}
use hcom4db.Client.Rndv.{MessageInfo, MessageInfoIov, client_call_rndv, client_call_rndv_iov}
use hcom4db.Hcom.Call.{Call, symbol}
use hcom4db.Hcom.Channel.{channel_post_response, channel_post_response_raw}
use hcom4db.Hcom.Context.{service_get_channel, service_get_context_type, service_get_rsp_ctx}
use hcom4db.Client.Callback.{int_of}
use hcom4db.Hcom.Context.{service_get_result}
use hcom4db.Hcom.Types.{CallDone, Func, Request, RpcMessage, zero_op_info, zero_request}
use hcom4db.Hcom.World.{World, empty_info, invoke_int, library, malloc}
use hcom4db.Server.Answer.{checked_reply, post_reply, send_reply, server_reply, server_reply_rndv}
use hcom4db.Server.Answer.Owned.{reply-Outcome, response_call_back-once, wanted}
use hcom4db.Examples.Answers.{with_functions}

-- The functions of asynchronous operations and of replies.
abbrev sending : World
sending = with_functions (
    "Channel_Read" ∷ "Channel_Write" ∷ "Channel_ReadSgl" ∷ "Channel_WriteSgl"
    ∷ "Channel_AsyncRndvCall" ∷ "Channel_AsyncRndvSglCall" ∷ "Service_GetChannel"
    ∷ "Service_GetRspCtx" ∷ "Service_GetContextType" ∷ "Channel_PostResponse" ∷ "Service_RndvReply"
    ∷ "Service_GetResult" ∷ [])

sending-FreshInfos : FreshInfos sending
sending-FreshInfos t = refl

abbrev tell : CallDone
tell = record { cb = 700; arg = 11 }

abbrev req : Request
req = record zero_request { l_address = 4096; size = 8 }

one_sided-Outcome_example :
    Outcome Func.ock_rpc_callback_func tell sending (rpc_read 9 (some req) (some tell) sending)
    × Outcome Func.ock_rpc_callback_func tell sending (rpc_read_sgl 9 none (some tell) sending)
    × Outcome Func.ock_rpc_callback_func tell sending (rpc_write 9 (some req) (some tell) sending)
    × Outcome Func.ock_rpc_callback_func tell sending (rpc_write_sgl 9 none (some tell) sending)
one_sided-Outcome_example = one_sided-Outcome 9 req none tell sending sending-FreshInfos

abbrev info : MessageInfo
info = record { l_address = 4096; l_key = 1; size = 8 }

abbrev iov : MessageInfoIov
iov = record { count = 2; reqs = some (λ i. info) }

rndv-Outcome_example :
    Outcome Func.ock_rpc_callback_func tell sending
      (client_call_rndv 9 7 (some info) (some 64) (some tell) sending)
    × Outcome Func.ock_rpc_callback_func tell sending
        (client_call_rndv_iov 9 7 (some iov) (some 64) (some tell) sending)
rndv-Outcome_example =
    rndv-Outcome 9 7 (some info) (some iov) (some 64) tell sending sending-FreshInfos

abbrev hello : RpcMessage
hello = record { data_ptr = 100; len = 5 }

reply-Outcome_example :
    Outcome Func.response_call_back tell sending (server_reply 8 7 (some hello) (some tell) sending)
    × Outcome Func.response_call_back tell sending
        (server_reply_rndv 8 7 (some hello) (some tell) sending)
reply-Outcome_example = reply-Outcome 8 7 (some hello) (some tell) sending sending-FreshInfos

-- The world behind a reply that was sent.
abbrev replied : World
replied = (server_reply 8 7 (some hello) (some tell) sending).1

replied-Given : Given Func.response_call_back (wanted (some tell)) replied
unfolding server_reply checked_reply send_reply service_get_channel service_get_rsp_ctx
    service_get_context_type give_info settle post_reply channel_post_response
    channel_post_response_raw invoke_int symbol lookup
replied-Given = record {
  at = 200704;
  info = record empty_info { cb = 700; arg = 11 };
  call =
      Call.channel_post_response 4096 69632 zero_op_info (record { data_ptr = 100; size = 5 })
        (some (runs Func.response_call_back 200704));
  before =
      malloc 48
      ∷ library (Call.service_get_context_type 8)
      ∷ library (Call.service_get_rsp_ctx 8)
      ∷ library (Call.service_get_channel 8)
      ∷ [];
  there = λ e. absurd (omega arith);
  found = refl;
  cb = refl;
  arg = refl;
  made = refl;
  carries = refl;
}

response_call_back-once_example :
    let v = (response_call_back replied-Given.at 3 replied).1 in
    (v.cb_infos replied-Given.at ≡ none)
    × (completions v.trace
        ≡ (tell.cb, int_of (service_get_result 3 replied).0.out, tell.arg)
          ∷ completions replied.trace)
response_call_back-once_example =
    response_call_back-once (some tell) replied replied 3 replied-Given replied-Given.found
