-- ===== src/Examples/Delivery.antt =====
-- Five messages in their places, and on their way to a handler.
use hcom4db.Base.{ℤ, ◌≡◌, refl, true, List, ◌∷◌, some, arith}
use hcom4db.Base.Maps.{assign, lookup}
use hcom4db.Client.Pack.{
  append_messages, pack_many, pack_req_info, set_one_request, set_req_info, set_requests,
}
use hcom4db.Client.Blocks.{mem_alloc}
use hcom4db.Client.Pack.Packed.{empty_request}
use hcom4db.Client.Pack.Placed.InOrder.{InOrder, pack_req_info-InOrder}
use hcom4db.Client.Pack.Sizes.{sum_len}
use hcom4db.Hcom.Call.{Call, symbol}
use hcom4db.Client.Async.Given.{carried}
use hcom4db.Client.Blocks.{CanFree}
use hcom4db.Client.Call.{
  any_too_long, call_async_sgl, call_with_messages, callback_to, client_call_with_param,
  post_async_sgl, request_addresses, send_packed,
}
use hcom4db.Hcom.Channel.{channel_async_call_raw_sgl}
use hcom4db.Hcom.Context.{service_get_context_type, service_get_result}
use hcom4db.Client.Callback.{int_of, ock_rpc_callback_func}
use hcom4db.Client.Callback.Completed.{Ends}
use hcom4db.Program.Settled.{Settled, ock_rpc_callback_func-settles}
use hcom4db.Hcom.Types.{SglRequest, ContextType, ock_rpc_ok}
use hcom4db.Hcom.World.{
  Event, Reply, World, invoke_int, invoke_value, library, load_msg_id, no_reply,
}
use hcom4db.Program.Delivered.{
  Arrives, IsContiguous, sent_bytes, sent_id, receive_handle-pack_req_info,
}
use hcom4db.Server.{checked_service, find_server, receive_handle, server_add_service}
use hcom4db.Server.Received.{handled}
use hcom4db.Server.Registered.{accepts}
use hcom4db.Examples.Answers.{answers-BoundedCopies}
use hcom4db.Examples.Client.{
  async-ok, async_params, completing, five-Short, five_messages, ready, ready-Calls, ready-packs,
  user_done,
}
use hcom4db.Examples.Server.{serving, svc}

pack_req_info-InOrder_example :
    let r = pack_req_info 9 five_messages 5 42 empty_request ready in
    InOrder five_messages 42 5 ready r.1 r.0.1
pack_req_info-InOrder_example =
    pack_req_info-InOrder 9 five_messages 5 42 ready answers-BoundedCopies five-Short ready-packs

-- A raw message of 17 bytes at 500, with 42 in front.
abbrev hands_over : List Event → Reply
hands_over (library (Call.service_get_message_data_len _) ∷ t) = record (no_reply ock_rpc_ok) {
  out = 17;
}
hands_over (library (Call.service_get_context_type _) ∷ t) = record (no_reply ock_rpc_ok) {
  context_type = ContextType.service_received_raw;
}
hands_over (load_msg_id _ ∷ t) = record (no_reply ock_rpc_ok) { out = 42 }
hands_over t = record (no_reply ock_rpc_ok) { out = 500 }

abbrev receiving : World
receiving = record (server_add_service 5 (some svc) serving).1 { lib = hands_over }

accepted : accepts serving 5 svc ≡ true
unfolding find_server
accepted = refl

abbrev five_packed : (ℤ × SglRequest) × World
five_packed = pack_req_info 9 five_messages 5 42 empty_request ready

arrives : Arrives 8 500 (sent_bytes five_packed) (sent_id five_packed) receiving
unfolding pack_req_info mem_alloc pack_many set_req_info set_requests set_one_request assign
    append_messages sum_len invoke_int invoke_value symbol lookup server_add_service checked_service
    find_server
arrives = record {
  there = refl;
  present = refl;
  long = refl;
  len_u32 = omega arith;
  known = refl;
  raw = refl;
  reads = refl;
}

receive_handle-pack_req_info_example :
    let r = receive_handle 8 receiving in
    (r.0 ≡ ock_rpc_ok)
    × (handled r.1.trace ≡ (900, 8, record { data_ptr = 502; len = 15 }) ∷ handled receiving.trace)
    × InOrder five_messages 42 5 ready five_packed.1 five_packed.0.1
    × IsContiguous five_messages 5 five_packed.0.1
unfolding pack_req_info mem_alloc invoke_int lookup symbol pack_many set_req_info set_requests
    set_one_request assign append_messages sum_len
receive_handle-pack_req_info_example =
    receive_handle-pack_req_info 9 five_messages 5 5 8 500 svc ready serving receiving
      answers-BoundedCopies five-Short ready-packs accepted refl arrives

-- The library reports the end of the asynchronous call of the five messages.
abbrev sent : World
sent = (client_call_with_param (some async_params) ready).1

abbrev ending : World
ending = record completing { cb_infos = sent.cb_infos }

ending-Ends : Ends 8 ending
unfolding service_get_result service_get_context_type invoke_int symbol lookup
ending-Ends = record { result_read = refl; type_read = refl; two_sided = refl }

ending-CanFree : CanFree ending
unfolding lookup
ending-CanFree = refl

sent-carried : carried sent.trace ≡ some (callback_to 659456)
unfolding client_call_with_param call_with_messages any_too_long send_packed call_async_sgl
    request_addresses post_async_sgl channel_async_call_raw_sgl pack_req_info mem_alloc invoke_int
    lookup symbol pack_many set_req_info set_requests set_one_request assign append_messages
sent-carried = refl

-- The client still has its allocator.
ock_rpc_callback_func-settles_example :
    Settled ready sent ending
      (ock_rpc_callback_func 659456 8 ending).1
      9
      user_done
      (int_of (service_get_result 8 ending).0.out)
ock_rpc_callback_func-settles_example =
    ock_rpc_callback_func-settles async_params five_messages user_done 659456 8 ready ending
      ready-Calls refl ending-CanFree ending-Ends async-ok sent-carried refl refl
