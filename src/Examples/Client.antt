-- ===== src/Examples/Client.antt =====
-- Calls with several messages, at concrete inputs.
use hcom4db.Base.{
  false, ◌==◌, if◌then◌else◌, ℕ, ◌+◌, ◌≡◌, refl, true, List, [], ◌∷◌, none, some, arith,
}
use hcom4db.Hcom.Types.{RpcMessage, AsyncCbInfo, CallDone}
use hcom4db.Base.Maps.{lookup, assign}
use hcom4db.Hcom.Call.{symbol}
use hcom4db.Hcom.World.{World, is_ok, invoke_int}
use hcom4db.Client.Blocks.{CanFree, mem_alloc, released}
use hcom4db.Client.Own.{UsesOwn}
use hcom4db.Client.Pack.{
  append_messages, pack_many, pack_req_info, set_one_request, set_req_info, set_requests,
}
use hcom4db.Client.Pack.Failed.{asked_size, set_one_request-repeats}
use hcom4db.Client.Pack.Sizes.{Short, sum_len}
use hcom4db.Client.Pack.Packed.{empty_request, Packed, pack_req_info-Packed}
use hcom4db.Client.Callback.{int_of, ock_rpc_callback_func}
use hcom4db.Client.Callback.Completed.{Completed, Ends, ock_rpc_callback_func-Completed}
use hcom4db.Client.Call.Handed.{HandsOver, client_call_with_param-HandsOver}
use hcom4db.Hcom.Channel.{channel_async_call_raw_sgl}
use hcom4db.Hcom.Context.{service_get_result, service_get_context_type}
use hcom4db.Client.Call.{
  CallParams, any_too_long, call_async_sgl, call_with_messages, client_call_with_param,
  post_async_sgl, request_addresses, send_packed,
}
use hcom4db.Client.Call.Released.{
  Blocked, Calls, client_call_with_param-balanced, client_call_with_param-keeps,
}
use hcom4db.Examples.Answers.{answers-BoundedCopies, with_functions}

-- Five messages of three bytes.
abbrev pub five_messages : ℕ → RpcMessage
five_messages i = record { data_ptr = 100 + i; len = 3 }

abbrev pub ready : World
ready =
    record (with_functions (
      "Net_MemoryAllocatorAllocate" ∷ "Net_MemoryAllocatorFree" ∷ "Channel_PostSendRawSgl"
      ∷ "Channel_SyncCallRawSgl" ∷ "Channel_AsyncCallRawSgl" ∷ [])) {
        memory_allocator = (9, 300) ∷ [];
      }

-- The same, where a request cannot be sent.
abbrev unsendable : World
unsendable =
    record (with_functions ("Net_MemoryAllocatorAllocate" ∷ "Net_MemoryAllocatorFree" ∷ [])) {
      memory_allocator = (9, 300) ∷ [];
    }

pub five-Short : Short ready five_messages 5
five-Short = record { seg_u32 = omega arith; each = λ i h. omega arith }

pub ready-packs : is_ok (pack_req_info 9 five_messages 5 42 empty_request ready).0.0 ≡ true
unfolding pack_req_info mem_alloc invoke_int lookup symbol pack_many set_req_info set_requests
    set_one_request assign append_messages
ready-packs = refl

unsendable-packs : is_ok (pack_req_info 9 five_messages 5 42 empty_request unsendable).0.0 ≡ true
unfolding pack_req_info mem_alloc invoke_int lookup symbol pack_many set_req_info set_requests
    set_one_request assign append_messages
unsendable-packs = refl

ready-CanFree : CanFree ready
unfolding lookup
ready-CanFree = refl

pack_req_info-Packed_example :
    let r = pack_req_info 9 five_messages 5 42 empty_request ready in Packed ready r.1 r.0.1 5 17
unfolding sum_len
pack_req_info-Packed_example =
    pack_req_info-Packed 9 five_messages 5 42 ready answers-BoundedCopies five-Short ready-packs

abbrev sync_params : CallParams
sync_params = record {
  client = 9;
  msg_id = 42;
  req_count = 5;
  req_msgs = some five_messages;
  rsp_msgs = some 77;
  done = none;
}

abbrev pub user_done : CallDone
user_done = record { cb = 55; arg = 66 }

abbrev pub async_params : CallParams
async_params = record sync_params { done = some user_done }

sync-Calls : Calls sync_params five_messages ready
sync-Calls = record {
  present = refl;
  copies = answers-BoundedCopies;
  seg_u32 = omega arith;
  packs = λ allowed. ready-packs;
}

async-Calls : Calls async_params five_messages unsendable
async-Calls = record {
  present = refl;
  copies = answers-BoundedCopies;
  seg_u32 = omega arith;
  packs = λ allowed. unsendable-packs;
}

client_call_with_param-balanced_example :
    let w' = (client_call_with_param (some sync_params) ready).1 in
    (blocks : List (ℕ × ℕ)) × Blocked ready w' blocks blocks × UsesOwn 9 ready w'
client_call_with_param-balanced_example =
    client_call_with_param-balanced sync_params five_messages ready sync-Calls refl ready-CanFree

client_call_with_param-keeps_example :
    let w' = (client_call_with_param (some async_params) unsendable).1 in
    (blocks : List (ℕ × ℕ)) × Blocked unsendable w' blocks [] × UsesOwn 9 unsendable w'
client_call_with_param-keeps_example =
    client_call_with_param-keeps async_params five_messages user_done unsendable async-Calls refl

pub ready-Calls : Calls async_params five_messages ready
ready-Calls = record {
  present = refl;
  copies = answers-BoundedCopies;
  seg_u32 = omega arith;
  packs = λ allowed. ready-packs;
}

pub async-ok : is_ok (client_call_with_param (some async_params) ready).0 ≡ true
unfolding client_call_with_param call_with_messages any_too_long send_packed call_async_sgl
    request_addresses post_async_sgl channel_async_call_raw_sgl pack_req_info mem_alloc invoke_int
    lookup symbol pack_many set_req_info set_requests set_one_request assign append_messages
async-ok = refl

client_call_with_param-HandsOver_example :
    HandsOver ready (client_call_with_param (some async_params) ready).1 9 user_done
client_call_with_param-HandsOver_example =
    client_call_with_param-HandsOver async_params five_messages user_done ready ready-Calls refl
      async-ok

abbrev owned : AsyncCbInfo
owned = record {
  cb = 55;
  arg = 66;
  client = 9;
  rsp = some 77;
  req_addr = some (5000, 4096 ∷ 8192 ∷ []);
  req_cnt = 2;
}

abbrev pub completing : World
completing =
    record (with_functions (
      "Service_GetResult" ∷ "Service_GetContextType" ∷ "Service_GetMessageData"
      ∷ "Service_GetMessageDataLen" ∷ "Net_MemoryAllocatorFree" ∷ [])) {
        cb_infos = λ p. if p == 33 then some owned else none;
        memory_allocator = (9, 300) ∷ [];
      }

completing-Ends : Ends 8 completing
unfolding service_get_result service_get_context_type invoke_int symbol lookup
completing-Ends = record { result_read = refl; type_read = refl; two_sided = refl }

completing-CanFree : CanFree completing
unfolding lookup
completing-CanFree = refl

ock_rpc_callback_func-Completed_example :
    Completed completing
      (ock_rpc_callback_func 33 8 completing).1
      owned
      (int_of (service_get_result 8 completing).0.out)
      (4096 ∷ 8192 ∷ [])
ock_rpc_callback_func-Completed_example =
    ock_rpc_callback_func-Completed 33 8 owned (4096 ∷ 8192 ∷ []) completing completing-Ends refl
      completing-CanFree (record { array = 5000; holds = refl; counts = refl })

-- Messages that are longer than a segment.
abbrev long_messages : ℕ → RpcMessage
long_messages i = record { data_ptr = 100 + i; len = 20 }

long-given :
    is_ok (mem_alloc 9 (asked_size 9 long_messages 3 1 empty_request ready) ready).0.ret ≡ true
unfolding mem_alloc invoke_int lookup symbol
long-given = refl

long-fails : is_ok (set_one_request 9 long_messages 3 1 empty_request ready).0.0 ≡ false
unfolding set_one_request mem_alloc invoke_int lookup symbol
long-fails = refl

set_one_request-repeats_example :
    let a = (mem_alloc 9 20 ready).0.out in
    released (set_one_request 9 long_messages 3 1 empty_request ready).1.trace ≡ a ∷ a ∷ []
set_one_request-repeats_example =
    set_one_request-repeats 9 long_messages 3 1 empty_request ready ready-CanFree long-given
      long-fails
