-- ===== src/Program/Packing.antt =====
-- The calls of src/hcom4db.cpp with several messages keep the program sound and hold no mutex: of
-- the maps they change at most the allocators, by the entry that operator[] inserts.
use hcom4db.Base.{ℕ, zero, suc, ◌+◌, List, Option, none, some, Option-cases, inl, inr}
use hcom4db.Base.Distinct.{assign-DistinctKeys}
use hcom4db.Base.Maps.{lookup, nat_eq}
use hcom4db.Client.Blocks.{
  allocator_of, free_all_memory, free_requests, mem_alloc, mem_free, ock_max_iov_count,
}
use hcom4db.Client.Call.{
  CallParams, call_async_sgl, call_sync_sgl, call_with_messages, client_call_with_param,
  post_async_sgl, send_packed,
}
use hcom4db.Client.Pack.{
  append_messages, free_repeatedly, pack_few, pack_many, pack_req_info, set_one_request,
  set_req_info, set_requests,
}
use hcom4db.Hcom.Channel.{
  channel_async_call_raw_sgl, channel_post_send_raw_sgl, channel_sync_call_raw_sgl,
}
use hcom4db.Hcom.Memory.{net_memory_allocator_allocate, net_memory_allocator_free}
use hcom4db.Hcom.Types.{
  AsyncCbInfo, CallDone, Request, RpcMessage, SglRequest, ock_rpc_ok, ock_rpc_err,
}
use hcom4db.Hcom.World.{World, is_ok, modify}
use hcom4db.Program.Kept.{infos-Keeps, messages-Keeps}
use hcom4db.Program.Safe.{Safe}
use hcom4db.Program.Orderly.{
  Keeps-Orderly, Orderly, orderly, bind-Orderly, if-Orderly, pure-Orderly,
}

pub infos-Orderly :
    (f : World → ℕ → Option AsyncCbInfo) → Orderly (modify (λ w. record w { cb_infos = f w }))
infos-Orderly f = Keeps-Orderly (infos-Keeps f)

pub messages-Orderly :
    (f : World → ℕ → RpcMessage) → Orderly (modify (λ w. record w { rpc_messages = f w }))
messages-Orderly f = Keeps-Orderly (messages-Keeps f)

allocator_of-Safe : (client : ℕ) → Safe (allocator_of client)
unfolding allocator_of lookup
allocator_of-Safe client = record {
  safe = λ w s. elim (Option-cases (lookup client w.memory_allocator)) [
    | inl missing ↦ rw missing (record {
      handlers = s.handlers;
      rndv_handlers = s.rndv_handlers;
      servers = s.servers;
      allocators = assign-DistinctKeys client 0 w.memory_allocator s.allocators;
      regions = s.regions;
    })
    | inr (a, there) ↦ rw there s
  ];
}

pub allocator_of-Orderly : (client : ℕ) → Orderly (allocator_of client)
unfolding allocator_of lookup
allocator_of-Orderly client = record {
  sound = allocator_of-Safe client;
  tidy = λ w n h. elim (Option-cases (lookup client w.memory_allocator)) [
    | inl missing ↦ rw missing h
    | inr (a, there) ↦ rw there h
  ];
}

pub ruleset packing = (orderly, infos-Orderly, messages-Orderly, allocator_of-Orderly)

mem_alloc-Orderly : (client n : ℕ) → Orderly (mem_alloc client n)
unfolding mem_alloc net_memory_allocator_allocate
mem_alloc-Orderly client n = search packing depth 10

pub mem_free-Orderly : (client addr : ℕ) → Orderly (mem_free client addr)
unfolding mem_free net_memory_allocator_free
mem_free-Orderly client addr = search packing depth 10

free_requests-Orderly :
    (client : ℕ) (iov : List Request) (i n : ℕ) → Orderly (free_requests client iov i n)
unfolding free_requests
free_requests-Orderly client iov i zero = pure-Orderly tt
free_requests-Orderly client iov i (suc n) =
    bind-Orderly (mem_free-Orderly client _) (λ _. free_requests-Orderly client iov (i + 1) n)

free_all_memory-Orderly : (client : ℕ) (r : SglRequest) → Orderly (free_all_memory client r)
unfolding free_all_memory
free_all_memory-Orderly client r = free_requests-Orderly client r.iov 0 ock_max_iov_count

free_repeatedly-Orderly : (client addr n : ℕ) → Orderly (free_repeatedly client addr n)
unfolding free_repeatedly
free_repeatedly-Orderly client addr zero = pure-Orderly tt
free_repeatedly-Orderly client addr (suc n) =
    bind-Orderly (mem_free-Orderly client addr) (λ _. free_repeatedly-Orderly client addr n)

set_one_request-Orderly :
    (client : ℕ) (msgs : ℕ → RpcMessage) (count i : ℕ) (r : SglRequest)
    → Orderly (set_one_request client msgs count i r)
unfolding set_one_request
set_one_request-Orderly client msgs count i r =
    search (packing, mem_alloc-Orderly, free_repeatedly-Orderly) depth 14

set_requests-Orderly :
    (client : ℕ) (msgs : ℕ → RpcMessage) (count left i : ℕ) (r : SglRequest)
    → Orderly (set_requests client msgs count left i r)
unfolding set_requests
set_requests-Orderly client msgs count zero i r = pure-Orderly (ock_rpc_ok, r)
set_requests-Orderly client msgs count (suc left) i r =
    bind-Orderly (set_one_request-Orderly client msgs count i r) (λ x.
      if-Orderly (is_ok x.0) (set_requests-Orderly client msgs count left (i + 1) x.1)
        (pure-Orderly (ock_rpc_err, x.1)))

append_messages-Orderly :
    (client : ℕ) (msgs : ℕ → RpcMessage) (left i : ℕ) (r : SglRequest)
    → Orderly (append_messages client msgs left i r)
unfolding append_messages
append_messages-Orderly client msgs zero i r = pure-Orderly (ock_rpc_ok, r)
append_messages-Orderly client msgs (suc left) i r =
    search (packing, free_all_memory-Orderly, append_messages-Orderly client msgs left (i + 1))
      depth 12

pack_many-Orderly :
    (client head : ℕ) (msgs : ℕ → RpcMessage) (count : ℕ) (r : SglRequest)
    → Orderly (pack_many client head msgs count r)
unfolding pack_many set_req_info
pack_many-Orderly client head msgs count r =
    search (packing, set_requests-Orderly, append_messages-Orderly, mem_free-Orderly) depth 12

pack_few-Orderly :
    (client : ℕ) (msgs : ℕ → RpcMessage) (count : ℕ) (r : SglRequest)
    → Orderly (pack_few client msgs count r)
unfolding pack_few set_req_info
pack_few-Orderly client msgs count r =
    search (packing, set_requests-Orderly, free_all_memory-Orderly) depth 12

pack_req_info-Orderly :
    (client : ℕ) (msgs : ℕ → RpcMessage) (count id : ℕ) (r : SglRequest)
    → Orderly (pack_req_info client msgs count id r)
unfolding pack_req_info
pack_req_info-Orderly client msgs count id r =
    search (packing, mem_alloc-Orderly, pack_many-Orderly, pack_few-Orderly) depth 14

call_sync_sgl-Orderly :
    (client : ℕ) (r : SglRequest) (rsp : Option ℕ) → Orderly (call_sync_sgl client r rsp)
unfolding call_sync_sgl channel_post_send_raw_sgl channel_sync_call_raw_sgl
call_sync_sgl-Orderly client r none = search packing depth 10
call_sync_sgl-Orderly client r (some p) = search packing depth 12

post_async_sgl-Orderly :
    (client : ℕ) (r : SglRequest) (rsp : Option ℕ) (at array : ℕ)
    → Orderly (post_async_sgl client r rsp at array)
unfolding post_async_sgl channel_post_send_raw_sgl channel_async_call_raw_sgl
post_async_sgl-Orderly client r none at array = search packing depth 14
post_async_sgl-Orderly client r (some p) at array = search packing depth 14

call_async_sgl-Orderly :
    (client : ℕ) (r : SglRequest) (rsp : Option ℕ) (d : CallDone)
    → Orderly (call_async_sgl client r rsp d)
unfolding call_async_sgl
call_async_sgl-Orderly client r rsp d = search (packing, post_async_sgl-Orderly) depth 14

send_packed-Orderly : (params : CallParams) (r : SglRequest) → Orderly (send_packed params r)
unfolding send_packed
send_packed-Orderly params r = elim (Option-cases params.done) [
  | inl sync ↦ rw sync (search (packing, call_sync_sgl-Orderly, free_requests-Orderly) depth 12)
  | inr (d, async) ↦ rw async (search (packing, call_async_sgl-Orderly) depth 10)
]

call_with_messages-Orderly :
    (params : CallParams) (msgs : ℕ → RpcMessage) → Orderly (call_with_messages params msgs)
unfolding call_with_messages
call_with_messages-Orderly params msgs =
    search (packing, pack_req_info-Orderly, send_packed-Orderly) depth 14

pub client_call_with_param-Orderly :
    (params : Option CallParams) → Orderly (client_call_with_param params)
unfolding client_call_with_param
client_call_with_param-Orderly none = search packing
client_call_with_param-Orderly (some params) = elim (Option-cases params.req_msgs) [
  | inl missing ↦ rw missing (search packing)
  | inr (msgs, there) ↦ rw there (call_with_messages-Orderly params msgs)
]
