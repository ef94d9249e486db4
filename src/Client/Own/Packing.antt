-- ===== src/Client/Own/Packing.antt =====
-- PackReqInfo of src/hcom4db.cpp, and the allocator that it uses.
use hcom4db.Base.{ℕ, zero, suc, ◌+◌, List}
use hcom4db.Client.Blocks.{free_all_memory, free_requests, ock_max_iov_count}
use hcom4db.Client.Own.{Own, bind-Own, if-Own, mem_free-Own, owning, pure-Own}
use hcom4db.Client.Pack.{
  append_messages, free_repeatedly, pack_few, pack_many, pack_req_info, set_one_request,
  set_req_info, set_requests,
}
use hcom4db.Hcom.Types.{Request, RpcMessage, SglRequest, ock_rpc_ok, ock_rpc_err}
use hcom4db.Hcom.World.{is_ok}

pub free_requests-Own :
    {a : ℕ} (client : ℕ) (iov : List Request) (i n : ℕ)
    → Own client a (free_requests client iov i n)
unfolding free_requests
free_requests-Own client iov i zero = pure-Own tt
free_requests-Own client iov i (suc n) =
    bind-Own (mem_free-Own client _ _) (λ _. free_requests-Own client iov (i + 1) n)

free_all_memory-Own :
    {a : ℕ} (client : ℕ) (r : SglRequest) → Own client a (free_all_memory client r)
unfolding free_all_memory
free_all_memory-Own client r = free_requests-Own client r.iov 0 ock_max_iov_count

free_repeatedly-Own : {a : ℕ} (client addr n : ℕ) → Own client a (free_repeatedly client addr n)
unfolding free_repeatedly
free_repeatedly-Own client addr zero = pure-Own tt
free_repeatedly-Own client addr (suc n) =
    bind-Own (mem_free-Own client _ addr) (λ _. free_repeatedly-Own client addr n)

set_one_request-Own :
    {a : ℕ} (client : ℕ) (msgs : ℕ → RpcMessage) (count i : ℕ) (r : SglRequest)
    → Own client a (set_one_request client msgs count i r)
unfolding set_one_request
set_one_request-Own client msgs count i r = search (owning, free_repeatedly-Own) depth 14

set_requests-Own :
    {a : ℕ} (client : ℕ) (msgs : ℕ → RpcMessage) (count left i : ℕ) (r : SglRequest)
    → Own client a (set_requests client msgs count left i r)
unfolding set_requests
set_requests-Own client msgs count zero i r = pure-Own (ock_rpc_ok, r)
set_requests-Own client msgs count (suc left) i r =
    bind-Own (set_one_request-Own client msgs count i r) (λ x.
      if-Own (is_ok x.0) (set_requests-Own client msgs count left (i + 1) x.1)
        (pure-Own (ock_rpc_err, x.1)))

append_messages-Own :
    {a : ℕ} (client : ℕ) (msgs : ℕ → RpcMessage) (left i : ℕ) (r : SglRequest)
    → Own client a (append_messages client msgs left i r)
unfolding append_messages
append_messages-Own client msgs zero i r = pure-Own (ock_rpc_ok, r)
append_messages-Own {a} client msgs (suc left) i r =
    search (owning, free_all_memory-Own, append_messages-Own {a = a} client msgs left (i + 1)) depth
      12

pack_many-Own :
    {a : ℕ} (client head : ℕ) (msgs : ℕ → RpcMessage) (count : ℕ) (r : SglRequest)
    → Own client a (pack_many client head msgs count r)
unfolding pack_many set_req_info
pack_many-Own client head msgs count r =
    search (owning, set_requests-Own, append_messages-Own) depth 12

pack_few-Own :
    {a : ℕ} (client : ℕ) (msgs : ℕ → RpcMessage) (count : ℕ) (r : SglRequest)
    → Own client a (pack_few client msgs count r)
unfolding pack_few set_req_info
pack_few-Own client msgs count r = search (owning, set_requests-Own, free_all_memory-Own) depth 12

pub pack_req_info-Own :
    {a : ℕ} (client : ℕ) (msgs : ℕ → RpcMessage) (count id : ℕ) (r : SglRequest)
    → Own client a (pack_req_info client msgs count id r)
unfolding pack_req_info
pack_req_info-Own client msgs count id r = search (owning, pack_many-Own, pack_few-Own) depth 14
