-- ===== src/Client/Pack.antt =====
-- SetReqInfo and PackReqInfo of src/hcom4db.cpp: the messages of one call are copied into blocks of
-- the client's allocator, behind a block with the message id; what does not fit into four blocks is
-- appended to the last. An array of messages is a function of the index. The cleanup loops free
-- `addrArr[i]`, as the code does.
pub mod Append
pub mod Failed
pub mod Filled
pub mod Packed
pub mod Placed
pub mod Sizes
use hcom4db.Base.{
  ℕ, zero, suc, ◌+◌, ◌-◌, ◌*◌, ◌^◌, ℤ, List, set, get_or, ltb, ◌==◌, if◌then◌else◌, u16, u32,
}
use hcom4db.Hcom.Types.{Request, SglRequest, RpcMessage, zero_request, ock_rpc_ok, ock_rpc_err}
use hcom4db.Hcom.World.{
  M, memcpy_s, store_msg_id, pure, ◌>>=◌, ◌>>◌, gets, ask, emit, is_ok, unless_ok,
}
use hcom4db.Client.Blocks.{mem_alloc, mem_free, free_all_memory, ock_max_iov_count}

-- `for (j = 0; j < n; j++) OckRpcMemFree(client, addr);`
unfoldable pub free_repeatedly : ℕ → ℕ → ℕ → M (Unit {0})
free_repeatedly client addr zero = pure tt
free_repeatedly client addr (suc n) = do mem_free client addr; free_repeatedly client addr n

-- `iovCount++` and the write of entry `p`.
abbrev pub add_request : SglRequest → ℕ → Request → SglRequest
add_request service_req p r = record service_req {
  iov = set service_req.iov p r;
  iov_count = u16 (service_req.iov_count + 1);
}

abbrev pub request_at : Request → ℕ → ℕ → ℕ → Request
request_at old address key size = record old { l_address = address; l_key = key; size = size }

-- One round of SetReqInfo's loop.
unfoldable pub set_one_request : ℕ → (ℕ → RpcMessage) → ℕ → ℕ → SglRequest → M (ℤ × SglRequest)
set_one_request client msgs count i service_req = do
  let msg = msgs i
  seg ← gets (λ w. w.options.mr_send_receive_seg_size)
  let size = if i == count - 1 then seg else u32 msg.len
  block ← mem_alloc client size
  if is_ok block.ret
      then (do
        copied ← ask (memcpy_s block.out seg msg.data_ptr msg.len)
        if is_ok copied.ret
            then (let old = get_or service_req.iov (i + 1) zero_request in
                pure (
                  ock_rpc_ok,
                  add_request service_req (i + 1)
                      (request_at old block.out block.key (u32 msg.len)),
                ))
            else (do free_repeatedly client block.out (i + 1); pure (ock_rpc_err, service_req)))
      else (do free_repeatedly client block.out i; pure (ock_rpc_err, service_req))

-- `left` rounds from round `i`.
unfoldable pub set_requests : ℕ → (ℕ → RpcMessage) → ℕ → ℕ → ℕ → SglRequest → M (ℤ × SglRequest)
set_requests client msgs count zero i service_req = pure (ock_rpc_ok, service_req)
set_requests client msgs count (suc left) i service_req = do
  (ret, service_req') ← set_one_request client msgs count i service_req
  if is_ok ret
      then set_requests client msgs count left (i + 1) service_req'
      else pure (ock_rpc_err, service_req')

unfoldable pub set_req_info : ℕ → (ℕ → RpcMessage) → ℕ → SglRequest → M (ℤ × SglRequest)
set_req_info client msgs count service_req = set_requests client msgs count count 0 service_req

-- `maxCount` of PackReqInfo: the entries behind the header.
abbrev pub max_count : ℕ
max_count = 3

-- `left` rounds of the loop that appends the messages from `i` on to entry `maxCount`.
unfoldable pub append_messages : ℕ → (ℕ → RpcMessage) → ℕ → ℕ → SglRequest → M (ℤ × SglRequest)
append_messages client msgs zero i service_req = pure (ock_rpc_ok, service_req)
append_messages client msgs (suc left) i service_req = do
  let msg = msgs i
  let last = get_or service_req.iov max_count zero_request
  seg ← gets (λ w. w.options.mr_send_receive_seg_size)
  let room = u32 (seg + 2 ^ 32 - last.size)
  copied ← ask (memcpy_s (last.l_address + last.size) room msg.data_ptr msg.len)
  if is_ok copied.ret
      then (let grown = record last { size = u32 (last.size + msg.len) } in
          append_messages client msgs left (i + 1)
            (record service_req { iov = set service_req.iov max_count grown }))
      else (do free_all_memory client service_req; pure (ock_rpc_err, service_req))

-- sizeof(RawMessageHeader).
abbrev pub sizeof_header : ℕ
sizeof_header = 2

unfoldable pub pack_many : ℕ → ℕ → (ℕ → RpcMessage) → ℕ → SglRequest → M (ℤ × SglRequest)
pack_many client head_addr msgs count service_req = do
  (ret, service_req') ← set_req_info client msgs max_count service_req
  if is_ok ret
      then append_messages client msgs (count - max_count) max_count service_req'
      else (do mem_free client head_addr; pure (ock_rpc_err, service_req'))

unfoldable pub pack_few : ℕ → (ℕ → RpcMessage) → ℕ → SglRequest → M (ℤ × SglRequest)
pack_few client msgs count service_req = do
  (ret, service_req') ← set_req_info client msgs count service_req
  if is_ok ret
      then pure (ock_rpc_ok, service_req')
      else (do free_all_memory client service_req'; pure (ock_rpc_err, service_req'))

unfoldable pub pack_req_info : ℕ → (ℕ → RpcMessage) → ℕ → ℕ → SglRequest → M (ℤ × SglRequest)
pack_req_info client msgs count msg_id service_req = do
  head ← mem_alloc client sizeof_header
  unless_ok head.ret (ock_rpc_err, service_req)
      do
        emit (store_msg_id head.out msg_id)
        let old = get_or service_req.iov 0 zero_request
        let with_head = add_request service_req 0 (request_at old head.out head.key sizeof_header)
        if ltb max_count count
            then pack_many client head.out msgs count with_head
            else pack_few client msgs count with_head
