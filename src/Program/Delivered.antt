-- ===== src/Program/Delivered.antt =====
-- A request of several messages from PackReqInfo to the handler that OckRpcReceiveHandle runs, both of
-- src/hcom4db.cpp, over a transport that hands the server what the entries of the request hold.
use hcom4db.Base.{
  zero, suc, ℤ, List, [], ◌++◌, if◌then◌else◌, ℕ, ◌+◌, ◌-◌, ◌%◌, ◌^◌, ◌<◌, ◌==◌, ◌≡◌, refl, ap, ◌∙◌,
  pos, true, false, ◌∷◌, some, to_i16, arith,
}
use hcom4db.Base.Maps.{beq_refl, lookup, int_eq, nat_eq}
use hcom4db.Client.Pack.{pack_req_info}
use hcom4db.Client.Pack.Filled.{total_size}
use hcom4db.Client.Pack.Packed.{empty_request, pack_req_info-Packed}
use hcom4db.Client.Pack.Placed.{Put, address, puts, size, slot}
use hcom4db.Client.Pack.Placed.InOrder.{InOrder, in_order, pack_req_info-InOrder}
use hcom4db.Client.Pack.Sizes.{BoundedCopies, Short, sum_len}
use hcom4db.Hcom.Context.{
  service_get_context_type, service_get_message_data, service_get_message_data_len,
}
use hcom4db.Hcom.Types.{ContextType, RpcMessage, SglRequest, ock_rpc_ok}
use hcom4db.Hcom.World.{World, load_msg_id, is_ok, invoke_int, invoke_value}
use hcom4db.Server.{
  RpcService, behind_header, dispatch, receive_handle, receive_message, server_add_service,
}
use hcom4db.Server.Received.{got_data, got_len, got_type, handled}
use hcom4db.Server.Registered.{accepts, server_add_service_lem}

-- The id that was last stored at an address, 0 where none was.
abbrev pub stored_id : ℕ → List Put → ℕ
stored_id a [] = 0
stored_id a (Put.id_at b id ∷ ps) = if b == a then id else stored_id a ps
stored_id a (Put.bytes_at _ _ _ ∷ ps) = stored_id a ps

stored_id-in_order :
    (msgs : ℕ → RpcMessage) (id : ℕ) (a : ℕ → ℕ) (count : ℕ) (before : List Put)
    → stored_id (a 0) (in_order msgs id a count ++ before) ≡ id
stored_id-in_order msgs id a zero before = ground (arith, beq_refl (a 0))
stored_id-in_order msgs id a (suc k) before = stored_id-in_order msgs id a k before

-- What a client sends: the request, and the writes into its entries before it was sent. The id is the
-- one that stands at the start of the first entry.
abbrev pub sent_id : (ℤ × SglRequest) × World → ℕ
sent_id packed = stored_id (address packed.0.1.iov 0) (puts packed.1.trace)

abbrev pub sent_bytes : (ℤ × SglRequest) × World → ℕ
sent_bytes packed = total_size packed.0.1.iov_count packed.0.1.iov

-- In the entries one behind the other, each message stands behind the id and all messages before it.
abbrev pub IsContiguous : (ℕ → RpcMessage) → ℕ → SglRequest → Type 0
IsContiguous msgs count req =
    (k : ℕ)
    → k < count
    → total_size (slot k) req.iov + sum_len msgs 2 (k - 2) ≡ 2 + sum_len msgs 0 k

InOrder-IsContiguous :
    (msgs : ℕ → RpcMessage) (id count : ℕ) (w w' : World) (req : SglRequest)
    → InOrder msgs id count w w' req
    → IsContiguous msgs count req
unfolding sum_len
InOrder-IsContiguous msgs id count w w' req o zero lt = omega (arith, o.header)
InOrder-IsContiguous msgs id count w w' req o (suc zero) lt = ground (arith, o.header, o.first)
InOrder-IsContiguous msgs id count w w' req o (suc (suc k)) lt =
    let first : size req.iov 1 ≡ (msgs 0).len = ground (arith, o.first) in
    let second : size req.iov 2 ≡ (msgs 1).len = ground (arith, o.second) in
    let shared : suc (suc k) - 2 ≡ k = omega arith in
    let last : slot (suc (suc k)) ≡ 3 = ground arith in
    rw (last, shared) (omega (arith, first, second, o.header))

-- libhcom.so hands a raw message of `len` bytes at `ptr` to the server, which reads `id` at its start.
-- Service_GetMessageDataLen answers a uint32_t.
pub record Arrives (ctx ptr len id : ℕ) (u : World) : Type 0 where
  pub there : (got_data ctx u).0.out ≡ ptr
  pub present : (ptr == 0) ≡ false
  pub long : (got_len ctx u).0.out ≡ len
  pub len_u32 : len < 2 ^ 32
  pub known : is_ok (got_type ctx u).0.ret ≡ true
  pub raw : (got_type ctx u).0.context_type ≡ ContextType.service_received_raw
  pub reads : (let w = (got_type ctx u).1 in (w.lib (load_msg_id ptr ∷ w.trace)).out ≡ id)

abbrev loaded : ℕ → ℕ → World → World
loaded ctx ptr u = record (got_type ctx u).1 { trace = load_msg_id ptr ∷ (got_type ctx u).1.trace }

receive_handle-dispatch :
    (ctx ptr len id : ℕ) (u : World)
    → Arrives ctx ptr len id u
    → receive_handle ctx u
      ≡ dispatch id ctx (behind_header (record { data_ptr = ptr; len = len })) (loaded ctx ptr u)
unfolding receive_handle receive_message service_get_message_data service_get_message_data_len
    service_get_context_type
receive_handle-dispatch ctx ptr len id u a =
    rw (a.there, a.present, a.known, a.raw, a.long) (rw a.reads refl)

loaded-quiet :
    (ctx ptr : ℕ) (u : World)
    → (handled (loaded ctx ptr u).trace ≡ handled u.trace)
      × ((loaded ctx ptr u).handle_map ≡ u.handle_map)
unfolding invoke_value invoke_int
loaded-quiet ctx ptr u = (ground arith, ground arith)

dispatch-handled :
    (id ctx handler : ℕ) (msg : RpcMessage) (w : World)
    → lookup (to_i16 (pos id)) w.handle_map ≡ some handler
    → let r = dispatch id ctx msg w in
      (r.0 ≡ ock_rpc_ok) × (handled r.1.trace ≡ (handler, ctx, msg) ∷ handled w.trace)
unfolding dispatch
dispatch-handled id ctx handler msg w found = rw found (refl, refl)

behind_header-payload :
    (ptr len bytes : ℕ)
    → len < 2 ^ 32
    → len ≡ 2 + bytes
    → behind_header (record { data_ptr = ptr; len = len })
      ≡ record { data_ptr = ptr + 2; len = bytes }
behind_header-payload ptr len bytes small e =
    let left : (len + 2 ^ 64 - 2) % 2 ^ 64 ≡ bytes = omega arith in
    ap (λ n. record { data_ptr = ptr + 2; len = n }) left

handled_payload :
    (ctx ptr len bytes : ℕ) (s : RpcService) (u : World)
    → Arrives ctx ptr len s.id u
    → len ≡ 2 + bytes
    → lookup (to_i16 (pos s.id)) (loaded ctx ptr u).handle_map ≡ some s.handler
    → let r = receive_handle ctx u in
      (r.0 ≡ ock_rpc_ok)
      × (handled r.1.trace
          ≡ (s.handler, ctx, record { data_ptr = ptr + 2; len = bytes }) ∷ handled u.trace)
handled_payload ctx ptr len bytes s u a whole reached =
    let (quiet, kept) = loaded-quiet ctx ptr u in
    rw (receive_handle-dispatch ctx ptr len s.id u a) (
      rw (behind_header-payload ptr len bytes a.len_u32 whole, ← quiet)
        (dispatch-handled s.id ctx s.handler _ (loaded ctx ptr u) reached))

-- A client packs messages under the id of a service, a server accepts the registration of that
-- service, and libhcom.so hands the packed bytes to a server whose handlers are still those, which
-- reads at their start the id that the client last stored at the start of the first entry: then
-- OckRpcReceiveHandle answers OCK_RPC_OK and runs the handler of the service, once, on the received
-- context and on exactly the bytes behind the header. These are the messages in the order of the
-- call: each was written to its place in the entries, and the entries one behind the other hold it
-- behind the id and all messages before it. The messages are no longer than a segment, and memcpy_s
-- copies no more than the room it is given.
pub receive_handle-pack_req_info :
    (client : ℕ) (msgs : ℕ → RpcMessage) (count server ctx ptr : ℕ) (s : RpcService) (w v u : World)
    → BoundedCopies w.lib
    → Short w msgs count
    → (let packed = pack_req_info client msgs count s.id empty_request w in
        is_ok packed.0.0 ≡ true
        → accepts v server s ≡ true
        → u.handle_map ≡ (server_add_service server (some s) v).1.handle_map
        → Arrives ctx ptr (sent_bytes packed) (sent_id packed) u
        → let r = receive_handle ctx u in
          (r.0 ≡ ock_rpc_ok)
          × (handled r.1.trace
              ≡ (s.handler, ctx, record { data_ptr = ptr + 2; len = sum_len msgs 0 count })
                ∷ handled u.trace)
          × InOrder msgs s.id count w packed.1 packed.0.1
          × IsContiguous msgs count packed.0.1)
receive_handle-pack_req_info client msgs count server ctx ptr s w v u copies short good ok same a =
    let packed = pack_req_info client msgs count s.id empty_request w in
    let total = (pack_req_info-Packed client msgs count s.id w copies short good).filled.total in
    let order = pack_req_info-InOrder client msgs count s.id w copies short good in
    let id : sent_id packed ≡ s.id =
      ap (stored_id (address packed.0.1.iov 0)) order.writes
      ∙ stored_id-in_order msgs s.id (address packed.0.1.iov) count (puts w.trace) in
    let (answer, found) = server_add_service_lem server s v (pos s.id) in
    let narrow : to_i16 (pos s.id) ≡ pos s.id = ground arith in
    let (quiet, kept) = loaded-quiet ctx ptr u in
    let there : lookup (to_i16 (pos s.id)) (server_add_service server (some s) v).1.handle_map
        ≡ some s.handler =
      ground arith in
    let reached : lookup (to_i16 (pos s.id)) (loaded ctx ptr u).handle_map ≡ some s.handler =
      ap (λ m. lookup (to_i16 (pos s.id)) m) (kept ∙ same) ∙ there in
    let (answered, ran) =
      handled_payload ctx ptr _ (sum_len msgs 0 count) s u (rw id at a) total reached in
    (answered, ran, order, InOrder-IsContiguous msgs s.id count w packed.1 packed.0.1 order)
