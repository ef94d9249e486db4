-- ===== src/Client/Call/Released.antt =====
-- OckRpcClientCallWithParam of src/hcom4db.cpp and the blocks that it allocates: what happens to
-- them when the call is synchronous, and when the asynchronous one cannot be sent.
use hcom4db.Base.{
  ℤ, ℕ, zero, suc, ◌+◌, ◌^◌, ◌==◌, ◌≡◌, refl, ◌≤◌, ◌<◌, inl, inr, Bool, true, false, ◌||◌, List, [],
  ◌∷◌, ◌++◌, Option, none, some, map, ltb, leb, Bool-cases, arith,
}
use hcom4db.Hcom.Types.{Request, RpcMessage, SglRequest, CallDone, ock_rpc_err_invalid_param}
use hcom4db.Hcom.Channel.{
  channel_post_send_raw_sgl, channel_sync_call_raw_sgl, channel_async_call_raw_sgl,
}
use hcom4db.Hcom.World.{World, invoke_int, is_ok}
use hcom4db.Client.Blocks.{granted, released, addresses, CanFree, Freed, free_requests-Freed}
use hcom4db.Client.Own.{UsesOwn, allocator_at}
use hcom4db.Client.Own.Calling.{client_call_with_param-Own}
use hcom4db.Client.Pack.{pack_req_info}
use hcom4db.Client.Pack.Filled.{Fits, Filled}
use hcom4db.Client.Pack.Sizes.{BoundedCopies, seg_size, sum_len}
use hcom4db.Client.Pack.Packed.{empty_request, pack_req_info-Packed, Packed}
use hcom4db.Client.Call.{
  CallParams, any_too_long, call_sync_sgl, call_async_sgl, post_async_sgl,
  max_call_with_params_count, call_with_messages, send_packed, client_call_with_param,
}

pub Fits-addresses :
    (blocks : List (ℕ × ℕ)) (n : ℕ) (iov : List Request)
    → Fits blocks n iov
    → addresses n iov ≡ map (λ b. b.0) blocks
Fits-addresses [] zero iov f = refl
Fits-addresses ((a, c) ∷ bs) (suc n) iov f = ground (arith, Fits-addresses bs n iov)
Fits-addresses [] (suc n) iov f = absurd f
Fits-addresses (b ∷ bs) zero iov f = absurd f

-- The guards of the call are what packing relies on.
any_too_long-each :
    (msgs : ℕ → RpcMessage) (seg i n j : ℕ)
    → any_too_long msgs seg i n ≡ false
    → i ≤ j
    → j < i + n
    → (msgs j).len ≤ seg
unfolding any_too_long
any_too_long-each msgs seg i zero j h low high = absurd (omega arith)
any_too_long-each msgs seg i (suc n) j h low high = elim (Bool-cases (i == j)) [
  | inl e ↦ ground arith
  | inr ne ↦ ground (arith, any_too_long-each msgs seg (i + 1) n j)
]

-- Sending a packed request synchronously moves no block.
call_sync_sgl-Freed :
    (client : ℕ) (req : SglRequest) (rsp : Option ℕ) (w : World)
    → Freed w (call_sync_sgl client req rsp w).1 (released w.trace)
unfolding call_sync_sgl channel_post_send_raw_sgl channel_sync_call_raw_sgl invoke_int
call_sync_sgl-Freed client req none w = ground arith
call_sync_sgl-Freed client req (some p) w = ground arith

-- What one call did to the blocks: those it was granted, and those it gave back.
pub record Blocked (w w' : World) (given back : List (ℕ × ℕ)) : Type 0 where
  pub grants : granted w.lib w'.trace ≡ given ++ granted w.lib w.trace
  pub frees : released w'.trace ≡ map (λ b. b.0) back ++ released w.trace

send_packed-sync :
    (params : CallParams) (req : SglRequest) {w0 w : World} {bytes room : ℕ}
    → params.done ≡ none
    → CanFree w0
    → (f : Filled w0 w req bytes room) → Blocked w0 (send_packed params req w).1 f.blocks f.blocks
unfolding send_packed
send_packed-sync params req {w0} {w} sync can f =
    let rsp = params.rsp_msgs in
    let u = (call_sync_sgl params.client req rsp w).1 in
    let sent = call_sync_sgl-Freed params.client req rsp w in
    let can_u : CanFree u = rw (sent.setting.table, f.setting.table) can in
    let freed = free_requests-Freed params.client req.iov req.iov_count u can_u in
    let same = Fits-addresses f.blocks req.iov_count req.iov f.fits in
    rw sync record {
      grants = ground (arith, freed.grants, sent.grants, sent.setting.lib, f.setting.lib, f.grants);
      frees = ground (arith, freed.frees, sent.frees, same, f.frees);
    }

call_async_sgl-Freed :
    (client : ℕ) (req : SglRequest) (rsp : Option ℕ) (d : CallDone) (w : World)
    → Freed w (call_async_sgl client req rsp d w).1 (released w.trace)
unfolding call_async_sgl post_async_sgl channel_post_send_raw_sgl channel_async_call_raw_sgl
    invoke_int
call_async_sgl-Freed client req none d w = ground arith
call_async_sgl-Freed client req (some p) d w = ground arith

pub send_packed-async :
    (params : CallParams) (req : SglRequest) (d : CallDone) {w0 w : World} {bytes room : ℕ}
    → params.done ≡ some d
    → (f : Filled w0 w req bytes room) → Blocked w0 (send_packed params req w).1 f.blocks []
unfolding send_packed
send_packed-async params req d {w0} {w} async f =
    let sent = call_async_sgl-Freed params.client req params.rsp_msgs d w in
    rw async record {
      grants = ground (arith, sent.grants, f.setting.lib, f.grants);
      frees = ground (arith, sent.frees, f.frees);
    }

-- The number of messages or the length of one of them is refused.
abbrev pub is_refused : CallParams → (ℕ → RpcMessage) → World → Bool
is_refused params msgs w =
    (ltb max_call_with_params_count params.req_count || leb params.req_count 0)
    || any_too_long msgs (seg_size w) 0 params.req_count

-- The request is packed without an error.
abbrev pub Packs : CallParams → (ℕ → RpcMessage) → World → Type 0
Packs params msgs w =
    is_ok (pack_req_info params.client msgs params.req_count params.msg_id empty_request w).0.0
    ≡ true

-- A call with messages, which is packed without an error where its guards do not refuse it.
pub record Calls (params : CallParams) (msgs : ℕ → RpcMessage) (w : World) : Type 0 where
  pub present : params.req_msgs ≡ some msgs
  pub copies : BoundedCopies w.lib
  pub seg_u32 : seg_size w < 2 ^ 32
  pub packs : is_refused params msgs w ≡ false → Packs params msgs w

unmoved : (w : World) → Blocked w w [] []
unmoved w = record { grants = refl; frees = refl }

module _ (params : CallParams) (msgs : ℕ → RpcMessage) (w : World) (c : Calls params msgs w) where
  packed :
      any_too_long msgs (seg_size w) 0 params.req_count ≡ false
      → Packs params msgs w
      → let r = pack_req_info params.client msgs params.req_count params.msg_id empty_request w in
        Packed w r.1 r.0.1 params.req_count (2 + sum_len msgs 0 params.req_count)
  packed fit packs =
      pack_req_info-Packed params.client msgs params.req_count params.msg_id w c.copies
        (record {
          seg_u32 = c.seg_u32;
          each = λ i h.
              any_too_long-each msgs (seg_size w) 0 params.req_count i fit (omega arith)
                (omega arith);
        })
        packs

  -- A property of the outcome holds if it holds of a call that is rejected and of one that sends
  -- what it packed.
  pub after_call :
      (P : ℤ × World → Type 0)
      → P (ock_rpc_err_invalid_param, w)
      → ((u : World) (req : SglRequest) (room : ℕ)
          → Filled w u req (2 + sum_len msgs 0 params.req_count) room
          → P (send_packed params req u))
      → P (client_call_with_param (some params) w)
  unfolding client_call_with_param call_with_messages send_packed
  after_call P rejected sent =
      let guard = ltb max_call_with_params_count params.req_count || leb params.req_count 0 in
      rw c.present (elim (Bool-cases guard) [
        | inl bad ↦ rw bad rejected
        | inr good ↦
            rw good (elim (Bool-cases (any_too_long msgs (seg_size w) 0 params.req_count)) [
              | inl long ↦ rw long rejected
              | inr fit ↦
                  (let packs = c.packs (rw (good, fit) refl) in
                    rw (fit, packs) (sent _ _ _ (packed fit packs).filled))
            ])
      ])

-- Each block of a call comes from the allocator of its client, and goes back to it if it goes back.
pub uses_own :
    (params : CallParams) (w : World)
    → UsesOwn params.client w (client_call_with_param (some params) w).1
uses_own params w =
    ((client_call_with_param-Own (allocator_at params.client w) params).own w refl).1

-- A synchronous OckRpcClientCallWithParam with messages, which its guards refuse or which is packed
-- without an error, gives back every block that it was granted, once, whether or not the request is
-- then sent; all of them come from the allocator that g_memoryAllocator holds for the client (null
-- where it holds none) and go back to it, and no other allocator is called. The allocator's free is
-- bound, memcpy_s copies no more than the room it is given, and the segment size is a uint32_t.
pub client_call_with_param-balanced :
    (params : CallParams) (msgs : ℕ → RpcMessage) (w : World)
    → Calls params msgs w
    → params.done ≡ none
    → CanFree w
    → let w' = (client_call_with_param (some params) w).1 in
      (blocks : List (ℕ × ℕ)) × Blocked w w' blocks blocks × UsesOwn params.client w w'
client_call_with_param-balanced params msgs w c sync can =
    let (blocks, balanced) =
      after_call params msgs w c (λ r. (blocks : List (ℕ × ℕ)) × Blocked w r.1 blocks blocks)
        ([], unmoved w) (λ u req room f. (f.blocks, send_packed-sync params req sync can f)) in
    (blocks, balanced, uses_own params w)

-- An asynchronous OckRpcClientCallWithParam with messages, which its guards refuse or which is packed
-- without an error, gives back none of the blocks that it was granted, also where the packed request
-- cannot be sent; all of them come from the allocator that g_memoryAllocator holds for the client.
-- memcpy_s copies no more than the room it is given, and the segment size is a uint32_t.
pub client_call_with_param-keeps :
    (params : CallParams) (msgs : ℕ → RpcMessage) (d : CallDone) (w : World)
    → Calls params msgs w
    → params.done ≡ some d
    → let w' = (client_call_with_param (some params) w).1 in
      (blocks : List (ℕ × ℕ)) × Blocked w w' blocks [] × UsesOwn params.client w w'
client_call_with_param-keeps params msgs d w c async =
    let (blocks, kept) =
      after_call params msgs w c (λ r. (blocks : List (ℕ × ℕ)) × Blocked w r.1 blocks [])
        ([], unmoved w) (λ u req room f. (f.blocks, send_packed-async params req d async f)) in
    (blocks, kept, uses_own params w)
