-- ===== src/Client/Call/Handed.antt =====
-- OckRpcClientCallWithParam of src/hcom4db.cpp, asynchronous and sent: the blocks go over to the
-- AsyncCbInfo of the completion callback.
use hcom4db.Base.{
  ℕ, zero, suc, ◌+◌, ◌==◌, ◌≡◌, refl, sym, ap, ◌∙◌, ◌*◌, true, List, [], ◌∷◌, ◌++◌, Option, none,
  some, map, length, get_or, if◌then◌else◌, Bool-cases, inl, inr, arith,
}
use hcom4db.Hcom.Types.{AsyncCbInfo, CallDone, Request, RpcMessage, SglRequest, zero_request}
use hcom4db.Hcom.Channel.{channel_post_send_raw_sgl, channel_async_call_raw_sgl}
use hcom4db.Base.Maps.{nat_eq, beq_refl}
use hcom4db.Hcom.World.{World, malloc, is_ok, invoke_int}
use hcom4db.Client.Async.Given.{carried}
use hcom4db.Client.Blocks.{freed_onto, freed_onto-addresses}
use hcom4db.Client.Callback.Quiet.{rev_onto}
use hcom4db.Client.Callback.Completed.{Owns}
use hcom4db.Client.Call.Released.{
  Blocked, Calls, Fits-addresses, after_call, send_packed-async, uses_own,
}
use hcom4db.Client.Own.{UsesOwn}
use hcom4db.Client.Call.{
  CallParams, callback_to, sizeof_info, sizeof_pointer, request_addresses, post_async_sgl,
  call_async_sgl, client_call_with_param, send_packed,
}

length-request_addresses :
    (from n : ℕ) (iov : List Request) → length (request_addresses from n iov) ≡ n
unfolding request_addresses
length-request_addresses from zero iov = refl
length-request_addresses from (suc n) iov = ap suc (length-request_addresses (from + 1) n iov)

rev_onto-request_addresses :
    (from n : ℕ) (iov : List Request) (acc : List ℕ)
    → rev_onto (request_addresses from n iov) acc ≡ freed_onto from n iov acc
unfolding request_addresses freed_onto
rev_onto-request_addresses from zero iov acc = refl
rev_onto-request_addresses from (suc n) iov acc =
    rev_onto-request_addresses (from + 1) n iov ((get_or iov from zero_request).l_address ∷ acc)

-- The library was given the address of an AsyncCbInfo that is allocated and holds these addresses, the
-- client whose blocks they are, and what the user is to be told.
pub record Handed (w : World) (client : ℕ) (d : CallDone) (addrs : List ℕ) : Type 0 where
  pub at : ℕ
  pub info : AsyncCbInfo
  pub given : carried w.trace ≡ some (callback_to at)
  pub found : w.cb_infos at ≡ some info
  pub owns : Owns info addrs
  pub client_of : info.client ≡ client
  pub cb : info.cb ≡ d.cb
  pub arg : info.arg ≡ d.arg

post_async_sgl-infos :
    (client : ℕ) (req : SglRequest) (rsp : Option ℕ) (addr array : ℕ) (w : World)
    → let r = post_async_sgl client req rsp addr array w in
      is_ok r.0 ≡ true → r.1.cb_infos ≡ w.cb_infos
unfolding post_async_sgl channel_post_send_raw_sgl channel_async_call_raw_sgl invoke_int
post_async_sgl-infos client req none addr array w = ground arith
post_async_sgl-infos client req (some p) addr array w = ground arith

post_async_sgl-carried :
    (client : ℕ) (req : SglRequest) (rsp : Option ℕ) (addr array : ℕ) (w : World)
    → let r = post_async_sgl client req rsp addr array w in
      is_ok r.0 ≡ true → carried r.1.trace ≡ some (callback_to addr)
unfolding post_async_sgl channel_post_send_raw_sgl channel_async_call_raw_sgl invoke_int
post_async_sgl-carried client req none addr array w = ground arith
post_async_sgl-carried client req (some p) addr array w = ground arith

call_async_sgl-Handed :
    (client : ℕ) (req : SglRequest) (rsp : Option ℕ) (d : CallDone) (w : World)
    → let r = call_async_sgl client req rsp d w in
      is_ok r.0 ≡ true → Handed r.1 client d (request_addresses 0 req.iov_count req.iov)
unfolding call_async_sgl
call_async_sgl-Handed client req rsp d w =
    let n = req.iov_count in
    let addrs = request_addresses 0 n req.iov in
    let block = w.lib (malloc sizeof_info ∷ w.trace) in
    let array = w.lib (malloc (sizeof_pointer * n) ∷ malloc sizeof_info ∷ w.trace) in
    let info : AsyncCbInfo = record {
      cb = d.cb;
      arg = d.arg;
      client = client;
      rsp = rsp;
      req_addr = some (array.out, addrs);
      req_cnt = n;
    } in
    elim (Bool-cases (block.out == 0)) [
      | inl null ↦ rw null λ good. cc
      | inr there ↦ rw there (elim (Bool-cases (array.out == 0)) [
        | inl null ↦ rw null λ good. cc
        | inr room ↦ rw room λ good. record {
          at = block.out;
          info = info;
          given = post_async_sgl-carried client req rsp block.out array.out _ good;
          found =
              ap (λ f. f block.out) (post_async_sgl-infos client req rsp block.out array.out _ good)
              ∙ ap (λ b. if b then some info else w.cb_infos block.out) (beq_refl block.out);
          owns = record {
            array = array.out;
            holds = refl;
            counts = sym (length-request_addresses 0 n req.iov);
          };
          client_of = refl;
          cb = refl;
          arg = refl;
        }
      ])
    ]

-- The blocks of a call went to an AsyncCbInfo: it holds their addresses, and none was given back. They
-- come from the allocator of the client.
pub record HandsOver (w w' : World) (client : ℕ) (d : CallDone) : Type 0 where
  pub blocks : List (ℕ × ℕ)
  pub blocked : Blocked w w' blocks []
  pub own : UsesOwn client w w'
  pub addrs : List ℕ
  pub handed : Handed w' client d addrs
  pub same : (acc : List ℕ) → rev_onto addrs acc ≡ map (λ b. b.0) blocks ++ acc

send_packed-Handed :
    (params : CallParams) (req : SglRequest) (d : CallDone) (w : World)
    → params.done ≡ some d
    → let r = send_packed params req w in
      is_ok r.0 ≡ true → Handed r.1 params.client d (request_addresses 0 req.iov_count req.iov)
unfolding send_packed
send_packed-Handed params req d w async =
    let rsp = params.rsp_msgs in
    rw async (elim (Bool-cases (is_ok (call_async_sgl params.client req rsp d w).0)) [
      | inl sent ↦ rw sent λ good. call_async_sgl-Handed params.client req rsp d w sent
      | inr failed ↦ rw failed λ good. cc
    ])

-- An asynchronous OckRpcClientCallWithParam, packed without an error where its guards do not refuse
-- it, which answers OCK_RPC_OK gives back none of the blocks that it was granted, all of them by the
-- allocator of its client, and the last call of the library got the address of an AsyncCbInfo which
-- holds the address of each of them, once, with the client and the user's callback and argument.
-- memcpy_s copies no more than the room it is given, and the segment size is a uint32_t.
pub client_call_with_param-HandsOver :
    (params : CallParams) (msgs : ℕ → RpcMessage) (d : CallDone) (w : World)
    → Calls params msgs w
    → params.done ≡ some d
    → let r = client_call_with_param (some params) w in
      is_ok r.0 ≡ true → HandsOver w r.1 params.client d
client_call_with_param-HandsOver params msgs d w c async good =
    after_call params msgs w c
      (λ r. is_ok r.0 ≡ true → UsesOwn params.client w r.1 → HandsOver w r.1 params.client d)
      (λ good own. cc)
      (λ u req room f good own. record {
        blocks = f.blocks;
        blocked = send_packed-async params req d async f;
        own = own;
        addrs = request_addresses 0 req.iov_count req.iov;
        handed = send_packed-Handed params req d u async good;
        same = λ acc.
            rev_onto-request_addresses 0 req.iov_count req.iov acc
            ∙ freed_onto-addresses req.iov_count req.iov acc
            ∙ ap (λ a. a ++ acc) (Fits-addresses f.blocks req.iov_count req.iov f.fits);
      })
      good (uses_own params w)
