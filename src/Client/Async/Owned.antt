-- ===== src/Client/Async/Owned.antt =====
-- OckRpcRead, OckRpcReadSgl, OckRpcWrite, OckRpcWriteSgl, OckRpcClientCallRndv and
-- OckRpcClientCallRndvIov of src/hcom4db.cpp, asynchronous: who owns the AsyncCbInfo.
use hcom4db.Base.{ℕ, ◌≡◌, refl, Option, none, some, Option-cases, inl, inr}
use hcom4db.Hcom.Types.{CallDone, Func, Request, SglRequest}
use hcom4db.Hcom.Call.{Call}
use hcom4db.Hcom.World.{World, invoke_int}
use hcom4db.Hcom.Channel.{
  channel_read, channel_read_sgl, channel_write, channel_write_sgl, channel_async_rndv_call,
  channel_async_rndv_sgl_call,
}
use hcom4db.Hcom.Types.{OpInfo}
use hcom4db.Client.Async.{give_info, as_is, as_err, runs, told_to}
use hcom4db.Client.Async.Given.{FreshInfos, Outcome, give_info-Outcome, passed}
use hcom4db.Client.OneSided.{rpc_read, rpc_read_sgl, rpc_write, rpc_write_sgl}
use hcom4db.Client.Rndv.{
  MessageInfo, MessageInfoIov, call_rndv_with, call_rndv_iov_with, client_call_rndv,
  client_call_rndv_iov, rndv_info, rndv_iov_checked,
}

one_sided_given :
    (client : ℕ) (d : CallDone) (w : World)
    → FreshInfos w
    → (c : ℕ → Call) → ((a : ℕ) → passed (c a) ≡ some (runs Func.ock_rpc_callback_func a))
    → Outcome Func.ock_rpc_callback_func d w
        (give_info (told_to (some d)) (λ a. invoke_int (c a)) as_is w)
one_sided_given client d w fresh c carries =
    give_info-Outcome (told_to (some d)) c as_is Func.ock_rpc_callback_func d w fresh
      (λ g. (refl, refl)) carries (λ x bad. bad)

-- Each asynchronous one-sided operation either answers OCK_RPC_OK and has given the library the
-- address of an AsyncCbInfo with the user's callback and argument, or answers an error and leaves
-- every AsyncCbInfo as it was. malloc gives storage that no AsyncCbInfo has.
pub one_sided-Outcome :
    (client : ℕ) (req : Request) (sgl : Option SglRequest) (d : CallDone) (w : World)
    → FreshInfos w
    → Outcome Func.ock_rpc_callback_func d w (rpc_read client (some req) (some d) w)
      × Outcome Func.ock_rpc_callback_func d w (rpc_read_sgl client sgl (some d) w)
      × Outcome Func.ock_rpc_callback_func d w (rpc_write client (some req) (some d) w)
      × Outcome Func.ock_rpc_callback_func d w (rpc_write_sgl client sgl (some d) w)
unfolding rpc_read rpc_read_sgl rpc_write rpc_write_sgl channel_read channel_read_sgl channel_write
    channel_write_sgl
one_sided-Outcome client req sgl d w fresh =
    let f = Func.ock_rpc_callback_func in
    (
      one_sided_given client d w fresh (λ a. Call.channel_read client req (some (runs f a)))
          (λ a. refl),
      one_sided_given client d w fresh (λ a. Call.channel_read_sgl client sgl (some (runs f a)))
          (λ a. refl),
      one_sided_given client d w fresh (λ a. Call.channel_write client req (some (runs f a)))
          (λ a. refl),
      one_sided_given client d w fresh (λ a. Call.channel_write_sgl client sgl (some (runs f a)))
          (λ a. refl),
    )

call_rndv_with-Outcome :
    (client : ℕ) (info : OpInfo) (req : Request) (rsp : ℕ) (d : CallDone) (w : World)
    → FreshInfos w
    → Outcome Func.ock_rpc_callback_func d w (call_rndv_with client info req rsp (some d) w)
unfolding call_rndv_with channel_async_rndv_call
call_rndv_with-Outcome client info req rsp d w fresh =
    let f = Func.ock_rpc_callback_func in
    give_info-Outcome (rndv_info d rsp)
      (λ a. Call.channel_async_rndv_call client info req (some (runs f a))) as_err f d w fresh
      (λ g. (refl, refl)) (λ a. refl) (λ x bad. refl)

call_rndv_iov_with-Outcome :
    (client : ℕ) (info : OpInfo) (req : SglRequest) (rsp : ℕ) (d : CallDone) (w : World)
    → FreshInfos w
    → Outcome Func.ock_rpc_callback_func d w (call_rndv_iov_with client info req rsp (some d) w)
unfolding call_rndv_iov_with channel_async_rndv_sgl_call
call_rndv_iov_with-Outcome client info req rsp d w fresh =
    let f = Func.ock_rpc_callback_func in
    give_info-Outcome (rndv_info d rsp)
      (λ a. Call.channel_async_rndv_sgl_call client info req (some (runs f a))) as_err f d w fresh
      (λ g. (refl, refl)) (λ a. refl) (λ x bad. refl)

client_call_rndv-Outcome :
    (client msg_id : ℕ) (request : Option MessageInfo) (rsp : Option ℕ) (d : CallDone) (w : World)
    → FreshInfos w
    → Outcome Func.ock_rpc_callback_func d w (client_call_rndv client msg_id request rsp (some d) w)
unfolding client_call_rndv
client_call_rndv-Outcome client msg_id none rsp d w fresh = inr (refl, λ q. refl)
client_call_rndv-Outcome client msg_id (some request) none d w fresh = inr (refl, λ q. refl)
client_call_rndv-Outcome client msg_id (some request) (some rsp) d w fresh =
    call_rndv_with-Outcome client _ _ rsp d w fresh

client_call_rndv_iov-Outcome :
    (client msg_id : ℕ) (iov : Option MessageInfoIov) (rsp : Option ℕ) (d : CallDone) (w : World)
    → FreshInfos w
    → Outcome Func.ock_rpc_callback_func d w (client_call_rndv_iov client msg_id iov rsp (some d) w)
unfolding client_call_rndv_iov
client_call_rndv_iov-Outcome client msg_id iov rsp d w fresh =
    elim (Option-cases (rndv_iov_checked iov rsp)) [
      | inl refused ↦ rw refused (inr (refl, λ q. refl))
      | inr ((count, reqs, to), accepted) ↦
          rw accepted (call_rndv_iov_with-Outcome client _ _ to d w fresh)
    ]

-- The same for the asynchronous rendezvous calls, whatever their arguments.
pub rndv-Outcome :
    (client msg_id : ℕ) (request : Option MessageInfo) (iov : Option MessageInfoIov)
    (rsp : Option ℕ) (d : CallDone) (w : World)
    → FreshInfos w
    → Outcome Func.ock_rpc_callback_func d w (client_call_rndv client msg_id request rsp (some d) w)
      × Outcome Func.ock_rpc_callback_func d w
          (client_call_rndv_iov client msg_id iov rsp (some d) w)
rndv-Outcome client msg_id request iov rsp d w fresh = (
  client_call_rndv-Outcome client msg_id request rsp d w fresh,
  client_call_rndv_iov-Outcome client msg_id iov rsp d w fresh,
)
