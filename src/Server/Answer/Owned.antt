-- ===== src/Server/Answer/Owned.antt =====
-- OckRpcServerReply and OckRpcServerReplyRndv of src/hcom4db.cpp: who owns the AsyncCbInfo, and what
-- ResponseCallBack does with it.
use hcom4db.Base.{
  ℕ, ◌≡◌, ◌==◌, refl, ap, ◌∙◌, ℤ, ◌∷◌, Option, none, some, Option-cases, Bool-cases, inl, inr,
  arith, if◌then◌else◌,
}
use hcom4db.Hcom.Types.{AsyncCbInfo, CallDone, ContextType, Func, Message, RpcMessage, zero_op_info}
use hcom4db.Hcom.Call.{Call}
use hcom4db.Hcom.Context.{
  service_get_channel, service_get_context_type, service_get_rsp_ctx, service_rndv_reply,
  service_get_result,
}
use hcom4db.Hcom.Channel.{channel_post_response, channel_post_response_raw}
use hcom4db.Hcom.World.{World, is_ok, invoke_int}
use hcom4db.Client.Async.{as_err, give_info, runs, told_to}
use hcom4db.Client.Async.Given.{FreshInfos, Given, Outcome, give_info-Outcome}
use hcom4db.Client.Callback.{response_call_back, report, int_of}
use hcom4db.Client.Callback.Quiet.{completions}
use hcom4db.Server.Answer.{checked_reply, post_reply, send_reply, server_reply, server_reply_rndv}

-- The user's callback; null where there is no `done`.
abbrev pub wanted : Option CallDone → CallDone
wanted none = record { cb = 0; arg = 0 }
wanted (some d) = d

told_to-wanted :
    (o : Option CallDone) (g : AsyncCbInfo)
    → ((told_to o g).cb ≡ (wanted o).cb) × ((told_to o g).arg ≡ (wanted o).arg)
told_to-wanted none g = (refl, refl)
told_to-wanted (some d) g = (refl, refl)

posted-Outcome :
    (t : ContextType) (channel rsp_ctx : ℕ) (req : Message) (o : Option CallDone) (w : World)
    → FreshInfos w
    → Outcome Func.response_call_back (wanted o) w (
        give_info
          (told_to o)
          (λ a. post_reply t channel rsp_ctx req (runs Func.response_call_back a))
          as_err
          w)
unfolding post_reply channel_post_response channel_post_response_raw
posted-Outcome ContextType.service_received_raw channel rsp_ctx req o w fresh =
    give_info-Outcome (told_to o)
      (λ a.
        Call.channel_post_response_raw channel rsp_ctx req (some (runs Func.response_call_back a)))
      as_err _ (wanted o) w fresh (told_to-wanted o) (λ a. refl) (λ x bad. refl)
posted-Outcome _ channel rsp_ctx req o w fresh =
    give_info-Outcome (told_to o)
      (λ a.
        Call.channel_post_response channel rsp_ctx zero_op_info req
          (some (runs Func.response_call_back a)))
      as_err _ (wanted o) w fresh (told_to-wanted o) (λ a. refl) (λ x bad. refl)

-- What a query of the context leaves alone.
invoke_int-same :
    (c : Call) (w : World)
    → ((invoke_int c w).1.lib ≡ w.lib) × ((invoke_int c w).1.cb_infos ≡ w.cb_infos)
unfolding invoke_int
invoke_int-same c w = ground arith

Outcome-after :
    (f : Func) (d : CallDone) (w u : World) (r : ℤ × World)
    → u.cb_infos ≡ w.cb_infos
    → Outcome f d u r
    → Outcome f d w r
Outcome-after f d w u r same (inl given) = inl given
Outcome-after f d w u r same (inr (bad, kept)) = inr (bad, λ q. kept q ∙ ap (λ g. g q) same)

send_reply-Outcome :
    (ctx : ℕ) (req : Message) (o : Option CallDone) (w : World)
    → FreshInfos w
    → Outcome Func.response_call_back (wanted o) w (send_reply ctx req o w)
unfolding send_reply service_get_channel service_get_rsp_ctx service_get_context_type
send_reply-Outcome ctx req o w fresh =
    let channel = invoke_int (Call.service_get_channel ctx) w in
    let rsp_ctx = invoke_int (Call.service_get_rsp_ctx ctx) channel.1 in
    let t = invoke_int (Call.service_get_context_type ctx) rsp_ctx.1 in
    let (lib, infos) = invoke_int-same (Call.service_get_channel ctx) w in
    let (lib', infos') = invoke_int-same (Call.service_get_rsp_ctx ctx) channel.1 in
    let (lib'', infos'') = invoke_int-same (Call.service_get_context_type ctx) rsp_ctx.1 in
    let same : t.1.cb_infos ≡ w.cb_infos = infos'' ∙ infos' ∙ infos in
    let same_lib : t.1.lib ≡ w.lib = lib'' ∙ lib' ∙ lib in
    elim (Bool-cases (is_ok channel.0.ret)) [
      | inr bad ↦ rw bad (inr (refl, λ q. ap (λ g. g q) infos))
      | inl a ↦ rw a (elim (Bool-cases (is_ok rsp_ctx.0.ret)) [
        | inr bad ↦ rw bad (inr (refl, λ q. ap (λ g. g q) (infos' ∙ infos)))
        | inl b ↦ rw b (elim (Bool-cases (is_ok t.0.ret)) [
          | inr bad ↦ rw bad (inr (refl, λ q. ap (λ g. g q) same))
          | inl c ↦ rw c (
              Outcome-after _ (wanted o) w t.1
                (give_info (told_to o)
                  (λ a.
                    post_reply t.0.context_type channel.0.out rsp_ctx.0.out req
                      (runs Func.response_call_back a))
                  as_err t.1)
                same
                (posted-Outcome t.0.context_type channel.0.out rsp_ctx.0.out req o t.1
                  (rw (same, same_lib) fresh)))
        ])
      ])
    ]

server_reply-Outcome :
    (ctx msg_id : ℕ) (reply : Option RpcMessage) (o : Option CallDone) (w : World)
    → FreshInfos w
    → Outcome Func.response_call_back (wanted o) w (server_reply ctx msg_id reply o w)
unfolding server_reply
server_reply-Outcome ctx msg_id reply o w fresh = elim (Option-cases (checked_reply reply)) [
  | inl refused ↦ rw refused (inr (refl, λ q. refl))
  | inr (req, accepted) ↦ rw accepted (send_reply-Outcome ctx req o w fresh)
]

server_reply_rndv-Outcome :
    (ctx msg_id : ℕ) (reply : Option RpcMessage) (o : Option CallDone) (w : World)
    → FreshInfos w
    → Outcome Func.response_call_back (wanted o) w (server_reply_rndv ctx msg_id reply o w)
unfolding server_reply_rndv service_rndv_reply
server_reply_rndv-Outcome ctx msg_id reply o w fresh = elim (Option-cases (checked_reply reply)) [
  | inl refused ↦ rw refused (inr (refl, λ q. refl))
  | inr (req, accepted) ↦ rw accepted (
      give_info-Outcome (told_to o)
        (λ a. Call.service_rndv_reply ctx zero_op_info req (some (runs Func.response_call_back a)))
        as_err _ (wanted o) w fresh (told_to-wanted o) (λ a. refl) (λ x bad. refl))
]

-- OckRpcServerReply and OckRpcServerReplyRndv, with a `done` or without, either answer OCK_RPC_OK
-- and have given the library the address of an AsyncCbInfo with the user's callback and argument
-- (null ones without a `done`), for ResponseCallBack; or they answer an error and leave every
-- AsyncCbInfo as it was. malloc gives storage that no AsyncCbInfo has.
pub reply-Outcome :
    (ctx msg_id : ℕ) (reply : Option RpcMessage) (o : Option CallDone) (w : World)
    → FreshInfos w
    → Outcome Func.response_call_back (wanted o) w (server_reply ctx msg_id reply o w)
      × Outcome Func.response_call_back (wanted o) w (server_reply_rndv ctx msg_id reply o w)
reply-Outcome ctx msg_id reply o w fresh = (
  server_reply-Outcome ctx msg_id reply o w fresh,
  server_reply_rndv-Outcome ctx msg_id reply o w fresh,
)

-- What ResponseCallBack does with an AsyncCbInfo that is allocated, where the query of the result
-- answers `result`.
abbrev Told : ℕ → ℕ → AsyncCbInfo → World → World → Type 0
Told at context info u v =
    (v.cb_infos at ≡ none)
    × (completions v.trace ≡ (
        if info.cb == 0
        then completions u.trace
        else (info.cb, int_of (service_get_result context u).0.out, info.arg)
          ∷ completions u.trace))

response_call_back-Told :
    (at context : ℕ) (info : AsyncCbInfo) (u : World)
    → u.cb_infos at ≡ some info
    → Told at context info u (response_call_back at context u).1
unfolding response_call_back report service_get_result invoke_int
response_call_back-Told at context info u held = elim (Bool-cases (info.cb == 0)) [
  | inl null ↦ (ground arith, ground arith)
  | inr there ↦ (ground arith, ground arith)
]

-- ResponseCallBack, at any later time when the AsyncCbInfo of a reply is as it was given, frees the
-- AsyncCbInfo. Where the user gave no callback it runs none; otherwise it runs the user's callback
-- once, with the result that Service_GetResult leaves and the user's argument.
pub response_call_back-once :
    (o : Option CallDone) (w u : World) (context : ℕ)
    (g : Given Func.response_call_back (wanted o) w)
    → u.cb_infos g.at ≡ some g.info
    → let v = (response_call_back g.at context u).1 in
      (v.cb_infos g.at ≡ none)
      × (completions v.trace ≡ (
          if (wanted o).cb == 0
          then completions u.trace
          else ((wanted o).cb, int_of (service_get_result context u).0.out, (wanted o).arg)
            ∷ completions u.trace))
response_call_back-once o w u context g held =
    let (freed, told) = response_call_back-Told g.at context g.info u held in
    (freed, rw (g.cb, g.arg) at told)
