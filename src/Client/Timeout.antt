-- ===== src/Client/Timeout.antt =====
-- OckRpcClientSetTimeout of src/hcom4db.cpp: milliseconds come in as an int64_t, an int32_t of whole
-- seconds is kept, and a call passes it on as an int16_t.
use hcom4db.Base.{
  ℕ, ◌/◌, ◌<◌, ◌^◌, ◌-◌, ◌≡◌, refl, ap, ◌∙◌, ℤ, pos, negsuc, true, false, ◌∷◌, none, some, to_i16,
  to_i32, ltb, arith, Bool-cases, inl, inr,
}
use hcom4db.Hcom.Call.{Call, symbol}
use hcom4db.Hcom.Types.{RpcMessage}
use hcom4db.Hcom.Channel.{
  channel_post_send, channel_set_one_side_timeout, channel_set_two_side_timeout,
}
use hcom4db.Hcom.World.{M, World, library, ◌>>◌, modify, is_bound, invoke_int, invoke_void, is_ok}
use hcom4db.Client.Call.{call_sync, client_call, message_of}

abbrev pub timeout_seconds : ℤ → ℤ
timeout_seconds (pos ms) = to_i32 (pos (ms / 1000))
timeout_seconds (negsuc n) = to_i32 (negsuc n)

unfoldable pub set_timeout : ℕ → ℤ → M (Unit {0})
unfolding channel_set_one_side_timeout channel_set_two_side_timeout
set_timeout client timeout = do
  modify (λ w. record w { timeout_time = timeout_seconds timeout })
  channel_set_one_side_timeout client (timeout_seconds timeout)
  channel_set_two_side_timeout client (timeout_seconds timeout)

set_timeout-kept :
    (client : ℕ) (timeout : ℤ) (w : World)
    → let u = (set_timeout client timeout w).1 in
      (u.timeout_time ≡ timeout_seconds timeout) × (u.hcom_func ≡ w.hcom_func)
unfolding set_timeout channel_set_one_side_timeout channel_set_two_side_timeout invoke_void
set_timeout-kept client timeout w = ground arith

seconds_of : (ms : ℕ) → ms < 32768000 → to_i16 (timeout_seconds (pos ms)) ≡ pos (ms / 1000)
seconds_of ms small = ground arith

-- The call of the library that passes on a timeout.
abbrev pub sent_with : ℕ → ℕ → RpcMessage → ℤ → Call
sent_with client msg_id request timeout =
    Call.channel_post_send client (record { op_code = msg_id; timeout = timeout })
      (message_of request) none

not_longer : (n : ℕ) → n < 2 ^ 32 → ltb (2 ^ 32 - 1) n ≡ false
not_longer n short = ground arith

one_way :
    (client msg_id : ℕ) (request : RpcMessage) (u : World)
    → request.len < 2 ^ 32
    → is_bound "Channel_PostSend" u.hcom_func ≡ true
    → (client_call client msg_id (some request) none none u).1.trace
      ≡ library (sent_with client msg_id request (to_i16 u.timeout_time)) ∷ u.trace
unfolding client_call call_sync channel_post_send invoke_int symbol
one_way client msg_id request u short bound = rw (not_longer request.len short) (
    rw bound
      (elim (Bool-cases (
        is_ok
          (u.lib
            (library (sent_with client msg_id request (to_i16 u.timeout_time)) ∷ u.trace)).ret)) [
              | inl good ↦ rw good refl
              | inr bad ↦ rw bad refl
            ]))

-- After OckRpcClientSetTimeout with fewer than 32768000 milliseconds, OckRpcClientCall without
-- response and without `done` passes the whole seconds to Channel_PostSend, the rest is dropped.
pub client_call-set_timeout :
    (client ms msg_id : ℕ) (request : RpcMessage) (w : World)
    → ms < 32768000
    → request.len < 2 ^ 32
    → is_bound "Channel_PostSend" w.hcom_func ≡ true
    → let u = (set_timeout client (pos ms) w).1 in
      (client_call client msg_id (some request) none none u).1.trace
      ≡ library (sent_with client msg_id request (pos (ms / 1000))) ∷ u.trace
client_call-set_timeout client ms msg_id request w small short bound =
    let u = (set_timeout client (pos ms) w).1 in
    let (kept, table) = set_timeout-kept client (pos ms) w in
    one_way client msg_id request u short (ap (is_bound "Channel_PostSend") table ∙ bound)
    ∙ ap (λ t. library (sent_with client msg_id request t) ∷ u.trace)
        (ap to_i16 kept ∙ seconds_of ms small)
