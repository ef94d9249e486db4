-- ===== src/Server/Received.antt =====
-- OckRpcReceiveHandle of src/hcom4db.cpp: which handlers a message reaches.
use hcom4db.Base.{
  Bool, true, false, ap, none, ◌≢◌, ◌+◌, ◌-◌, ◌%◌, ◌^◌, ℕ, ◌≡◌, ◌==◌, refl, ◌∙◌, inl, inr, ℤ, pos,
  List, [], ◌∷◌, ◌++◌, some, Bool-cases, Option-cases, to_i16, arith,
}
use hcom4db.Base.Maps.{lookup, int_eq}
use hcom4db.Hcom.Call.{Call}
use hcom4db.Hcom.Types.{RpcMessage, ContextType, ock_rpc_ok, ock_rpc_err}
use hcom4db.Hcom.Context.{
  service_get_context_type, service_get_message_data, service_get_message_data_len,
  service_get_op_info,
}
use hcom4db.Hcom.World.{World, Event, Reply, handle, load_msg_id, is_ok, invoke_int, invoke_value}
use hcom4db.Server.{behind_header, dispatch, receive_by_op_info, receive_message, receive_handle}

abbrev handled_by : Event → List (ℕ × ℕ × RpcMessage)
handled_by (handle h ctx msg) = (h, ctx, msg) ∷ []
handled_by _ = []

-- The handlers that ran, with their context and message, the newest first.
abbrev pub handled : List Event → List (ℕ × ℕ × RpcMessage)
handled [] = []
handled (e ∷ t) = handled_by e ++ handled t

-- The queries of OckRpcReceiveHandle and their answers, in order.
abbrev pub got_data : ℕ → World → Reply × World
got_data ctx u = invoke_value (Call.service_get_message_data ctx) u

abbrev pub got_len : ℕ → World → Reply × World
got_len ctx u = invoke_value (Call.service_get_message_data_len ctx) (got_data ctx u).1

abbrev pub got_type : ℕ → World → Reply × World
got_type ctx u = invoke_int (Call.service_get_context_type ctx) (got_len ctx u).1

abbrev got_info : ℕ → World → Reply × World
got_info ctx u = invoke_int (Call.service_get_op_info ctx) (got_type ctx u).1

-- The id that stands in front of the message.
abbrev got_id : ℕ → World → Reply
got_id ctx u =
    (got_type ctx u).1.lib (load_msg_id (got_data ctx u).0.out ∷ (got_type ctx u).1.trace)

-- The message as the library hands it over.
abbrev whole : ℕ → World → RpcMessage
whole ctx u = record { data_ptr = (got_data ctx u).0.out; len = (got_len ctx u).0.out }

-- No handler ran.
abbrev pub IsUnhandled : World → World → Type 0
IsUnhandled w w' = (handled w'.trace ≡ handled w.trace) × (w'.handle_map ≡ w.handle_map)

-- The handler that the map holds under the id ran once, on this context and message; where the map
-- holds none, no handler ran.
abbrev pub IsDispatched : ℕ → ℕ → RpcMessage → World → ℤ × World → Type 0
IsDispatched msg_id ctx msg w r =
    (r.0 ≡ ock_rpc_ok)
    × (handled r.1.trace ≡ (elim (lookup (to_i16 (pos msg_id)) w.handle_map) [
      | none ↦ handled w.trace
      | some handler ↦ (handler, ctx, msg) ∷ handled w.trace
    ]))

abbrev pub is_raw : ContextType → Bool
is_raw ContextType.service_received_raw = true
is_raw _ = false

-- What a message that comes in leads to, by the answers of the library: a raw message goes to the
-- handler of the id in front, without its two bytes, any other whole to that of its operation code.
pub data Received (ctx : ℕ) (w : World) : ℤ × World → Type 0 where
  no_data :
      (u : World) → (got_data ctx w).0.out ≡ 0 → IsUnhandled w u → Received ctx w (ock_rpc_err, u)
  no_type :
      (u : World)
      → (got_data ctx w).0.out ≢ 0
      → is_ok (got_type ctx w).0.ret ≡ false
      → IsUnhandled w u
      → Received ctx w (ock_rpc_err, u)
  raw :
      (r : ℤ × World)
      → (got_data ctx w).0.out ≢ 0
      → is_ok (got_type ctx w).0.ret ≡ true
      → is_raw (got_type ctx w).0.context_type ≡ true
      → IsDispatched
          (got_id ctx w).out
          ctx
          (record {
            data_ptr = (whole ctx w).data_ptr + 2;
            len = ((whole ctx w).len + 2 ^ 64 - 2) % 2 ^ 64;
          })
          w
          r
      → Received ctx w r
  no_info :
      (u : World)
      → (got_data ctx w).0.out ≢ 0
      → is_ok (got_type ctx w).0.ret ≡ true
      → is_raw (got_type ctx w).0.context_type ≡ false
      → is_ok (got_info ctx w).0.ret ≡ false
      → IsUnhandled w u
      → Received ctx w (ock_rpc_err, u)
  by_code :
      (r : ℤ × World)
      → (got_data ctx w).0.out ≢ 0
      → is_ok (got_type ctx w).0.ret ≡ true
      → is_raw (got_type ctx w).0.context_type ≡ false
      → is_ok (got_info ctx w).0.ret ≡ true
      → IsDispatched (got_info ctx w).0.out ctx (whole ctx w) w r
      → Received ctx w r

dispatch-IsDispatched :
    (msg_id ctx : ℕ) (msg : RpcMessage) (w u : World)
    → IsUnhandled w u
    → IsDispatched msg_id ctx msg w (dispatch msg_id ctx msg u)
unfolding dispatch
dispatch-IsDispatched msg_id ctx msg w u (same, map) =
    elim (Option-cases (lookup (to_i16 (pos msg_id)) w.handle_map)) [
      | inl missing ↦ rw (map, missing) (refl, same)
      | inr (handler, found) ↦ rw (map, found) (refl, ap (λ t. (handler, ctx, msg) ∷ t) same)
    ]

invoke_int-IsUnhandled : (c : Call) (w : World) → IsUnhandled w (invoke_int c w).1
unfolding invoke_int
invoke_int-IsUnhandled c w = ground arith

invoke_value-IsUnhandled : (c : Call) (w : World) → IsUnhandled w (invoke_value c w).1
unfolding invoke_value
invoke_value-IsUnhandled c w = ground arith

got_type-IsUnhandled : (ctx : ℕ) (w : World) → IsUnhandled w (got_type ctx w).1
got_type-IsUnhandled ctx w =
    let data_ptr = invoke_value-IsUnhandled (Call.service_get_message_data ctx) w in
    let len = invoke_value-IsUnhandled (Call.service_get_message_data_len ctx) (got_data ctx w).1 in
    let type = invoke_int-IsUnhandled (Call.service_get_context_type ctx) (got_len ctx w).1 in
    (type.0 ∙ len.0 ∙ data_ptr.0, type.1 ∙ len.1 ∙ data_ptr.1)

receive_by_op_info-Received :
    (ctx : ℕ) (w : World)
    → (got_data ctx w).0.out ≢ 0
    → is_ok (got_type ctx w).0.ret ≡ true
    → is_raw (got_type ctx w).0.context_type ≡ false
    → Received ctx w (receive_by_op_info ctx (whole ctx w) (got_type ctx w).1)
unfolding receive_by_op_info service_get_op_info
receive_by_op_info-Received ctx w there known other =
    let before = got_type-IsUnhandled ctx w in
    let last = invoke_int-IsUnhandled (Call.service_get_op_info ctx) (got_type ctx w).1 in
    let quiet : IsUnhandled w (got_info ctx w).1 = (last.0 ∙ before.0, last.1 ∙ before.1) in
    elim (Bool-cases (is_ok (got_info ctx w).0.ret)) [
      | inl found ↦ rw found (
          Received.by_code _ there known other found (
            dispatch-IsDispatched (got_info ctx w).0.out ctx (whole ctx w) w (got_info ctx w).1
              quiet))
      | inr missing ↦ rw missing (Received.no_info _ there known other missing quiet)
    ]

-- Behind the tests of the data and of the type.
receive_message-Received :
    (ctx : ℕ) (w : World)
    → (got_data ctx w).0.out ≢ 0
    → is_ok (got_type ctx w).0.ret ≡ true
    → (t : ContextType) → t ≡ (got_type ctx w).0.context_type
    → Received ctx w (receive_message t ctx (whole ctx w) (got_type ctx w).1)
unfolding receive_message
receive_message-Received ctx w there known ContextType.service_received_raw e =
    Received.raw _ there known (rw (← e) refl) (
      dispatch-IsDispatched (got_id ctx w).out ctx (behind_header (whole ctx w)) w
        (record (got_type ctx w).1 {
          trace = load_msg_id (got_data ctx w).0.out ∷ (got_type ctx w).1.trace;
        })
        (got_type-IsUnhandled ctx w))
receive_message-Received ctx w there known _ e =
    receive_by_op_info-Received ctx w there known (rw (← e) refl)

-- OckRpcReceiveHandle, by the answers of the library. Without data, without a context type, or without
-- an operation code where one is needed, it answers OCK_RPC_ERR and runs no handler. Otherwise it
-- answers OCK_RPC_OK and runs, once, on the context that it received, the handler that is registered
-- for the id: for a raw message the id that is read at its start, on what is behind the two bytes of
-- the id; for any other the operation code, on the whole message. Where no handler is registered for
-- the id it runs none.
pub receive_handle_lem : (ctx : ℕ) (w : World) → Received ctx w (receive_handle ctx w)
unfolding receive_handle service_get_message_data service_get_message_data_len
    service_get_context_type
receive_handle_lem ctx w = elim (Bool-cases ((got_data ctx w).0.out == 0)) [
  | inl null ↦ rw null (
      Received.no_data _ (ground arith)
        (invoke_value-IsUnhandled (Call.service_get_message_data ctx) w))
  | inr some_data ↦
      (let there : (got_data ctx w).0.out ≢ 0 = ground arith in
        rw some_data (elim (Bool-cases (is_ok (got_type ctx w).0.ret)) [
          | inl known ↦ rw known (receive_message-Received ctx w there known _ refl)
          | inr failed ↦ rw failed (Received.no_type _ there failed (got_type-IsUnhandled ctx w))
        ]))
]
