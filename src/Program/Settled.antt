-- ===== src/Program/Settled.antt =====
-- An asynchronous OckRpcClientCallWithParam and the OckRpcCallbackFunc that ends it, both of
-- src/hcom4db.cpp: every block comes back.
use hcom4db.Base.{
  ℕ, ◌==◌, ◌≡◌, ap, ◌∙◌, sym, ℤ, true, List, [], ◌∷◌, ◌++◌, some, map, if◌then◌else◌, arith,
}
use hcom4db.Client.Async.Given.{carried}
use hcom4db.Client.Blocks.{CanFree, released}
use hcom4db.Client.Own.{UsesOwn, allocator_at, strangers}
use hcom4db.Client.Call.{CallParams, callback_to, client_call_with_param}
use hcom4db.Client.Call.Handed.{HandsOver, client_call_with_param-HandsOver}
use hcom4db.Client.Call.Released.{Blocked, Calls}
use hcom4db.Client.Callback.{int_of, ock_rpc_callback_func}
use hcom4db.Client.Callback.Quiet.{completions}
use hcom4db.Client.Callback.Completed.{Ends, ock_rpc_callback_func-Completed}
use hcom4db.Hcom.Context.{service_get_result}
use hcom4db.Hcom.Types.{CallDone, RpcMessage}
use hcom4db.Hcom.World.{World, is_ok}

-- From `w` to `w'` a call was granted blocks and gave none back; from `u` to `u'` they came back to the
-- allocator that granted them, and the user was told.
pub record Settled (w w' u u' : World) (client : ℕ) (d : CallDone) (result : ℤ) : Type 0 where
  pub blocks : List (ℕ × ℕ)
  pub blocked : Blocked w w' blocks []
  pub granted_by : UsesOwn client w w'
  pub back_to :
      strangers (allocator_at client w) u'.trace ≡ strangers (allocator_at client w) u.trace
  pub frees : released u'.trace ≡ map (λ b. b.0) blocks ++ released u.trace
  pub tells :
      completions u'.trace
      ≡ (if d.cb == 0 then completions u.trace else (d.cb, result, d.arg) ∷ completions u.trace)

settle_handed :
    {w w' u : World} {client : ℕ} {d : CallDone} (h : HandsOver w w' client d) (at context : ℕ)
    → allocator_at client u ≡ allocator_at client w
    → u.cb_infos at ≡ some h.handed.info
    → CanFree u
    → Ends context u
    → Settled w w' u
        (ock_rpc_callback_func at context u).1
        client
        d
        (int_of (service_get_result context u).0.out)
settle_handed {u = u} h at context same found free e =
    let end =
      ock_rpc_callback_func-Completed at context h.handed.info h.addrs u e found free
        h.handed.owns in
    record {
      blocks = h.blocks;
      blocked = h.blocked;
      granted_by = h.own;
      back_to = rw (h.handed.client_of, same) at end.own;
      frees = end.frees ∙ h.same (released u.trace);
      tells = ground (arith, end.tells, h.handed.cb, h.handed.arg);
    }

-- Where an asynchronous OckRpcClientCallWithParam whose request is packed answers OCK_RPC_OK, and the
-- library later reports the end of the call with the address that the last call of the library got,
-- the AsyncCbInfo there being as it was and the client having the same allocator: the call gave back
-- none of the blocks that this allocator granted it, OckRpcCallbackFunc gives back every one of them,
-- once, to this allocator, and it runs the user's callback, if there is one, once, with the library's
-- result and the user's argument. The allocator's free is bound, memcpy_s copies no more than the room
-- it is given, and the segment size is a uint32_t.
pub ock_rpc_callback_func-settles :
    (params : CallParams) (msgs : ℕ → RpcMessage) (d : CallDone) (at context : ℕ) (w u : World)
    → Calls params msgs w
    → params.done ≡ some d
    → CanFree u
    → Ends context u
    → let r = client_call_with_param (some params) w in
      is_ok r.0 ≡ true
      → carried r.1.trace ≡ some (callback_to at)
      → u.cb_infos at ≡ r.1.cb_infos at
      → allocator_at params.client u ≡ allocator_at params.client w
      → Settled w r.1 u
          (ock_rpc_callback_func at context u).1
          params.client
          d
          (int_of (service_get_result context u).0.out)
ock_rpc_callback_func-settles params msgs d at context w u c async free e good got kept own =
    let h = client_call_with_param-HandsOver params msgs d w c async good in
    let same : h.handed.at ≡ at = cc (h.handed.given) in
    settle_handed h at context own
      (kept ∙ ap (client_call_with_param (some params) w).1.cb_infos (sym same) ∙ h.handed.found)
      free e
