-- ===== src/Client/Callback.antt =====
-- The completion callbacks of src/hcom4db.cpp: ResponseCallBack and OckRpcCallbackFunc, which own the
-- AsyncCbInfo that their argument points to.
pub mod Quiet
pub mod Completed
use hcom4db.Base.{
  ℕ, zero, suc, ◌+◌, ◌==◌, ℤ, List, Option, none, some, get_or, if◌then◌else◌, signed_of, ◌^◌,
}
use hcom4db.Hcom.Types.{AsyncCbInfo, ContextType, ock_rpc_ok}
use hcom4db.Hcom.Context.{
  service_get_result, service_get_context_type, service_get_message_data,
  service_get_message_data_len,
}
use hcom4db.Hcom.World.{
  M, free, malloc, memcpy_s, done, dangling, pure, ◌>>=◌, ◌>>◌, gets, modify, ask, emit, is_ok,
  update,
}
use hcom4db.Client.Blocks.{mem_free}

-- An `int` out of its bit pattern.
abbrev pub int_of : ℕ → ℤ
int_of = signed_of (2 ^ 31)

-- `free` of an AsyncCbInfo.
abbrev pub free_info : ℕ → M (Unit {0})
free_info addr = do
  emit (free addr)
  modify (λ w. record w { cb_infos = update w.cb_infos addr none })

-- What a pointer to an AsyncCbInfo leads to; there is nothing to read behind a dangling one.
abbrev pub with_info : ℕ → (AsyncCbInfo → M (Unit {0})) → M (Unit {0})
with_info addr use_it = do
  info ← gets (λ w. w.cb_infos addr)
  elim info [ none ↦ emit (dangling addr) | some i ↦ use_it i ]

unfoldable pub report : AsyncCbInfo → ℤ → M (Unit {0})
report info result = if info.cb == 0 then pure tt else emit (done info.cb result info.arg)

-- `out` is what `result`, which was OCK_RPC_OK, holds after the query, also where that fails.
unfoldable pub response_call_back : ℕ → ℕ → M (Unit {0})
unfolding report service_get_result
response_call_back arg context = with_info arg λ info. do
  if info.cb == 0 then pure tt else (do r ← service_get_result context; report info (int_of r.out))
  free_info arg

-- `for (i = from; i < from + n; i++) OckRpcMemFree(client, reqAddr[i]);`
unfoldable pub free_addresses : ℕ → List ℕ → ℕ → ℕ → M (Unit {0})
free_addresses client addrs from zero = pure tt
free_addresses client addrs from (suc n) = do
  mem_free client (get_or addrs from 0)
  free_addresses client addrs (from + 1) n

unfoldable pub free_request_blocks : AsyncCbInfo → M (Unit {0})
free_request_blocks info = elim info.req_addr [
  | none ↦ pure tt
  | some (array, addrs) ↦ free_addresses info.client addrs 0 info.req_cnt >> emit (free array)
]

-- The response is copied to the user's message, into storage that is allocated where there is none.
unfoldable pub copy_response : ℕ → ℕ → M (Unit {0})
copy_response context rsp = do
  len ← service_get_message_data_len context
  old ← gets (λ w. w.rpc_messages rsp)
  data_ptr ←
      (if old.data_ptr == 0
        then (do fresh ← ask (malloc len.out); pure fresh.out)
        else pure old.data_ptr)
  modify (λ w. record w {
    rpc_messages = update w.rpc_messages rsp (record { data_ptr = data_ptr; len = len.out });
  })
  src ← service_get_message_data context
  count ← service_get_message_data_len context
  ask (memcpy_s data_ptr len.out src.out count.out)
  pure tt

-- A call without a response has nothing to copy to.
unfoldable pub copy_to : ℕ → Option ℕ → M (Unit {0})
copy_to context none = pure tt
copy_to context (some rsp) = copy_response context rsp

unfoldable pub complete_two_side : ℕ → ℤ → AsyncCbInfo → ℕ → M (Unit {0})
unfolding free_request_blocks report
complete_two_side arg result info context = do
  free_info arg
  free_request_blocks info
  copy_to context info.rsp
  report info result

unfoldable pub complete_one_side : ℕ → ℤ → AsyncCbInfo → M (Unit {0})
complete_one_side arg result info = do emit (done info.cb result info.arg); free_info arg

unfoldable pub complete : ℕ → ℕ → ℤ → ContextType → M (Unit {0})
unfolding complete_two_side complete_one_side
complete arg context result ContextType.service_one_side =
    with_info arg (complete_one_side arg result)
complete arg context result _ = with_info arg (λ info. complete_two_side arg result info context)

unfoldable pub ock_rpc_callback_func : ℕ → ℕ → M (Unit {0})
unfolding complete service_get_result service_get_context_type
ock_rpc_callback_func arg context = do
  result ← service_get_result context
  if is_ok result.ret
      then (do
        cb_type ← service_get_context_type context
        if is_ok cb_type.ret
            then complete arg context (int_of result.out) cb_type.context_type
            else free_info arg)
      else free_info arg
