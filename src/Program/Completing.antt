-- ===== src/Program/Completing.antt =====
-- OckRpcCallbackFunc of src/hcom4db.cpp keeps the program sound and holds no mutex.
use hcom4db.Base.{ℕ, refl, zero, suc, ◌+◌, ℤ, List, Option, none, some, Option-cases, inl, inr}
use hcom4db.Client.Callback.{
  complete, complete_one_side, complete_two_side, copy_response, copy_to, free_addresses,
  free_request_blocks, ock_rpc_callback_func, report, with_info,
}
use hcom4db.Hcom.Context.{
  service_get_context_type, service_get_message_data, service_get_message_data_len,
  service_get_result,
}
use hcom4db.Hcom.Types.{AsyncCbInfo, ContextType}
use hcom4db.Hcom.World.{M, dangling, emit}
use hcom4db.Program.Packing.{mem_free-Orderly, packing}
use hcom4db.Program.Orderly.{Orderly, bind-Orderly, emit-Orderly, gets-Orderly, pure-Orderly}

report-Orderly : (info : AsyncCbInfo) (r : ℤ) → Orderly (report info r)
unfolding report
report-Orderly info r = search packing

free_addresses-Orderly :
    (client : ℕ) (addrs : List ℕ) (i n : ℕ) → Orderly (free_addresses client addrs i n)
unfolding free_addresses
free_addresses-Orderly client addrs i zero = pure-Orderly tt
free_addresses-Orderly client addrs i (suc n) =
    bind-Orderly (mem_free-Orderly client _) (λ _. free_addresses-Orderly client addrs (i + 1) n)

free_request_blocks-Orderly : (info : AsyncCbInfo) → Orderly (free_request_blocks info)
unfolding free_request_blocks
free_request_blocks-Orderly info = elim (Option-cases info.req_addr) [
  | inl missing ↦ rw missing (pure-Orderly tt)
  | inr ((array, addrs), there) ↦ rw there (search (packing, free_addresses-Orderly))
]

copy_response-Orderly : (context rsp : ℕ) → Orderly (copy_response context rsp)
unfolding copy_response service_get_message_data service_get_message_data_len
copy_response-Orderly context rsp = search packing depth 16

copy_to-Orderly : (context : ℕ) (rsp : Option ℕ) → Orderly (copy_to context rsp)
unfolding copy_to
copy_to-Orderly context none = pure-Orderly tt
copy_to-Orderly context (some p) = copy_response-Orderly context p

complete_two_side-Orderly :
    (arg : ℕ) (r : ℤ) (info : AsyncCbInfo) (context : ℕ)
    → Orderly (complete_two_side arg r info context)
unfolding complete_two_side
complete_two_side-Orderly arg r info context =
    search (packing, free_request_blocks-Orderly, copy_to-Orderly, report-Orderly) depth 14

complete_one_side-Orderly :
    (arg : ℕ) (r : ℤ) (info : AsyncCbInfo) → Orderly (complete_one_side arg r info)
unfolding complete_one_side
complete_one_side-Orderly arg r info = search packing depth 10

found-Orderly :
    (arg : ℕ) (f : AsyncCbInfo → M (Unit {0})) (o : Option AsyncCbInfo)
    → ((i : AsyncCbInfo) → Orderly (f i))
    → Orderly (elim o [ none ↦ emit (dangling arg) | some i ↦ f i ])
found-Orderly arg f none use_it = emit-Orderly (dangling arg) (λ n h. refl)
found-Orderly arg f (some i) use_it = use_it i

with_info-Orderly :
    (arg : ℕ) (f : AsyncCbInfo → M (Unit {0}))
    → ((i : AsyncCbInfo) → Orderly (f i))
    → Orderly (with_info arg f)
with_info-Orderly arg f use_it =
    bind-Orderly (gets-Orderly (λ w. w.cb_infos arg)) (λ o. found-Orderly arg f o use_it)

complete-Orderly : (arg context : ℕ) (r : ℤ) (t : ContextType) → Orderly (complete arg context r t)
unfolding complete
complete-Orderly arg context r ContextType.service_one_side =
    with_info-Orderly arg (complete_one_side arg r) (complete_one_side-Orderly arg r)
complete-Orderly arg context r _ =
    with_info-Orderly arg (λ info. complete_two_side arg r info context)
      (λ info. complete_two_side-Orderly arg r info context)

pub ock_rpc_callback_func-Orderly : (arg context : ℕ) → Orderly (ock_rpc_callback_func arg context)
unfolding ock_rpc_callback_func service_get_result service_get_context_type
ock_rpc_callback_func-Orderly arg context = search (packing, complete-Orderly) depth 14
