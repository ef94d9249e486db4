-- ===== src/Client/Own/Completing.antt =====
-- The end of a two-sided call in src/hcom4db.cpp, and the allocator that it uses.
use hcom4db.Base.{ℕ, zero, suc, ◌+◌, ℤ, List, Option, none, some, Option-cases, inl, inr}
use hcom4db.Client.Callback.{
  complete_two_side, copy_response, copy_to, free_addresses, free_request_blocks, report,
}
use hcom4db.Client.Own.{Own, bind-Own, mem_free-Own, owning, pure-Own}
use hcom4db.Hcom.Context.{service_get_message_data, service_get_message_data_len}
use hcom4db.Hcom.Types.{AsyncCbInfo}

report-Own : {client a : ℕ} (info : AsyncCbInfo) (r : ℤ) → Own client a (report info r)
unfolding report
report-Own info r = search owning

free_addresses-Own :
    {a : ℕ} (client : ℕ) (addrs : List ℕ) (i n : ℕ) → Own client a (free_addresses client addrs i n)
unfolding free_addresses
free_addresses-Own client addrs i zero = pure-Own tt
free_addresses-Own client addrs i (suc n) =
    bind-Own (mem_free-Own client _ _) (λ _. free_addresses-Own client addrs (i + 1) n)

free_request_blocks-Own :
    {a : ℕ} (info : AsyncCbInfo) → Own info.client a (free_request_blocks info)
unfolding free_request_blocks
free_request_blocks-Own info = elim (Option-cases info.req_addr) [
  | inl missing ↦ rw missing (pure-Own tt)
  | inr ((array, addrs), there) ↦ rw there (search (owning, free_addresses-Own))
]

copy_response-Own : {client a : ℕ} (context rsp : ℕ) → Own client a (copy_response context rsp)
unfolding copy_response service_get_message_data service_get_message_data_len
copy_response-Own context rsp = search owning depth 16

copy_to-Own : {client a : ℕ} (context : ℕ) (rsp : Option ℕ) → Own client a (copy_to context rsp)
unfolding copy_to
copy_to-Own context none = pure-Own tt
copy_to-Own context (some p) = copy_response-Own context p

pub complete_two_side-Own :
    {a : ℕ} (arg : ℕ) (r : ℤ) (info : AsyncCbInfo) (context : ℕ)
    → Own info.client a (complete_two_side arg r info context)
unfolding complete_two_side
complete_two_side-Own arg r info context =
    search (owning, free_request_blocks-Own, copy_to-Own, report-Own) depth 14
