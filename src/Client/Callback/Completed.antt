-- ===== src/Client/Callback/Completed.antt =====
-- OckRpcCallbackFunc of src/hcom4db.cpp at the end of a two-sided call: which blocks it gives back and
-- what it tells the user.
use hcom4db.Base.{
  ℕ, ◌+◌, ◌==◌, ◌≡◌, refl, ap, ◌∙◌, ℤ, Bool, true, false, List, ◌∷◌, some, length, get_or,
  if◌then◌else◌, arith,
}
use hcom4db.Hcom.Call.{Call}
use hcom4db.Hcom.Types.{AsyncCbInfo, ContextType}
use hcom4db.Hcom.Context.{service_get_result, service_get_context_type}
use hcom4db.Hcom.World.{World, is_ok, invoke_int}
use hcom4db.Client.Blocks.{CanFree, released}
use hcom4db.Client.Own.{UsesOwn, allocator_at, invoke_int-Own}
use hcom4db.Client.Own.Completing.{complete_two_side-Own}
use hcom4db.Client.Callback.{
  int_of, free_info, report, free_request_blocks, complete_two_side, complete,
  ock_rpc_callback_func,
}
use hcom4db.Client.Callback.Quiet.{
  Quiet, Quiet-trans, completions, rev_onto, free_addresses-Quiet, copy_to-Quiet,
}

-- The AsyncCbInfo of a call whose request was packed.
pub record Owns (info : AsyncCbInfo) (addrs : List ℕ) : Type 0 where
  pub array : ℕ
  pub holds : info.req_addr ≡ some (array, addrs)
  pub counts : info.req_cnt ≡ length addrs

free_request_blocks-Quiet :
    (info : AsyncCbInfo) (addrs : List ℕ) (w : World)
    → CanFree w
    → Owns info addrs
    → Quiet w (free_request_blocks info w).1 (rev_onto addrs (released w.trace))
unfolding free_request_blocks
free_request_blocks-Quiet info addrs w b o =
    let each = λ (i : ℕ). (let e : 0 + i ≡ i = omega arith in ap (λ j. get_or addrs j 0) e) in
    let freed = free_addresses-Quiet info.client addrs addrs 0 w b each in
    rw (o.holds, o.counts)
      (record { table = freed.table; frees = freed.frees; tells = freed.tells })

-- The blocks are back, the last one on top, at the allocator of the client in the AsyncCbInfo, and the
-- user was told once.
pub record Completed (w u : World) (info : AsyncCbInfo) (result : ℤ) (addrs : List ℕ) : Type 0 where
  pub frees : released u.trace ≡ rev_onto addrs (released w.trace)
  pub own : UsesOwn info.client w u
  pub tells : completions u.trace ≡ (
      if info.cb == 0
      then completions w.trace
      else (info.cb, result, info.arg) ∷ completions w.trace)

free_info-Quiet : (arg : ℕ) (w : World) → Quiet w (free_info arg w).1 (released w.trace)
free_info-Quiet arg w = record { table = refl; frees = refl; tells = refl }

report-Completed :
    (info : AsyncCbInfo) (result : ℤ) (addrs : List ℕ) {w u : World}
    → Quiet w u (rev_onto addrs (released w.trace))
    → UsesOwn info.client w (report info result u).1
    → Completed w (report info result u).1 info result addrs
unfolding report
report-Completed info result addrs q own = record {
  own = own;
  frees = ground (arith, q.frees);
  tells = ground (arith, q.tells);
}

complete_two_side-Completed :
    (arg : ℕ) (result : ℤ) (info : AsyncCbInfo) (context : ℕ) (addrs : List ℕ) (w : World)
    → CanFree w
    → Owns info addrs
    → Completed w (complete_two_side arg result info context w).1 info result addrs
unfolding complete_two_side
complete_two_side-Completed arg result info context addrs w b o =
    let w1 = (free_info arg w).1 in
    let freed = Quiet-trans (free_info-Quiet arg w) (free_request_blocks-Quiet info addrs w1 b o) in
    let w2 = (free_request_blocks info w1).1 in
    report-Completed info result addrs
      (Quiet-trans freed (rw freed.frees at (copy_to-Quiet context info.rsp w2)))
      ((complete_two_side-Own arg result info context).own w refl).1

abbrev pub is_one_side : ContextType → Bool
is_one_side ContextType.service_one_side = true
is_one_side _ = false

complete-Completed :
    (arg context : ℕ) (result : ℤ) (t : ContextType) (info : AsyncCbInfo) (addrs : List ℕ)
    (w : World)
    → is_one_side t ≡ false
    → w.cb_infos arg ≡ some info
    → CanFree w
    → Owns info addrs
    → Completed w (complete arg context result t w).1 info result addrs
unfolding complete
complete-Completed arg context result ContextType.service_one_side info addrs w two found b o = cc
complete-Completed arg context result _ info addrs w two found b o =
    rw found (complete_two_side-Completed arg result info context addrs w b o)

-- Reading a completion leaves everything that is owned as it was.
record Reads (w u : World) : Type 0 where
  quiet : Quiet w u (released w.trace)
  infos : u.cb_infos ≡ w.cb_infos

service_get_result-Reads : (context : ℕ) (w : World) → Reads w (service_get_result context w).1
unfolding service_get_result invoke_int
service_get_result-Reads context w = ground arith

service_get_context_type-Reads :
    (context : ℕ) (w : World) → Reads w (service_get_context_type context w).1
unfolding service_get_context_type invoke_int
service_get_context_type-Reads context w = ground arith

-- The library reports the end of a two-sided call.
pub record Ends (context : ℕ) (w : World) : Type 0 where
  pub result_read : is_ok (service_get_result context w).0.ret ≡ true
  pub type_read :
      is_ok (service_get_context_type context (service_get_result context w).1).0.ret ≡ true
  pub two_sided :
      is_one_side (service_get_context_type context (service_get_result context w).1).0.context_type
      ≡ false

-- When the library reports the end of a two-sided call and the argument points to an AsyncCbInfo
-- with as many addresses as it counts, OckRpcCallbackFunc gives back the block at each of these
-- addresses, once and in their order, to the allocator that g_memoryAllocator holds for the client in
-- the AsyncCbInfo (null where it holds none) and to no other, and runs the user's callback, if there
-- is one, exactly once, with the result that the library reports and the user's argument. The
-- allocator's free is bound.
pub ock_rpc_callback_func-Completed :
    (arg context : ℕ) (info : AsyncCbInfo) (addrs : List ℕ) (w : World)
    → Ends context w
    → w.cb_infos arg ≡ some info
    → CanFree w
    → Owns info addrs
    → Completed w
        (ock_rpc_callback_func arg context w).1
        info
        (int_of (service_get_result context w).0.out)
        addrs
unfolding ock_rpc_callback_func
ock_rpc_callback_func-Completed arg context info addrs w e found b o =
    let (result, w1) = service_get_result context w in
    let (t, w2) = service_get_context_type context w1 in
    let first = service_get_result-Reads context w in
    let second = service_get_context_type-Reads context w1 in
    let found2 : w2.cb_infos arg ≡ some info =
      ap (λ f. f arg) (second.infos ∙ first.infos) ∙ found in
    let end =
      complete-Completed arg context (int_of result.out) t.context_type info addrs w2 e.two_sided
        found2 (rw (second.quiet.table, first.quiet.table) b) o in
    let freed : released w2.trace ≡ released w.trace = second.quiet.frees ∙ first.quiet.frees in
    let a = allocator_at info.client w in
    let (at, same) =
      (invoke_int-Own {client = info.client} {a = a} (Call.service_get_result context)
          (λ t. refl)).own
        w refl in
    let (at', same') =
      (invoke_int-Own {client = info.client} {a = a} (Call.service_get_context_type context)
          (λ t. refl)).own
        w1 at in
    let own : UsesOwn info.client w (complete arg context (int_of result.out) t.context_type w2).1 =
      (rw at' at end.own) ∙ same' ∙ same in
    let silent : completions w2.trace ≡ completions w.trace =
      second.quiet.tells ∙ first.quiet.tells in
    rw (e.result_read, e.type_read)
      (record {
        own = own;
        frees = end.frees ∙ ap (rev_onto addrs) freed;
        tells =
            end.tells
            ∙ ap (λ c. if info.cb == 0 then c else (info.cb, int_of result.out, info.arg) ∷ c)
                silent;
      })
