-- ===== src/Client/Pack/Failed.antt =====
-- The cleanup of SetReqInfo of src/hcom4db.cpp when a message cannot be copied.
use hcom4db.Base.{
  ℕ, zero, suc, ◌+◌, ◌-◌, ◌==◌, ◌≡◌, ap, ◌∙◌, true, false, List, ◌∷◌, inl, inr, Bool-cases,
  if◌then◌else◌, u32, arith,
}
use hcom4db.Hcom.Types.{RpcMessage, SglRequest}
use hcom4db.Hcom.World.{World, memcpy_s, is_ok}
use hcom4db.Client.Blocks.{
  CanFree, Freed, Freed-trans, mem_alloc, mem_alloc-Allocated, mem_free, mem_free-Freed, released,
}
use hcom4db.Client.Pack.{free_repeatedly, set_one_request}

-- `n` times the same address on top.
abbrev pub repeat_onto : ℕ → ℕ → List ℕ → List ℕ
repeat_onto zero a acc = acc
repeat_onto (suc n) a acc = repeat_onto n a (a ∷ acc)

free_repeatedly-Freed :
    (client addr n : ℕ) (w : World)
    → CanFree w
    → Freed w (free_repeatedly client addr n w).1 (repeat_onto n addr (released w.trace))
unfolding free_repeatedly
free_repeatedly-Freed client addr zero w b = ground arith
free_repeatedly-Freed client addr (suc n) w b =
    let first = mem_free-Freed client addr w b in
    let rest =
      free_repeatedly-Freed client addr n (mem_free client addr w).1 (rw first.setting.table b) in
    Freed-trans first (rw first.frees at rest)

module _ (client : ℕ) (msgs : ℕ → RpcMessage) (count i : ℕ) (req : SglRequest) (w : World) where
  -- The size that the round asks for.
  abbrev pub asked_size : ℕ
  asked_size = if i == count - 1 then w.options.mr_send_receive_seg_size else u32 (msgs i).len

  -- Where round `i` of SetReqInfo is granted a block and then fails, it gives that one block back
  -- `i + 1` times, and no other block. The allocator's free is bound.
  pub set_one_request-repeats :
      CanFree w
      → is_ok (mem_alloc client asked_size w).0.ret ≡ true
      → let r = set_one_request client msgs count i req w in
        is_ok r.0.0 ≡ false
        → released r.1.trace
          ≡ repeat_onto (i + 1) (mem_alloc client asked_size w).0.out (released w.trace)
  unfolding set_one_request
  set_one_request-repeats can given =
      let (block, w1) = mem_alloc client asked_size w in
      let got = mem_alloc-Allocated client asked_size w in
      let copy =
        memcpy_s block.out w.options.mr_send_receive_seg_size (msgs i).data_ptr (msgs i).len in
      let w2 : World = record w1 { trace = copy ∷ w1.trace } in
      let freed = free_repeatedly-Freed client block.out (i + 1) w2 (rw got.setting.table can) in
      rw given (elim (Bool-cases (is_ok (w1.lib (copy ∷ w1.trace)).ret)) [
        | inl copied ↦ rw copied λ bad. cc
        | inr failed ↦ rw failed λ bad. freed.frees ∙ ap (repeat_onto (i + 1) block.out) got.frees
      ])
