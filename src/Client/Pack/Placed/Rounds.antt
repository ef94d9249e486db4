-- ===== src/Client/Pack/Placed/Rounds.antt =====
-- The loops of SetReqInfo and PackReqInfo of src/hcom4db.cpp put each message in its place.
use hcom4db.Base.{
  ℕ, zero, suc, ◌+◌, ◌-◌, ◌≤◌, ◌<◌, ◌^◌, ◌≡◌, refl, ap, true, false, ◌∷◌, inl, inr, Bool-cases,
  get_or, ltb, ◌==◌, if◌then◌else◌, u32, arith,
}
use hcom4db.Hcom.Types.{RpcMessage, SglRequest, zero_request}
use hcom4db.Hcom.World.{World, is_ok, memcpy_s, store_msg_id}
use hcom4db.Client.Blocks.{mem_alloc}
use hcom4db.Client.Pack.{
  add_request, append_messages, max_count, pack_few, pack_many, pack_req_info, request_at,
  set_one_request, set_req_info, set_requests, sizeof_header,
}
use hcom4db.Client.Pack.Append.{grow}
use hcom4db.Client.Pack.Packed.{empty_request}
use hcom4db.Client.Pack.Sizes.{sum_len}
use hcom4db.Client.Pack.Placed.{Placed, Placed-add, Placed-append, bytes_at, id_at, mem_alloc-puts}

module _ (client : ℕ) (msgs : ℕ → RpcMessage) (msg_id : ℕ) {w0 : World} where
  set_one_request-Placed :
      (count i : ℕ) (req : SglRequest) (w : World)
      → i < 3
      → Placed msgs msg_id w0 w req i
      → let r = set_one_request client msgs count i req w in
        is_ok r.0.0 ≡ true → Placed msgs msg_id w0 r.1 r.0.1 (suc i)
  unfolding set_one_request
  set_one_request-Placed count i req w small p =
      let seg = w.options.mr_send_receive_seg_size in
      let n = if i == count - 1 then seg else u32 (msgs i).len in
      let block = (mem_alloc client n w).0 in
      let w1 = (mem_alloc client n w).1 in
      let copy = memcpy_s block.out seg (msgs i).data_ptr (msgs i).len in
      elim (Bool-cases (is_ok block.ret)) [
        | inl given ↦ rw given (elim (Bool-cases (is_ok (w1.lib (copy ∷ w1.trace)).ret)) [
          | inl copied ↦ rw copied λ good.
              Placed-add msgs msg_id i block.out block.key (get_or req.iov (i + 1) zero_request)
                small p
                (ap (λ l. bytes_at block.out (msgs i).data_ptr (msgs i).len ∷ l)
                  (mem_alloc-puts client n w))
          | inr failed ↦ rw failed λ good. cc
        ])
        | inr refused ↦ rw refused λ good. cc
      ]

  set_requests-Placed :
      (count left i : ℕ) (req : SglRequest) (w : World)
      → i + left ≤ 3
      → Placed msgs msg_id w0 w req i
      → let r = set_requests client msgs count left i req w in
        is_ok r.0.0 ≡ true → Placed msgs msg_id w0 r.1 r.0.1 (i + left)
  unfolding set_requests
  set_requests-Placed count zero i req w few p =
      let all : i + 0 ≡ i = omega arith in rw all λ good. p
  set_requests-Placed count (suc left) i req w few p =
      let all : i + suc left ≡ i + 1 + left = omega arith in
      elim (Bool-cases (is_ok (set_one_request client msgs count i req w).0.0)) [
        | inl done ↦
            rw (done, all)
              (set_requests-Placed count left (i + 1) _ _ (omega arith)
                (one_more (set_one_request-Placed count i req w (omega arith) p done)))
        | inr failed ↦ rw failed λ good. cc
      ]
    where
      one_more :
          {v : World} {q : SglRequest}
          → Placed msgs msg_id w0 v q (suc i)
          → Placed msgs msg_id w0 v q (i + 1)
      one_more p' = let same : i + 1 ≡ suc i = omega arith in rw same p'

  append_messages-Placed :
      (left i : ℕ) (req : SglRequest) (w : World)
      → 3 ≤ i
      → Placed msgs msg_id w0 w req i
      → let r = append_messages client msgs left i req w in
        is_ok r.0.0 ≡ true → Placed msgs msg_id w0 r.1 r.0.1 (i + left)
  unfolding append_messages grow
  append_messages-Placed zero i req w late p = let all : i + 0 ≡ i = omega arith in rw all λ good. p
  append_messages-Placed (suc left) i req w late p =
      let last = get_or req.iov 3 zero_request in
      let room = u32 (w.options.mr_send_receive_seg_size + 2 ^ 32 - last.size) in
      let at = last.l_address + last.size in
      let copy = memcpy_s at room (msgs i).data_ptr (msgs i).len in
      let all : i + suc left ≡ suc i + left = omega arith in
      let next : i + 1 ≡ suc i = omega arith in
      elim (Bool-cases (is_ok (w.lib (copy ∷ w.trace)).ret)) [
        | inl copied ↦
            rw (copied, all, next)
              (append_messages-Placed left (suc i) (grow req (msgs i).len)
                (record w { trace = copy ∷ w.trace }) (omega arith)
                (Placed-append msgs msg_id i late p refl))
        | inr failed ↦ rw failed λ good. cc
      ]

  pack_few-Placed :
      (count : ℕ) (req : SglRequest) (w : World)
      → ltb max_count count ≡ false
      → Placed msgs msg_id w0 w req 0
      → let r = pack_few client msgs count req w in
        is_ok r.0.0 ≡ true → Placed msgs msg_id w0 r.1 r.0.1 count
  unfolding pack_few set_req_info
  pack_few-Placed count req w few p =
      let all : 0 + count ≡ count = omega arith in
      elim (Bool-cases (is_ok (set_req_info client msgs count req w).0.0)) [
        | inl done ↦
            rw done
              λ good. rw all at (set_requests-Placed count count 0 req w (ground arith) p done)
        | inr failed ↦ rw failed λ good. cc
      ]

  pack_many-Placed :
      (head_addr count : ℕ) (req : SglRequest) (w : World)
      → ltb max_count count ≡ true
      → Placed msgs msg_id w0 w req 0
      → let r = pack_many client head_addr msgs count req w in
        is_ok r.0.0 ≡ true → Placed msgs msg_id w0 r.1 r.0.1 count
  unfolding pack_many set_req_info
  pack_many-Placed head_addr count req w many p =
      let all : 3 + (count - 3) ≡ count = ground arith in
      elim (Bool-cases (is_ok (set_req_info client msgs 3 req w).0.0)) [
        | inl done ↦ rw done λ good. rw all at (
            append_messages-Placed (count - 3) 3 _ _ (omega arith)
              (set_requests-Placed 3 3 0 req w (omega arith) p done) good)
        | inr failed ↦ rw failed λ good. cc
      ]

-- Behind the header.
started :
    (client : ℕ) (msgs : ℕ → RpcMessage) (msg_id : ℕ) (w : World)
    → let (head, w1) = mem_alloc client sizeof_header w in
      Placed msgs msg_id w
        (record w1 { trace = store_msg_id head.out msg_id ∷ w1.trace })
        (add_request empty_request 0 (request_at zero_request head.out head.key sizeof_header))
        0
unfolding sum_len
started client msgs msg_id w =
    let head = (mem_alloc client sizeof_header w).0 in
    record {
      order = ap (λ l. id_at head.out msg_id ∷ l) (mem_alloc-puts client sizeof_header w);
      four = refl;
      header = refl;
      first = refl;
      second = refl;
      last = refl;
    }

pub pack_req_info-Placed :
    (client : ℕ) (msgs : ℕ → RpcMessage) (count msg_id : ℕ) (w : World)
    → let r = pack_req_info client msgs count msg_id empty_request w in
      is_ok r.0.0 ≡ true → Placed msgs msg_id w r.1 r.0.1 count
unfolding pack_req_info
pack_req_info-Placed client msgs count msg_id w =
    let head = (mem_alloc client sizeof_header w).0 in
    let start : Placed msgs msg_id w _ _ 0 = started client msgs msg_id w in
    elim (Bool-cases (is_ok head.ret)) [
      | inl given ↦ rw given (elim (Bool-cases (ltb max_count count)) [
        | inl many ↦ rw many (pack_many-Placed client msgs msg_id head.out count _ _ many start)
        | inr few ↦ rw few (pack_few-Placed client msgs msg_id count _ _ few start)
      ])
      | inr refused ↦ rw refused λ good. cc
    ]
