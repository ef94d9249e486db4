-- ===== src/Client/Pack/Packed.antt =====
-- PackReqInfo of src/hcom4db.cpp: what a request holds that was packed without an error.
use hcom4db.Base.{
  ℕ, ◌+◌, ◌-◌, ◌≡◌, refl, ap, true, false, [], ◌∷◌, inl, inr, Bool-cases, ltb, if◌then◌else◌, arith,
}
use hcom4db.Hcom.Types.{SglRequest, RpcMessage, zero_request}
use hcom4db.Hcom.World.{World, store_msg_id, is_ok}
use hcom4db.Client.Blocks.{mem_alloc, mem_alloc-Allocated}
use hcom4db.Client.Pack.{
  set_req_info, pack_few, pack_many, pack_req_info, request_at, sizeof_header, max_count,
}
use hcom4db.Client.Pack.Filled.{Filled, Filled-add, Filled-emit, Filled-bytes}
use hcom4db.Client.Pack.Sizes.{BoundedCopies, Short, sum_len, sum_len_split, set_requests-Filled}
use hcom4db.Client.Pack.Append.{append_messages-Filled}

-- Service_SglRequest() over an array of four Service_Request().
abbrev pub empty_request : SglRequest
empty_request = record {
  iov = zero_request ∷ zero_request ∷ zero_request ∷ zero_request ∷ [];
  iov_count = 0;
}

-- Every entry is a block that was granted, none was given back, and the bytes add up.
pub record Packed (w w' : World) (req : SglRequest) (count bytes : ℕ) : Type 0 where
  pub room : ℕ
  pub filled : Filled w w' req bytes room
  pub entries : req.iov_count ≡ (if ltb max_count count then 4 else count + 1)

start-Filled : (w : World) → Filled w w empty_request 0 0
start-Filled w = record {
  setting = record { lib = refl; table = refl; options = refl };
  blocks = [];
  grants = refl;
  frees = refl;
  four = refl;
  fits = tt;
  total = refl;
  newest = refl;
}

module _ (client : ℕ) (msgs : ℕ → RpcMessage) (count : ℕ) {w0 : World}
    (s : Short w0 msgs count) where
  pack_few-Packed :
      (req : SglRequest) {w : World} {room : ℕ}
      → Filled w0 w req 2 room
      → req.iov_count ≡ 1
      → ltb max_count count ≡ false
      → let r = pack_few client msgs count req w in
        is_ok r.0.0 ≡ true → Packed w0 r.1 r.0.1 count (2 + sum_len msgs 0 count)
  unfolding pack_few set_req_info
  pack_few-Packed req {w} {room} f at few =
      elim (Bool-cases (is_ok (set_req_info client msgs count req w).0.0)) [
        | inl done ↦ rw done λ good.
            let (filled, entries) =
              set_requests-Filled client msgs s count 0 req f at (omega arith) (ground arith)
                done in
            record { room = _; filled = filled; entries = rw few entries }
        | inr failed ↦ rw failed λ good. cc
      ]

  pack_many-Packed :
      (head_addr : ℕ) (req : SglRequest) {w : World} {room : ℕ}
      → BoundedCopies w0.lib
      → Filled w0 w req 2 room
      → req.iov_count ≡ 1
      → ltb max_count count ≡ true
      → let r = pack_many client head_addr msgs count req w in
        is_ok r.0.0 ≡ true → Packed w0 r.1 r.0.1 count (2 + sum_len msgs 0 count)
  unfolding pack_many set_req_info
  pack_many-Packed head_addr req {w} {room} copies f at many =
      elim (Bool-cases (is_ok (set_req_info client msgs 3 req w).0.0)) [
        | inl done ↦ rw done λ good.
            let three : Short w0 msgs 3 = record {
              seg_u32 = s.seg_u32;
              each = λ i h. s.each i (ground arith);
            } in
            let (filled, entries) =
              set_requests-Filled client msgs three 3 0 req f at (omega arith) (omega arith) done in
            let (all, four) =
              append_messages-Filled client msgs copies s.seg_u32 (count - 3) 3 _ filled entries
                good in
            let whole : 3 + (count - 3) ≡ count = ground arith in
            record {
              room = _;
              filled =
                  Filled-bytes
                    (omega
                      (arith, sum_len_split msgs 0 3 (count - 3) 3 refl, ap (sum_len msgs 0) whole))
                    all;
              entries = rw many four;
            }
        | inr failed ↦ rw failed λ good. cc
      ]

-- A request that PackReqInfo packs without an error holds the two bytes of the header and the bytes
-- of all messages, in one entry for the header and one for each of the first three messages; every
-- entry is a block that the allocator granted in this call and holds no more than the block's size;
-- and no block was given back. The messages are no longer than a segment, and memcpy_s copies no
-- more than the room it is given.
pub pack_req_info-Packed :
    (client : ℕ) (msgs : ℕ → RpcMessage) (count msg_id : ℕ) (w : World)
    → BoundedCopies w.lib
    → Short w msgs count
    → let r = pack_req_info client msgs count msg_id empty_request w in
      is_ok r.0.0 ≡ true → Packed w r.1 r.0.1 count (2 + sum_len msgs 0 count)
unfolding pack_req_info
pack_req_info-Packed client msgs count msg_id w copies s =
    let head = (mem_alloc client sizeof_header w).0 in
    let first = λ (given : is_ok head.ret ≡ true).
      Filled-emit (store_msg_id head.out msg_id)
        (Filled-add empty_request sizeof_header 0 head
          (request_at zero_request head.out head.key sizeof_header) (start-Filled w)
          (mem_alloc-Allocated client sizeof_header w) given refl (omega arith) refl (omega arith))
        refl refl in
    elim (Bool-cases (is_ok head.ret)) [
      | inl given ↦ rw given (elim (Bool-cases (ltb max_count count)) [
        | inl many ↦
            rw many (pack_many-Packed client msgs count s head.out _ copies (first given) refl many)
        | inr few ↦ rw few (pack_few-Packed client msgs count s _ (first given) refl few)
      ])
      | inr refused ↦ rw refused λ good. cc
    ]
