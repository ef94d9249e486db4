-- ===== src/Client/Pack/Placed/InOrder.antt =====
-- A request that PackReqInfo of src/hcom4db.cpp packs reads as the id and the messages, in order.
use hcom4db.Base.{
  ℕ, zero, suc, ◌+◌, ◌-◌, ◌≤◌, ◌<◌, ◌^◌, ◌≡◌, refl, ap, ◌∙◌, true, List, [], ◌∷◌, ◌++◌, inl, inr,
  Bool-cases, ltb, leb, if◌then◌else◌, u32, arith,
}
use hcom4db.Hcom.Types.{RpcMessage, SglRequest}
use hcom4db.Hcom.World.{World, is_ok}
use hcom4db.Client.Pack.{pack_req_info}
use hcom4db.Client.Pack.Packed.{Packed, empty_request, pack_req_info-Packed}
use hcom4db.Client.Pack.Placed.{Placed, Put, address, bytes_at, id_at, placed, puts, size, slot}
use hcom4db.Client.Pack.Placed.Rounds.{pack_req_info-Placed}
use hcom4db.Client.Pack.Sizes.{BoundedCopies, Short, sum_len, sum_len_split}

-- What is written, the newest first: the id at the start of entry 0, message 0 at the start of entry
-- 1, message 1 at the start of entry 2, and the others one behind the other from the start of entry 3.
abbrev pub in_order : (ℕ → RpcMessage) → ℕ → (ℕ → ℕ) → ℕ → List Put
in_order msgs msg_id a zero = id_at (a 0) msg_id ∷ []
in_order msgs msg_id a (suc k) =
    bytes_at (a (slot k) + sum_len msgs 2 (k - 2)) (msgs k).data_ptr (msgs k).len
    ∷ in_order msgs msg_id a k

-- The entries are as long as what was written into them.
pub record InOrder (msgs : ℕ → RpcMessage) (msg_id count : ℕ) (w w' : World) (req : SglRequest)
    : Type 0 where
  pub writes : puts w'.trace ≡ in_order msgs msg_id (address req.iov) count ++ puts w.trace
  pub header : size req.iov 0 ≡ 2
  pub first : size req.iov 1 ≡ (if leb 1 count then (msgs 0).len else 0)
  pub second : size req.iov 2 ≡ (if leb 2 count then (msgs 1).len else 0)
  pub others : size req.iov 3 ≡ sum_len msgs 2 (count - 2)

module _ (msgs : ℕ → RpcMessage) (count : ℕ) where
  sum_len-le : (k : ℕ) → k ≤ count → sum_len msgs 2 (k - 2) ≤ sum_len msgs 2 (count - 2)
  sum_len-le k le =
      let whole : k - 2 + (count - 2 - (k - 2)) ≡ count - 2 = omega arith in
      omega (
        arith,
        sum_len_split msgs 2 (k - 2) (count - 2 - (k - 2)) (2 + (k - 2)) refl,
        ap (sum_len msgs 2) whole,
      )

  sum_len-two : sum_len msgs 0 2 ≡ (msgs 0).len + (msgs 1).len
  unfolding sum_len
  sum_len-two = omega arith

  -- The bytes of the last entry, counted from all.
  sum_len-rest :
      2 ≤ count → sum_len msgs 0 count ≡ (msgs 0).len + (msgs 1).len + sum_len msgs 2 (count - 2)
  sum_len-rest two =
      let whole : 2 + (count - 2) ≡ count = omega arith in
      omega
        (arith, sum_len_split msgs 0 2 (count - 2) 2 refl, sum_len-two, ap (sum_len msgs 0) whole)

  short : {w : World} → Short w msgs count → (k : ℕ) → k < count → u32 (msgs k).len ≡ (msgs k).len
  short s k lt = omega (arith, s.each k lt, s.seg_u32)

  rest-u32_many :
      {w w' : World} {req : SglRequest} {msg_id : ℕ}
      → Short w msgs count
      → 3 < count
      → Packed w w' req count (2 + sum_len msgs 0 count)
      → Placed msgs msg_id w w' req count
      → sum_len msgs 2 (count - 2) < 2 ^ 32
  rest-u32_many {req = req} s many packed p =
      let entries : req.iov_count ≡ 4 = packed.entries ∙ ground arith in
      let total = rw entries at packed.filled.total in
      let first : size req.iov 1 ≡ (msgs 0).len =
        ground (arith, p.first, short s 0 (omega arith)) in
      let second : size req.iov 2 ≡ (msgs 1).len =
        ground (arith, p.second, short s 1 (omega arith)) in
      omega (arith, total, first, second, p.header, p.last, sum_len-rest (omega arith))

  -- Without wrap-around.
  placed-in_order :
      (a : ℕ → ℕ) (msg_id n : ℕ)
      → sum_len msgs 2 (count - 2) < 2 ^ 32
      → n ≤ count
      → placed msgs msg_id a n ≡ in_order msgs msg_id a n
  placed-in_order a msg_id zero small le = refl
  placed-in_order a msg_id (suc k) small le =
      let narrow : u32 (sum_len msgs 2 (k - 2)) ≡ sum_len msgs 2 (k - 2) =
        omega (arith, sum_len-le k (omega arith)) in
      rw (narrow, placed-in_order a msg_id k small (omega arith)) refl

rest-u32_few :
    (msgs : ℕ → RpcMessage) (count : ℕ) {w : World}
    → Short w msgs count
    → count ≤ 3
    → sum_len msgs 2 (count - 2) < 2 ^ 32
unfolding sum_len
rest-u32_few msgs zero s few = omega arith
rest-u32_few msgs (suc zero) s few = omega arith
rest-u32_few msgs (suc (suc zero)) s few = omega arith
rest-u32_few msgs (suc (suc (suc zero))) s few = omega (arith, s.each 2 (omega arith), s.seg_u32)
rest-u32_few msgs (suc (suc (suc (suc n)))) s few = absurd (omega arith)

Placed-InOrder :
    (msgs : ℕ → RpcMessage) (count : ℕ) {w w' : World} {req : SglRequest} {msg_id : ℕ}
    → Short w msgs count
    → sum_len msgs 2 (count - 2) < 2 ^ 32
    → Placed msgs msg_id w w' req count
    → InOrder msgs msg_id count w w' req
Placed-InOrder msgs count {w} {w'} {req} {msg_id} s small p = record {
  writes =
      p.order
      ∙ ap (λ l. l ++ puts w.trace)
          (placed-in_order msgs count (address req.iov) msg_id count small (omega arith));
  header = p.header;
  first = ground (arith, p.first, short msgs count s 0);
  second = ground (arith, p.second, short msgs count s 1);
  others = omega (arith, p.last);
}

-- A request that PackReqInfo packs without an error reads, entry by entry, as the id and then every
-- message once, in the order of the call: the id is written to the start of the first entry, each of
-- the first two messages fills an entry of its own, and the third and all that follow are copied into
-- the last entry, each right behind the one before; each entry is as long as what was written into
-- it, and nothing else is written. The messages are no longer than a segment, and memcpy_s copies no
-- more than the room it is given.
pub pack_req_info-InOrder :
    (client : ℕ) (msgs : ℕ → RpcMessage) (count msg_id : ℕ) (w : World)
    → BoundedCopies w.lib
    → Short w msgs count
    → let r = pack_req_info client msgs count msg_id empty_request w in
      is_ok r.0.0 ≡ true → InOrder msgs msg_id count w r.1 r.0.1
pack_req_info-InOrder client msgs count msg_id w copies s good =
    let r = pack_req_info client msgs count msg_id empty_request w in
    let packed = pack_req_info-Packed client msgs count msg_id w copies s good in
    let p = pack_req_info-Placed client msgs count msg_id w good in
    let small : sum_len msgs 2 (count - 2) < 2 ^ 32 = elim (Bool-cases (ltb 3 count)) [
      | inl many ↦ rest-u32_many msgs count s (ground arith) packed p
      | inr few ↦ rest-u32_few msgs count s (ground arith)
    ] in
    Placed-InOrder msgs count s small p
