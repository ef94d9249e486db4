-- ===== src/Client/Pack/Placed.antt =====
-- Where PackReqInfo of src/hcom4db.cpp puts the message id and the bytes of each message.
pub mod Rounds
pub mod InOrder
use hcom4db.Base.{
  ℕ, zero, suc, ◌+◌, ◌-◌, ◌^◌, ◌≤◌, ◌<◌, ◌≡◌, refl, ap, ◌∙◌, sym, true, List, [], ◌∷◌, ◌++◌, inl,
  inr, Bool-cases, length, get_or, set, ltb, leb, if◌then◌else◌, ◌==◌, u32, u16, arith,
}
use hcom4db.Hcom.Types.{Request, RpcMessage, SglRequest, zero_request}
use hcom4db.Hcom.World.{World, Event, invoke_int, is_ok, memcpy_s, store_msg_id}
use hcom4db.Client.Blocks.{mem_alloc}
use hcom4db.Hcom.Memory.{net_memory_allocator_allocate}
use hcom4db.Client.Pack.{
  add_request, append_messages, max_count, pack_few, pack_many, pack_req_info, request_at,
  set_one_request, set_req_info, set_requests, sizeof_header,
}
use hcom4db.Client.Pack.Filled.{get_or-set_self, get_or-set_ne, length-set}
use hcom4db.Client.Pack.Append.{grow}
use hcom4db.Client.Pack.Sizes.{sum_len, sum_len_split}

-- A write into a block: the id of a message, or a number of bytes from somewhere.
pub data Put : Type 0 where
  id_at : ℕ → ℕ → Put
  bytes_at : ℕ → ℕ → ℕ → Put

abbrev put_of : Event → List Put
put_of (memcpy_s dest room src n) = bytes_at dest src n ∷ []
put_of (store_msg_id dest id) = id_at dest id ∷ []
put_of _ = []

-- The writes of a history, the newest first.
abbrev pub puts : List Event → List Put
puts [] = []
puts (e ∷ t) = put_of e ++ puts t

abbrev pub address : List Request → ℕ → ℕ
address iov j = (get_or iov j zero_request).l_address

abbrev pub size : List Request → ℕ → ℕ
size iov j = (get_or iov j zero_request).size

-- The entry of message `k`: the first two have their own, and the third shares the last with all
-- that follow.
abbrev pub slot : ℕ → ℕ
slot k = if ltb k 2 then k + 1 else 3

pub mem_alloc-puts : (client n : ℕ) (w : World) → puts (mem_alloc client n w).1.trace ≡ puts w.trace
unfolding mem_alloc net_memory_allocator_allocate invoke_int
mem_alloc-puts client n w = ground arith

get_or-set :
    (xs : List Request) (i j : ℕ) (v : Request)
    → j < length xs
    → get_or (set xs j v) i zero_request ≡ (if i == j then v else get_or xs i zero_request)
get_or-set [] i j v h = absurd (omega arith)
get_or-set (x ∷ xs) zero zero v h = refl
get_or-set (x ∷ xs) zero (suc j) v h = ground arith
get_or-set (x ∷ xs) (suc i) zero v h = ground arith
get_or-set (x ∷ xs) (suc i) (suc j) v h = ground (arith, get_or-set xs i j v)

module _ (msgs : ℕ → RpcMessage) (msg_id : ℕ) where
  -- Behind the messages that share its entry.
  abbrev pub place : (ℕ → ℕ) → ℕ → ℕ
  place a k = a (slot k) + u32 (sum_len msgs 2 (k - 2))

  -- The id at the first entry, then `n` messages, the newest first.
  abbrev pub placed : (ℕ → ℕ) → ℕ → List Put
  placed a zero = id_at (a 0) msg_id ∷ []
  placed a (suc k) = bytes_at (place a k) (msgs k).data_ptr (msgs k).len ∷ placed a k

  pub placed-cong :
      (a b : ℕ → ℕ) (n : ℕ) → ((j : ℕ) → j ≤ n → j ≤ 3 → a j ≡ b j) → placed a n ≡ placed b n
  placed-cong a b zero same = rw (same 0 (omega arith) (omega arith)) refl
  placed-cong a b (suc k) same = rw (same (slot k) (ground arith) (ground arith)) (
      ap (λ l. bytes_at (place b k) (msgs k).data_ptr (msgs k).len ∷ l)
        (placed-cong a b k (λ j le few. same j (omega arith) few)))

  -- `n` messages are in place.
  pub record Placed (w0 w : World) (req : SglRequest) (n : ℕ) : Type 0 where
    pub order : puts w.trace ≡ placed (address req.iov) n ++ puts w0.trace
    pub four : length req.iov ≡ 4
    pub header : size req.iov 0 ≡ 2
    pub first : size req.iov 1 ≡ (if leb 1 n then u32 (msgs 0).len else 0)
    pub second : size req.iov 2 ≡ (if leb 2 n then u32 (msgs 1).len else 0)
    pub last : size req.iov 3 ≡ u32 (sum_len msgs 2 (n - 2))

  none_shared : (i : ℕ) → i < 3 → u32 (sum_len msgs 2 (i - 2)) ≡ 0
  unfolding sum_len
  none_shared zero small = refl
  none_shared (suc zero) small = refl
  none_shared (suc (suc zero)) small = refl
  none_shared (suc (suc (suc i))) small = absurd (omega arith)

  third_alone :
      (i : ℕ) → i < 3 → (if i == 2 then u32 (msgs i).len else 0) ≡ u32 (sum_len msgs 2 (suc i - 2))
  unfolding sum_len
  third_alone zero small = refl
  third_alone (suc zero) small = refl
  third_alone (suc (suc zero)) small = omega arith
  third_alone (suc (suc (suc i))) small = absurd (omega arith)

  -- A message with an entry of its own.
  pub Placed-add :
      (i block key : ℕ) (old : Request) {w0 w w' : World} {req : SglRequest}
      → i < 3
      → Placed w0 w req i
      → puts w'.trace ≡ bytes_at block (msgs i).data_ptr (msgs i).len ∷ puts w.trace
      → Placed w0 w' (add_request req (i + 1) (request_at old block key (u32 (msgs i).len))) (suc i)
  Placed-add i block key old {w0} {w} {w'} {req} small p put =
      let v = request_at old block key (u32 (msgs i).len) in
      let iov' = set req.iov (i + 1) v in
      let at = λ (j : ℕ). get_or-set req.iov j (i + 1) v (omega (arith, p.four)) in
      let here : place (address iov') i ≡ block =
        ground (arith, at (slot i), none_shared i small) in
      let kept : placed (address req.iov) i ≡ placed (address iov') i =
        placed-cong (address req.iov) (address iov') i (λ j le few. ground (arith, at j)) in
      record {
        order = put ∙ rw (p.order, kept, here) refl;
        four = length-set req.iov (i + 1) v ∙ p.four;
        header = ground (arith, at 0, p.header);
        first = ground (arith, at 1, p.first);
        second = ground (arith, at 2, p.second);
        last = ground (arith, at 3, p.last, none_shared i small, third_alone i small);
      }

  sum_len-one : (i : ℕ) → sum_len msgs i 1 ≡ (msgs i).len
  unfolding sum_len
  sum_len-one i = omega arith

  sum_len-last :
      (i : ℕ) → 3 ≤ i → sum_len msgs 2 (i - 2) + (msgs i).len ≡ sum_len msgs 2 (suc i - 2)
  sum_len-last i late =
      let next : i - 2 + 1 ≡ suc i - 2 = omega arith in
      omega (
        arith,
        sum_len_split msgs 2 (i - 2) 1 i (omega arith),
        sum_len-one i,
        ap (sum_len msgs 2) next,
      )

  -- A message behind those in the last entry.
  pub Placed-append :
      (i : ℕ) {w0 w w' : World} {req : SglRequest}
      → 3 ≤ i
      → Placed w0 w req i
      → (let at = address req.iov 3 + size req.iov 3 in
          puts w'.trace ≡ bytes_at at (msgs i).data_ptr (msgs i).len ∷ puts w.trace)
      → Placed w0 w' (grow req (msgs i).len) (suc i)
  unfolding grow
  Placed-append i {w0} {w} {w'} {req} late p put =
      let v = record (get_or req.iov 3 zero_request) {
        size = u32 (size req.iov 3 + (msgs i).len);
      } in
      let iov' = set req.iov 3 v in
      let at = λ (j : ℕ). get_or-set req.iov j 3 v (omega (arith, p.four)) in
      let kept : placed (address req.iov) i ≡ placed (address iov') i =
        placed-cong (address req.iov) (address iov') i (λ j le few. ground (arith, at j)) in
      let here : address req.iov 3 + size req.iov 3 ≡ place (address iov') i =
        ground (arith, at 3, p.last) in
      let grown : u32 (size req.iov 3 + (msgs i).len) ≡ u32 (sum_len msgs 2 (suc i - 2)) =
        omega (arith, p.last, sum_len-last i late) in
      record {
        order = put ∙ rw (p.order, kept, here) refl;
        four = length-set req.iov 3 v ∙ p.four;
        header = ground (arith, at 0, p.header);
        first = ground (arith, at 1, p.first);
        second = ground (arith, at 2, p.second);
        last = ap (λ r. r.size) (at 3) ∙ grown;
      }
