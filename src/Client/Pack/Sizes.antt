-- ===== src/Client/Pack/Sizes.antt =====
-- A packed request holds the header and every message, each within its block.
use hcom4db.Base.{
  ℕ, zero, suc, ◌+◌, ◌-◌, ◌^◌, ◌≤◌, ◌<◌, ◌≡◌, refl, ap, true, List, ◌∷◌, inl, inr, Bool-cases,
  get_or, ◌==◌, if◌then◌else◌, u32, arith,
}
use hcom4db.Hcom.Types.{SglRequest, RpcMessage, zero_request}
use hcom4db.Hcom.World.{World, Event, Reply, memcpy_s, is_ok}
use hcom4db.Client.Blocks.{mem_alloc, mem_alloc-Allocated}
use hcom4db.Client.Pack.{set_one_request, set_requests, request_at}
use hcom4db.Client.Pack.Filled.{Filled, Filled-add, Filled-emit, Filled-bytes, Filled-room}

-- memcpy_s refuses to copy more than the destination has room for.
abbrev pub BoundedCopies : (List Event → Reply) → Type 0
BoundedCopies lib =
    (dest room src n : ℕ) (t : List Event)
    → is_ok (lib (memcpy_s dest room src n ∷ t)).ret ≡ true
    → n ≤ room

unfoldable pub sum_len : (ℕ → RpcMessage) → ℕ → ℕ → ℕ
sum_len msgs i zero = 0
sum_len msgs i (suc n) = (msgs i).len + sum_len msgs (i + 1) n

pub sum_len_split :
    (msgs : ℕ → RpcMessage) (i m n k : ℕ)
    → k ≡ i + m
    → sum_len msgs i m + sum_len msgs k n ≡ sum_len msgs i (m + n)
unfolding sum_len
sum_len_split msgs i zero n k e =
    let here : k ≡ i = omega arith in
    let all : 0 + n ≡ n = omega arith in rw (here, all) (omega arith)
sum_len_split msgs i (suc m) n k e =
    let next : suc m + n ≡ suc (m + n) = omega arith in
    rw next (omega (arith, sum_len_split msgs (i + 1) m n k (omega arith)))

-- The size of the block that SetReqInfo asks for in round `i` of `count`.
abbrev block_size : ℕ → ℕ → ℕ → ℕ → ℕ
block_size seg count i len = if i == count - 1 then seg else u32 len

module _ (client : ℕ) (msgs : ℕ → RpcMessage) (count : ℕ) where
  set_one_request-Filled :
      (i : ℕ) (req : SglRequest) {w0 w : World} {bytes room : ℕ}
      → Filled w0 w req bytes room
      → req.iov_count ≡ i + 1
      → i < 3
      → (msgs i).len ≤ w.options.mr_send_receive_seg_size
      → w.options.mr_send_receive_seg_size < 2 ^ 32
      → let r = set_one_request client msgs count i req w in
        is_ok r.0.0 ≡ true
        → Filled w0 r.1 r.0.1
            (bytes + (msgs i).len)
            (block_size w.options.mr_send_receive_seg_size count i (msgs i).len)
          × (r.0.1.iov_count ≡ i + 2)
  unfolding set_one_request
  set_one_request-Filled i req {w} {bytes} f at small le fit =
      let seg = w.options.mr_send_receive_seg_size in
      let n = block_size seg count i (msgs i).len in
      let got = mem_alloc-Allocated client n w in
      let block = (mem_alloc client n w).0 in
      let w1 = (mem_alloc client n w).1 in
      let copy = memcpy_s block.out seg (msgs i).data_ptr (msgs i).len in
      let old = get_or req.iov (i + 1) zero_request in
      let size_eq : u32 (msgs i).len ≡ (msgs i).len = omega arith in
      let size_le : u32 (msgs i).len ≤ n = ground (arith, size_eq) in
      elim (Bool-cases (is_ok block.ret)) [
        | inl given ↦ rw given (elim (Bool-cases (is_ok (w1.lib (copy ∷ w1.trace)).ret)) [
          | inl copied ↦ rw copied λ good. (
            Filled-bytes (ap (λ b. bytes + b) size_eq) (
                Filled-emit copy
                  (Filled-add req n (i + 1) block
                    (request_at old block.out block.key (u32 (msgs i).len)) f got given at
                    (omega arith) refl size_le)
                  refl refl),
            omega arith,
          )
          | inr failed ↦ rw failed λ good. cc
        ])
        | inr refused ↦ rw refused λ good. cc
      ]

abbrev pub seg_size : World → ℕ
seg_size w = w.options.mr_send_receive_seg_size

-- The size of the newest block after a number of rounds.
abbrev pub room_after : ℕ → ℕ → ℕ → ℕ
room_after zero room seg = room
room_after (suc n) room seg = seg

-- The messages of a call fit into segments.
pub record Short (w : World) (msgs : ℕ → RpcMessage) (count : ℕ) : Type 0 where
  pub seg_u32 : w.options.mr_send_receive_seg_size < 2 ^ 32
  pub each : (i : ℕ) → i < count → (msgs i).len ≤ w.options.mr_send_receive_seg_size

module _ (client : ℕ) (msgs : ℕ → RpcMessage) {count : ℕ} {w0 : World}
    (s : Short w0 msgs count) where
  last_room :
      (left i len : ℕ) {seg : ℕ}
      → seg ≡ seg_size w0
      → i + suc left ≡ count
      → room_after left (block_size seg count i len) (seg_size w0) ≡ seg_size w0
  last_room zero i len e end = ground arith
  last_room (suc left) i len e end = refl

  pub set_requests-Filled :
      (left i : ℕ) (req : SglRequest) {w : World} {bytes room : ℕ}
      → Filled w0 w req bytes room
      → req.iov_count ≡ i + 1
      → i + left ≡ count
      → count ≤ 3
      → let r = set_requests client msgs count left i req w in
        is_ok r.0.0 ≡ true
        → Filled w0 r.1 r.0.1 (bytes + sum_len msgs i left) (room_after left room (seg_size w0))
          × (r.0.1.iov_count ≡ count + 1)
  unfolding set_requests sum_len
  set_requests-Filled zero i req f at end few = λ good. (Filled-bytes (omega arith) f, omega arith)
  set_requests-Filled (suc left) i req {w} {bytes} f at end few =
      let same : seg_size w ≡ seg_size w0 =
        ap (λ o. o.mr_send_receive_seg_size) f.setting.options in
      let step =
        set_one_request-Filled client msgs count i req f at (omega arith) (omega (arith, s.each i))
          (omega (arith, s.seg_u32)) in
      elim (Bool-cases (is_ok (set_one_request client msgs count i req w).0.0)) [
        | inl done ↦ rw done λ good.
            let next = step done in
            let (rest, total) =
              set_requests-Filled left (i + 1) _ next.0 (omega (arith, next.1)) (omega arith) few
                good in
            (
              Filled-room (last_room left i (msgs i).len same (omega arith))
                  (Filled-bytes (omega arith) rest),
              total,
            )
        | inr failed ↦ rw failed λ good. cc
      ]
