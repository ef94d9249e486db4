-- ===== src/Client/Pack/Append.antt =====
-- Appending the messages that have no block of their own to the last one keeps it within its block.
use hcom4db.Base.{
  ℕ, zero, suc, ◌+◌, ◌-◌, ◌^◌, ◌≤◌, ◌<◌, ◌≡◌, refl, ap, ◌∙◌, true, List, [], ◌∷◌, inl, inr,
  Bool-cases, length, get_or, set, u32, arith,
}
use hcom4db.Hcom.Types.{Request, SglRequest, RpcMessage, zero_request}
use hcom4db.Hcom.World.{World, memcpy_s, is_ok}
use hcom4db.Client.Pack.{append_messages, max_count}
use hcom4db.Client.Pack.Filled.{
  Fits, newest_size, Filled, Filled-emit, Filled-bytes, get_or-set_self, length-set, Fits-set,
  total_size-set,
}
use hcom4db.Client.Pack.Sizes.{BoundedCopies, sum_len, seg_size}

Fits-grow :
    (bs : List (ℕ × ℕ)) (iov : List Request) (size : ℕ)
    → 3 < length iov
    → Fits bs 4 iov
    → size ≤ newest_size bs
    → Fits bs 4 (set iov 3 (record (get_or iov 3 zero_request) { size = size }))
Fits-grow [] iov size h f le = f
Fits-grow ((a, c) ∷ bs) iov size h (at, fit, f) le =
    let grown = record (get_or iov 3 zero_request) { size = size } in
    let kept = get_or-set_self iov 3 grown h in
    (rw kept at, rw kept le, Fits-set bs 3 iov 3 grown (omega arith) f)

unfoldable pub grow : SglRequest → ℕ → SglRequest
grow req len = record req {
  iov = set req.iov max_count (record (get_or req.iov max_count zero_request) {
    size = u32 ((get_or req.iov max_count zero_request).size + len);
  });
}

newest-Fits :
    (bs : List (ℕ × ℕ)) (iov : List Request)
    → Fits bs 4 iov
    → (get_or iov 3 zero_request).size ≤ newest_size bs
newest-Fits [] iov f = absurd f
newest-Fits ((a, c) ∷ bs) iov f = f.1

Filled-grow :
    {w0 w : World} (req : SglRequest) {bytes room : ℕ} (len : ℕ)
    → Filled w0 w req bytes room
    → req.iov_count ≡ 4
    → (get_or req.iov 3 zero_request).size + len ≤ room
    → room < 2 ^ 32
    → Filled w0 w (grow req len) (bytes + len) room
unfolding grow
Filled-grow req len f at le small =
    let last = get_or req.iov 3 zero_request in
    let sum : u32 (last.size + len) ≡ last.size + len = omega arith in
    let grown = record last { size = last.size + len } in
    let long : 3 < length req.iov = omega (arith, f.four) in
    let fits4 = rw at at f.fits in
    let total4 = rw at at f.total in
    let kept = get_or-set_self req.iov 3 grown long in
    record {
      setting = f.setting;
      blocks = f.blocks;
      grants = f.grants;
      frees = f.frees;
      four = length-set req.iov 3 _ ∙ f.four;
      fits =
          rw (sum, at)
            (Fits-grow f.blocks req.iov (last.size + len) long fits4 (omega (arith, f.newest)));
      total =
          rw (sum, at, kept, total_size-set 3 req.iov 3 grown (omega arith))
            (omega (arith, total4));
      newest = f.newest;
    }

-- The room that the code computes for the next message is what the block has left.
append_room : (seg size : ℕ) → size ≤ seg → seg < 2 ^ 32 → u32 (seg + 2 ^ 32 - size) ≡ seg - size
append_room seg size h small = omega arith

module _ (client : ℕ) (msgs : ℕ → RpcMessage) {w0 : World} (copies : BoundedCopies w0.lib)
    (seg_u32 : seg_size w0 < 2 ^ 32) where
  pub append_messages-Filled :
      (left i : ℕ) (req : SglRequest) {w : World} {bytes : ℕ}
      → Filled w0 w req bytes (seg_size w0)
      → req.iov_count ≡ 4
      → let r = append_messages client msgs left i req w in
        is_ok r.0.0 ≡ true
        → Filled w0 r.1 r.0.1 (bytes + sum_len msgs i left) (seg_size w0) × (r.0.1.iov_count ≡ 4)
  unfolding append_messages sum_len grow
  append_messages-Filled zero i req f at = λ good. (Filled-bytes (omega arith) f, at)
  append_messages-Filled (suc left) i req {w} {bytes} f at =
      let last = get_or req.iov 3 zero_request in
      let same : seg_size w ≡ seg_size w0 =
        ap (λ o. o.mr_send_receive_seg_size) f.setting.options in
      let len = (msgs i).len in
      let room = u32 (seg_size w + 2 ^ 32 - last.size) in
      let copy = memcpy_s (last.l_address + last.size) room (msgs i).data_ptr len in
      let holds : last.size ≤ seg_size w0 =
        omega (arith, newest-Fits f.blocks req.iov (rw at at f.fits), f.newest) in
      let room_eq : room ≡ seg_size w0 - last.size =
        rw same (append_room (seg_size w0) last.size holds seg_u32) in
      elim (Bool-cases (is_ok (w.lib (copy ∷ w.trace)).ret)) [
        | inl copied ↦ rw copied λ good.
            let le : len ≤ room =
              copies (last.l_address + last.size) room (msgs i).data_ptr len w.trace
                (rw f.setting.lib at copied) in
            let grown = Filled-grow req len f at (omega (arith, holds)) seg_u32 in
            let (rest, four) =
              append_messages-Filled left (i + 1) (grow req len) (Filled-emit copy grown refl refl)
                at good in
            (Filled-bytes (omega arith) rest, four)
        | inr failed ↦ rw failed λ good. cc
      ]
