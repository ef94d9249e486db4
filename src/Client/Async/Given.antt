-- ===== src/Client/Async/Given.antt =====
-- Who owns the AsyncCbInfo of an asynchronous operation of src/hcom4db.cpp: libhcom.so, once the
-- operation answers OCK_RPC_OK; nobody otherwise, because it is freed.
use hcom4db.Base.{
  ℕ, ◌≡◌, ◌≢◌, ◌==◌, ◌⊎◌, refl, ap, ◌∙◌, ℤ, true, false, List, ◌∷◌, Option, none, some, Bool-cases,
  inl, inr, if◌then◌else◌, arith,
}
use hcom4db.Base.Maps.{nat_eq, beq_refl}
use hcom4db.Hcom.Call.{Call}
use hcom4db.Hcom.Types.{AsyncCbInfo, CallDone, Callback, Func}
use hcom4db.Hcom.World.{World, Event, library, malloc, is_ok, invoke_int, update}
use hcom4db.Client.Async.{give_info, runs, settle}
use hcom4db.Client.Call.{sizeof_info}

-- malloc gives storage that no AsyncCbInfo has.
abbrev pub FreshInfos : World → Type 0
FreshInfos w = (t : List Event) → w.cb_infos (w.lib (malloc sizeof_info ∷ t)).out ≡ none

-- The callback that a call carries.
abbrev pub passed : Call → Option Callback
passed (Call.channel_read _ _ cb) = cb
passed (Call.channel_read_sgl _ _ cb) = cb
passed (Call.channel_write _ _ cb) = cb
passed (Call.channel_write_sgl _ _ cb) = cb
passed (Call.channel_post_response _ _ _ _ cb) = cb
passed (Call.channel_post_response_raw _ _ _ cb) = cb
passed (Call.service_rndv_reply _ _ _ cb) = cb
passed (Call.channel_async_rndv_call _ _ _ cb) = cb
passed (Call.channel_post_send_raw_sgl _ _ cb) = cb
passed (Call.channel_async_call_raw_sgl _ _ cb) = cb
passed (Call.channel_async_rndv_sgl_call _ _ _ cb) = cb
passed _ = none

-- The callback that the last call of the library carries.
abbrev pub carried : List Event → Option Callback
carried (library c ∷ t) = passed c
carried _ = none

-- The last event is a call of the library, which carries `f` and the address of an AsyncCbInfo that
-- is allocated and holds the user's callback and argument.
pub record Given (f : Func) (d : CallDone) (u : World) : Type 0 where
  pub at : ℕ
  pub info : AsyncCbInfo
  pub call : Call
  pub before : List Event
  pub there : at ≢ 0
  pub found : u.cb_infos at ≡ some info
  pub cb : info.cb ≡ d.cb
  pub arg : info.arg ≡ d.arg
  pub made : u.trace ≡ library call ∷ before
  pub carries : passed call ≡ some (runs f at)

-- The two ends of an asynchronous operation: the AsyncCbInfo is given to the library, or every
-- AsyncCbInfo is as it was.
abbrev pub Outcome : Func → CallDone → World → ℤ × World → Type 0
Outcome f d w r =
    ((is_ok r.0 ≡ true) × Given f d r.1)
    ⊎ ((is_ok r.0 ≡ false) × ((q : ℕ) → r.1.cb_infos q ≡ w.cb_infos q))

invoke_int-made :
    (c : Call) (w : World)
    → is_ok (invoke_int c w).0.ret ≡ true
    → (invoke_int c w).1.trace ≡ library c ∷ w.trace
unfolding invoke_int
invoke_int-made c w = ground arith

invoke_int-infos : (c : Call) (w : World) → (invoke_int c w).1.cb_infos ≡ w.cb_infos
unfolding invoke_int
invoke_int-infos c w = ground arith

update_back :
    (f : ℕ → Option AsyncCbInfo) (a : ℕ) (v : Option AsyncCbInfo) (q : ℕ)
    → f a ≡ none
    → update (update f a v) a none q ≡ f q
update_back f a v q fresh = ground arith

pub give_info-Outcome :
    (fill : AsyncCbInfo → AsyncCbInfo) (c : ℕ → Call) (failed : ℤ → ℤ) (f : Func) (d : CallDone)
    (w : World)
    → FreshInfos w
    → ((g : AsyncCbInfo) → ((fill g).cb ≡ d.cb) × ((fill g).arg ≡ d.arg))
    → ((a : ℕ) → passed (c a) ≡ some (runs f a))
    → ((x : ℤ) → is_ok x ≡ false → is_ok (failed x) ≡ false)
    → Outcome f d w (give_info fill (λ a. invoke_int (c a)) failed w)
unfolding give_info settle
give_info-Outcome fill c failed f d w fresh filled carried fails =
    let t = malloc sizeof_info ∷ w.trace in
    let block = w.lib t in
    let a = block.out in
    let v : World = record w {
      trace = t;
      cb_infos = update w.cb_infos a (some (fill block.garbage));
    } in
    let r = invoke_int (c a) v in
    elim (Bool-cases (a == 0)) [
      | inl null ↦ rw null (inr (refl, λ q. refl))
      | inr room ↦ rw room (elim (Bool-cases (is_ok r.0.ret)) [
        | inl good ↦ rw good (
            inl (
              refl,
              record {
                at = a;
                info = fill block.garbage;
                call = c a;
                before = t;
                there = ground arith;
                found =
                    ap (λ g. g a) (invoke_int-infos (c a) v)
                    ∙ ap (λ b. if b then some (fill block.garbage) else w.cb_infos a) (beq_refl a);
                cb = (filled block.garbage).0;
                arg = (filled block.garbage).1;
                made = invoke_int-made (c a) v good;
                carries = carried a;
              },
            ))
        | inr bad ↦ rw bad (
            inr (
              fails r.0.ret bad,
              λ q.
                  ap (λ g. update g a none q) (invoke_int-infos (c a) v)
                  ∙ update_back w.cb_infos a (some (fill block.garbage)) q (fresh w.trace),
            ))
      ])
    ]
