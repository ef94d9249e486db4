-- ===== src/Client/Async.antt =====
-- The asynchronous half that the replies, the rendezvous calls and the one-sided operations of
-- src/hcom4db.cpp share: an AsyncCbInfo is allocated, filled, and its address handed to libhcom.so;
-- where the call fails it is freed.
pub mod Given
pub mod Owned
use hcom4db.Base.{ℕ, ℤ, ◌==◌, Option, none, some, if◌then◌else◌}
use hcom4db.Hcom.Types.{AsyncCbInfo, CallDone, Callback, Func, ock_rpc_ok, ock_rpc_err}
use hcom4db.Hcom.World.{M, Reply, pure, ◌>>=◌, ◌>>◌, is_ok}
use hcom4db.Client.Call.{malloc_info, store_info}
use hcom4db.Client.Callback.{free_info}

-- The callback that the library is given.
abbrev pub runs : Func → ℕ → Callback
runs f addr = record { cb = f; arg = addr }

-- `done->cb` and `done->arg`, or two null pointers; the other fields stay as malloc left them.
abbrev pub told_to : Option CallDone → AsyncCbInfo → AsyncCbInfo
told_to none info = record info { cb = 0; arg = 0 }
told_to (some d) info = record info { cb = d.cb; arg = d.arg }

-- The end of the call: the AsyncCbInfo is freed where it failed, and `failed` is the status then.
unfoldable pub settle : ℕ → (ℤ → ℤ) → ℤ → M ℤ
settle addr failed ret =
    if is_ok ret then pure ock_rpc_ok else (free_info addr >> pure (failed ret))

unfoldable pub give_info : (AsyncCbInfo → AsyncCbInfo) → (ℕ → M Reply) → (ℤ → ℤ) → M ℤ
give_info fill post failed = do
  block ← malloc_info
  if block.out == 0 then pure ock_rpc_err else (do
    store_info block.out (fill block.garbage)
    r ← post block.out
    settle block.out failed r.ret)

-- `return OCK_RPC_ERR;` and `return ret;`.
abbrev pub as_err : ℤ → ℤ
as_err ret = ock_rpc_err

abbrev pub as_is : ℤ → ℤ
as_is ret = ret
