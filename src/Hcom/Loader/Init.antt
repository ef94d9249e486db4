-- ===== src/Hcom/Loader/Init.antt =====
-- InitOckRpcDl of src/hcom4db_dlopen_hcom.cpp: what it answers, and which wrappers reach the library
-- afterwards.
use Prim.Native.String.{String}
use hcom4db.Base.{
  ℕ, suc, ◌≡◌, ◌≢◌, refl, Bool, true, false, not, [], ◌∷◌, Option, none, some, arith,
}
use hcom4db.Base.Maps.{lookup, string_eq}
use hcom4db.Hcom.Call.{Call, symbol}
use hcom4db.Hcom.Types.{Bytes, Callback, SglRequest, ock_rpc_ok, ock_rpc_err}
use hcom4db.Hcom.Symbols.{dl_symbol_funcs}
use hcom4db.Hcom.Channel.{channel_post_response_raw_sgl}
use hcom4db.Hcom.World.{World, dlopen, is_bound, no_reply, invoke_int}
use hcom4db.Hcom.Loader.{hcom_dlsym, open_dl, init_ock_rpc_dl}
use hcom4db.Hcom.Loader.Bound.{
  Resolves, is_listed_in, run_loaders-Loads, run_loaders-other, run_loaders-ok,
}

-- The one wrapper whose symbol no loader looks up.
abbrev pub is_unlisted : Call → Bool
is_unlisted (Call.channel_post_response_raw_sgl _ _ _ _) = true
is_unlisted _ = false

symbol-listed : (c : Call) → is_listed_in (symbol c) dl_symbol_funcs ≡ not (is_unlisted c)
unfolding symbol
symbol-listed (Call.service_get_channel _) = refl
symbol-listed _ = refl

-- The library was not loaded before.
pub record IsFresh (w : World) : Type 0 where
  pub no_handle : w.hcom_dl ≡ 0
  pub no_functions : w.hcom_func ≡ []

-- dlopen finds the library.
abbrev pub Opens : World → Bytes → Type 0
Opens w path = (w.lib (dlopen path ∷ w.trace)).out ≢ 0

lookup-nil : (s : String) → lookup {V = ℕ} s [] ≡ none
unfolding lookup
lookup-nil s = refl

opened : World → Bytes → World
unfolding open_dl
opened w path = (open_dl path w).1

init-eq :
    (path : Bytes) (n : ℕ) (w : World)
    → IsFresh w
    → Opens w path
    → init_ock_rpc_dl (some path) (suc n) w ≡ (ock_rpc_ok, (hcom_dlsym (opened w path)).1)
unfolding init_ock_rpc_dl open_dl opened hcom_dlsym
init-eq path n w f o = ground (arith, run_loaders-ok dl_symbol_funcs (opened w path))

opened_same :
    (path : Bytes) (w : World)
    → ((opened w path).lib ≡ w.lib) × ((opened w path).hcom_func ≡ w.hcom_func)
unfolding opened open_dl
opened_same path w = ground arith

opened_unlisted :
    (path : Bytes) (w : World) (c : Call)
    → IsFresh w
    → is_unlisted c ≡ true
    → is_bound (symbol c) (hcom_dlsym (opened w path)).1.hcom_func ≡ false
unfolding hcom_dlsym
opened_unlisted path w c f u = ground (
  arith,
  symbol-listed c,
  opened_same path w,
  f.no_functions,
  run_loaders-other (symbol c) dl_symbol_funcs (opened w path),
  lookup-nil (symbol c),
)

-- Where nothing was loaded before, InitOckRpcDl answers OCK_RPC_OK whenever dlopen finds the
-- library, whichever symbols dlsym then fails to find.
pub init_ock_rpc_dl-ok :
    (path : Bytes) (n : ℕ) (w : World)
    → IsFresh w
    → Opens w path
    → (init_ock_rpc_dl (some path) (suc n) w).0 ≡ ock_rpc_ok
init_ock_rpc_dl-ok path n w f o = rw (init-eq path n w f o)

-- Where nothing was loaded before, dlopen finds the library and dlsym every symbol, InitOckRpcDl
-- binds the function of every call but Channel_PostResponseRawSgl, and that one it leaves unbound.
pub init_ock_rpc_dl-binds :
    (path : Bytes) (n : ℕ) (w : World)
    → IsFresh w
    → Opens w path
    → Resolves w.lib
    → (c : Call)
    → is_bound (symbol c) (init_ock_rpc_dl (some path) (suc n) w).1.hcom_func ≡ not (is_unlisted c)
unfolding hcom_dlsym
init_ock_rpc_dl-binds path n w f o r c =
    let loads = run_loaders-Loads dl_symbol_funcs (opened w path) (rw (opened_same path w).0 r) in
    rw (init-eq path n w f o)
      (ground (arith, symbol-listed c, loads.bound (symbol c), opened_unlisted path w c f))

-- After an InitOckRpcDl that found nothing loaded and opened the library, whatever dlsym finds,
-- Channel_PostResponseRawSgl answers OCK_RPC_ERR and makes no call.
pub channel_post_response_raw_sgl_dead :
    (path : Bytes) (n : ℕ) (w : World)
    → IsFresh w
    → Opens w path
    → (channel rsp_ctx : ℕ) (message : SglRequest) (cb : Option Callback)
    → let w' = (init_ock_rpc_dl (some path) (suc n) w).1 in
      channel_post_response_raw_sgl channel rsp_ctx message cb w' ≡ (no_reply ock_rpc_err, w')
unfolding channel_post_response_raw_sgl invoke_int
channel_post_response_raw_sgl_dead path n w f o ch rsp m cb =
    let c = Call.channel_post_response_raw_sgl ch rsp m cb in
    rw (init-eq path n w f o, opened_unlisted path w c f refl) refl
