-- ===== src/Hcom/Loader.antt =====
-- InitOckRpcDl and FinishOckRpcDl of src/hcom4db_dlopen_hcom.cpp, the dl helpers of
-- src/hcom4db_utils.cpp, and the two functions of src/hcom4db.cpp that find the library. dlopen,
-- dlsym, getenv, realpath and securec are answered from outside.
pub mod Bound
pub mod Init
pub mod Again
use hcom4db.Base.{
  ℕ, ◌==◌, ℤ, pos, negsuc, Bool, true, false, String, List, [], ◌∷◌, ◌++◌, Option, none, some, ltb,
  length, if◌then◌else◌,
}
use hcom4db.Base.Maps.{assign, string_eq}
use hcom4db.Hcom.Types.{Bytes, codes, ock_rpc_ok, ock_rpc_err}
use hcom4db.Hcom.Symbols.{dl_symbol_funcs}
use hcom4db.Hcom.World.{
  M, dlopen, dlsym, dlclose, getenv, realpath, write_text, memset_s, pure, ◌>>=◌, ◌>>◌, gets,
  modify, ask, emit, is_ok, buffer, or_return,
}

-- Hcom4dbLoadSymbol into the table: the slot is written also when dlerror reports an error.
unfoldable pub load_symbol : String → M ℤ
load_symbol symbol = do
  handle ← gets (λ w. w.hcom_dl)
  found ← ask (dlsym handle symbol)
  modify (λ w. record w { hcom_func = assign symbol found.out w.hcom_func })
  if is_ok found.ret then pure ock_rpc_ok else pure ock_rpc_err

-- One HcomDlsym...Func: it stops at the first symbol that is missing.
unfoldable pub load_symbols : List String → M ℤ
load_symbols [] = pure ock_rpc_ok
load_symbols (s ∷ ss) = do
  ret ← load_symbol s
  if is_ok ret then load_symbols ss else pure ock_rpc_err

-- HcomDlsym: every loader runs, and a failure is only logged.
unfoldable pub run_loaders : List (List String) → M ℤ
run_loaders [] = pure ock_rpc_ok
run_loaders (f ∷ fs) = load_symbols f >> run_loaders fs

unfoldable pub hcom_dlsym : M ℤ
hcom_dlsym = run_loaders dl_symbol_funcs

unfoldable pub open_dl : Bytes → M ℤ
open_dl path = do
  opened ← ask (dlopen path)
  modify (λ w. record w { hcom_dl = opened.out })
  if opened.out == 0 then pure ock_rpc_err else pure ock_rpc_ok

unfoldable pub close_dl : ℕ → M (Unit {0})
close_dl handle = emit (dlclose handle)

unfoldable pub finish_ock_rpc_dl : M (Unit {0})
unfolding close_dl
finish_ock_rpc_dl = do
  handle ← gets (λ w. w.hcom_dl)
  if handle == 0 then pure tt else (close_dl handle >> modify (λ w. record w { hcom_dl = 0 }))
  cleared ← ask memset_s
  modify (λ w. record w { hcom_func = if is_ok cleared.ret then [] else w.hcom_func })

unfoldable pub load_library : Bytes → M ℤ
load_library path = do
  opened ← open_dl path
  if is_ok opened
      then (do
        ret ← hcom_dlsym
        if is_ok ret then pure ock_rpc_ok else (finish_ock_rpc_dl >> pure ock_rpc_err))
      else pure ock_rpc_err

-- `none` is a null path.
unfoldable pub init_ock_rpc_dl : Option Bytes → ℕ → M ℤ
unfolding load_library
init_ock_rpc_dl none path_len = pure ock_rpc_err
init_ock_rpc_dl (some path) path_len = if path_len == 0 then pure ock_rpc_err else do
  handle ← gets (λ w. w.hcom_dl)
  if handle == 0 then load_library path else pure ock_rpc_ok

abbrev pub path_max : ℕ
path_max = 4096

unfoldable pub resolve_path : ℕ → Bytes → M (Option Bytes)
resolve_path room path =
    if ltb room (length path)
    then pure none
    else do resolved ← ask (realpath path); pure resolved.text

-- Hcom4dbGetLibPath: the real path that the environment names, `none` for OCK_RPC_ERR.
unfoldable pub get_lib_path : ℕ → M (Option Bytes)
unfolding resolve_path
get_lib_path room = do
  env ← ask (getenv (codes "HCOM4DB_LIB_PATH"))
  or_return env.text none (λ path. resolve_path room path)

abbrev pub is_negative : ℤ → Bool
is_negative (pos _) = false
is_negative (negsuc _) = true

unfoldable pub load_from : Bytes → M ℤ
load_from dir = do
  written ← ask (write_text path_max [] (dir ++ codes "/libhcom.so"))
  if is_negative written.ret then pure ock_rpc_err else do
    ret ← init_ock_rpc_dl (some (buffer written)) path_max
    if is_ok ret then pure ock_rpc_ok else pure ock_rpc_err

unfoldable pub init_dlopen_so : M ℤ
unfolding load_from
init_dlopen_so = do dir ← get_lib_path path_max; or_return dir ock_rpc_err load_from
