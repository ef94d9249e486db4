-- ===== src/Program/Loading.antt =====
-- InitDlopenSo of src/hcom4db_dlopen_hcom.cpp keeps the program sound and
-- holds no mutex: it fills the function table only.
use hcom4db.Base.{ℕ, String, List, [], ◌∷◌, Option, none, some}
use hcom4db.Hcom.Loader.{
  close_dl, finish_ock_rpc_dl, get_lib_path, hcom_dlsym, init_dlopen_so, init_ock_rpc_dl, load_from,
  load_library, load_symbol, load_symbols, open_dl, resolve_path, run_loaders, path_max,
}
use hcom4db.Hcom.Types.{Bytes, ock_rpc_err}
use hcom4db.Hcom.Symbols.{dl_symbol_funcs}
use hcom4db.Hcom.World.{World, is_ok, modify}
use hcom4db.Program.Safe.{Safe}
use hcom4db.Program.Orderly.{Orderly, orderly, pure-Orderly, bind-Orderly, if-Orderly}

handle-Safe : (f : World → ℕ) → Safe (modify (λ w. record w { hcom_dl = f w }))
handle-Safe f = record {
  safe = λ w s. record {
    handlers = s.handlers;
    rndv_handlers = s.rndv_handlers;
    servers = s.servers;
    allocators = s.allocators;
    regions = s.regions;
  };
}

table-Safe : (f : World → List (String × ℕ)) → Safe (modify (λ w. record w { hcom_func = f w }))
table-Safe f = record {
  safe = λ w s. record {
    handlers = s.handlers;
    rndv_handlers = s.rndv_handlers;
    servers = s.servers;
    allocators = s.allocators;
    regions = s.regions;
  };
}

handle-Orderly : (f : World → ℕ) → Orderly (modify (λ w. record w { hcom_dl = f w }))
handle-Orderly f = record { sound = handle-Safe f; tidy = λ w n h. h }

table-Orderly :
    (f : World → List (String × ℕ)) → Orderly (modify (λ w. record w { hcom_func = f w }))
table-Orderly f = record { sound = table-Safe f; tidy = λ w n h. h }

ruleset loading = (orderly, handle-Orderly, table-Orderly)

load_symbol-Orderly : (symbol : String) → Orderly (load_symbol symbol)
unfolding load_symbol
load_symbol-Orderly symbol = search loading depth 10

load_symbols-Orderly : (ss : List String) → Orderly (load_symbols ss)
unfolding load_symbols
load_symbols-Orderly [] = pure-Orderly _
load_symbols-Orderly (s ∷ ss) =
    bind-Orderly (load_symbol-Orderly s)
      (λ r. if-Orderly (is_ok r) (load_symbols-Orderly ss) (pure-Orderly ock_rpc_err))

run_loaders-Orderly : (fs : List (List String)) → Orderly (run_loaders fs)
unfolding run_loaders
run_loaders-Orderly [] = pure-Orderly _
run_loaders-Orderly (f ∷ fs) = bind-Orderly (load_symbols-Orderly f) (λ _. run_loaders-Orderly fs)

hcom_dlsym-Orderly : Orderly hcom_dlsym
unfolding hcom_dlsym
hcom_dlsym-Orderly = run_loaders-Orderly dl_symbol_funcs

open_dl-Orderly : (path : Bytes) → Orderly (open_dl path)
unfolding open_dl
open_dl-Orderly path = search loading

finish_ock_rpc_dl-Orderly : Orderly finish_ock_rpc_dl
unfolding finish_ock_rpc_dl close_dl
finish_ock_rpc_dl-Orderly = search loading depth 12

load_library-Orderly : (path : Bytes) → Orderly (load_library path)
unfolding load_library
load_library-Orderly path =
    search (loading, open_dl-Orderly, hcom_dlsym-Orderly, finish_ock_rpc_dl-Orderly) depth 12

init_ock_rpc_dl-Orderly : (path : Option Bytes) (n : ℕ) → Orderly (init_ock_rpc_dl path n)
unfolding init_ock_rpc_dl
init_ock_rpc_dl-Orderly none n = pure-Orderly _
init_ock_rpc_dl-Orderly (some path) n = search (loading, load_library-Orderly) depth 10

get_lib_path-Orderly : Orderly (get_lib_path path_max)
unfolding get_lib_path resolve_path
get_lib_path-Orderly = search loading depth 12

load_from-Orderly : (dir : Bytes) → Orderly (load_from dir)
unfolding load_from
load_from-Orderly dir = search (loading, init_ock_rpc_dl-Orderly) depth 10

pub init_dlopen_so-Orderly : Orderly init_dlopen_so
unfolding init_dlopen_so
init_dlopen_so-Orderly = search (loading, get_lib_path-Orderly, load_from-Orderly)
