-- ===== src/Hcom/Loader/Again.antt =====
-- InitDlopenSo of src/hcom4db_dlopen_hcom.cpp when libhcom.so is loaded already.
use hcom4db.Base.{Option-cases, ◌∙◌, ◌≡◌, ◌≢◌, arith, inl, inr}
use hcom4db.Hcom.Types.{Bytes}
use hcom4db.Hcom.World.{World}
use hcom4db.Hcom.Loader.{
  get_lib_path, init_dlopen_so, init_ock_rpc_dl, load_from, path_max, resolve_path,
}

-- A step that leaves the answers, the functions, the handle and the servers alone.
abbrev pub LeavesLibrary : World → World → Type 0
LeavesLibrary w u =
    (u.lib ≡ w.lib)
    × (u.hcom_func ≡ w.hcom_func)
    × (u.hcom_dl ≡ w.hcom_dl)
    × (u.service_map ≡ w.service_map)

get_lib_path-LeavesLibrary : (w : World) → LeavesLibrary w (get_lib_path path_max w).1
unfolding get_lib_path resolve_path
get_lib_path-LeavesLibrary w = ground arith

load_from-LeavesLibrary :
    (dir : Bytes) (w : World) → w.hcom_dl ≢ 0 → LeavesLibrary w (load_from dir w).1
unfolding load_from init_ock_rpc_dl
load_from-LeavesLibrary dir w loaded = ground arith

pub init_dlopen_so-LeavesLibrary :
    (w : World) → w.hcom_dl ≢ 0 → LeavesLibrary w (init_dlopen_so w).1
unfolding init_dlopen_so get_lib_path
init_dlopen_so-LeavesLibrary w loaded =
    let (lib, table, handle, servers) = get_lib_path-LeavesLibrary w in
    let u = (get_lib_path path_max w).1 in
    elim (Option-cases (get_lib_path path_max w).0) [
      | inl missing ↦ rw missing (lib, table, handle, servers)
      | inr (dir, found) ↦ rw found (
          let (lib', table', handle', servers') =
            load_from-LeavesLibrary dir u (rw handle loaded) in
          (lib' ∙ lib, table' ∙ table, handle' ∙ handle, servers' ∙ servers))
    ]
