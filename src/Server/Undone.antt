-- ===== src/Server/Undone.antt =====
-- OckRpcServerCreateWithCfg of src/hcom4db.cpp where it fails: what is left of the new server.
pub mod Maps
use hcom4db.Base.{
  ℕ, ◌≡◌, ◌≢◌, ◌==◌, refl, ◌∙◌, ap, ℤ, true, false, List, [], ◌∷◌, none, some, Bool-cases,
  Option-cases, inl, inr, eq_ℤ, arith, not, ◌&&◌, ◌||◌, ltb, length,
}
use hcom4db.Base.Maps.{lookup, insert, erase, bytes_key, erase-insert}
use hcom4db.Config.{ConfigMap, CreateConfig, init_config_map}
use hcom4db.Hcom.Call.{Call, symbol}
use hcom4db.Hcom.Types.{Bytes, ServiceType, ock_rpc_ok, ock_rpc_err_invalid_param}
use hcom4db.Hcom.Loader.{init_dlopen_so}
use hcom4db.Hcom.Loader.Again.{init_dlopen_so-LeavesLibrary}
use hcom4db.Hcom.Service.{service_create, service_stop, service_destroy}
use hcom4db.Hcom.World.{
  M, pure, World, Event, Mutex, LockOp, mutex, library, is_ok, is_bound, invoke_int,
}
use hcom4db.Server.{
  create_server, create_service, find_server, forget_server, server_destroy, service_name,
  transport_of,
}
use hcom4db.Server.Create.{
  ock_min_port_num, create_configured, or_destroy, server_create_with_cfg, set_logger,
  set_up_options, check_create_cfg,
}
use hcom4db.Server.Features.{expand_option_init}
use hcom4db.Server.Kept.{Kept, Keeps, invoke_void-Keeps}
use hcom4db.Server.Kept.Steps.{
  default_option_init-Keeps, expand_option_init-Keeps, register_handlers-Keeps, set_logger-Keeps,
}
use hcom4db.Server.Named.{create_server-map}
use hcom4db.Server.Options.{default_option_init}
use hcom4db.Server.Undone.Maps.{
  CanDestroy, CanDestroy-Kept, server_destroy-map, find_server-insert-found, create_server-table,
}

-- A server on record in a world whose destruction works, before its map was `servers`.
record Removable (s : ℕ) (name : Bytes) (servers : List (Bytes × ℕ)) (u : World) : Type 0 where
  pub can : CanDestroy u
  pub known : find_server s u.service_map ≡ some name
  pub before : erase name u.service_map ≡ servers

Removable-Kept :
    {s : ℕ} {name : Bytes} {servers : List (Bytes × ℕ)} {w u : World}
    → Kept w u
    → Removable s name servers w
    → Removable s name servers u
Removable-Kept {s} {name} k r = record {
  can = CanDestroy-Kept k r.can;
  known = ap (find_server s) k.servers ∙ r.known;
  before = ap (erase name) k.servers ∙ r.before;
}

or_destroy-undone :
    (s : ℕ) (name : Bytes) (servers : List (Bytes × ℕ)) (ret : ℤ) (rest : M ℤ) (u : World)
    → Removable s name servers u
    → (is_ok (rest u).0 ≡ false → (rest u).1.service_map ≡ servers)
    → let r = or_destroy s ret rest u in is_ok r.0 ≡ false → r.1.service_map ≡ servers
unfolding or_destroy
or_destroy-undone s name servers ret rest u d undone = elim (Bool-cases (is_ok ret)) [
  | inl good ↦ rw good undone
  | inr bad ↦ rw bad (λ failed. server_destroy-map s name u d.can d.known ∙ d.before)
]

set_up_options-undone :
    (s : ℕ) (name : Bytes) (servers : List (Bytes × ℕ)) (ip : Bytes) (c : CreateConfig)
    (m : ConfigMap) (u : World)
    → Removable s name servers u
    → let r = set_up_options s ip c m u in is_ok r.0 ≡ false → r.1.service_map ≡ servers
unfolding set_up_options
set_up_options-undone s name servers ip c m u d =
    let v = (default_option_init m ip u).1 in
    let first = Removable-Kept ((default_option_init-Keeps m ip).kept u) d in
    let second = Removable-Kept ((expand_option_init-Keeps s c m).kept v) first in
    or_destroy-undone s name servers _ _ v first (
      or_destroy-undone s name servers (expand_option_init s c m v).0 (pure ock_rpc_ok) _ second
        λ f. cc)

create_server-Removable :
    (m : ConfigMap) (w : World)
    → CanDestroy w
    → lookup (service_name m) w.service_map ≡ none
    → let ((ret, s), u) = create_server m w in
      is_ok ret ≡ true
      → find_server s w.service_map ≡ none
      → Removable s (service_name m) w.service_map u
create_server-Removable m w d free good fresh =
    let ((ret, s), u) = create_server m w in
    let (same_lib, same_table, _) = create_server-table m w in
    let now = create_server-map m w good in
    record {
      can = record { bound = rw same_table d.bound; answers = rw same_lib d.answers };
      known =
          ap (find_server s) now
          ∙ find_server-insert-found s (service_name m) w.service_map free fresh;
      before = ap (erase (service_name m)) now ∙ erase-insert (service_name m) s w.service_map free;
    }

is_ok-valid : (x : ℤ) → is_ok x ≡ true → eq_ℤ x ock_rpc_err_invalid_param ≡ false
is_ok-valid x good = ground arith

create_configured-undone :
    (ip : Bytes) (port : ℕ) (c : CreateConfig) (m : ConfigMap) (w : World)
    → CanDestroy w
    → lookup (service_name m) w.service_map ≡ none
    → let ((ret, s), u) = create_configured ip port c m w in
      find_server s w.service_map ≡ none → is_ok ret ≡ false → u.service_map ≡ w.service_map
unfolding create_configured
create_configured-undone ip port c m w d free =
    let logged : Kept w (set_logger w).1 = set_logger-Keeps.kept w in
    let v = (set_logger w).1 in
    let r = create_server m v in
    let still_free : lookup (service_name m) v.service_map ≡ none =
      ap (lookup (service_name m)) logged.servers ∙ free in
    elim (Bool-cases (is_ok r.0.0)) [
      | inl good ↦ rw (is_ok-valid r.0.0 good) (
          rw good λ fresh failed.
            set_up_options-undone r.0.1 (service_name m) v.service_map ip c m _
              (Removable-Kept ((register_handlers-Keeps r.0.1 ip port m).kept r.1) (
                create_server-Removable m v (CanDestroy-Kept logged d) still_free good
                  (ap (find_server r.0.1) logged.servers ∙ fresh)))
              failed
            ∙ logged.servers)
      | inr bad ↦ rw bad (elim (Bool-cases (eq_ℤ r.0.0 ock_rpc_err_invalid_param)) [
        | inl invalid ↦ rw invalid λ fresh failed. (create_server-table m v).2 bad ∙ logged.servers
        | inr other ↦ rw other λ fresh failed. (create_server-table m v).2 bad ∙ logged.servers
      ])
    ]

-- Once libhcom.so is loaded, with Service_Destroy bound and answering OCK_RPC_OK: where
-- OckRpcServerCreateWithCfg fails behind its checks, for a name that no server has and a handle
-- that is not on record, the map of the servers is what it was before.
pub server_create_with_cfg-undone :
    (ip : Bytes) (port server : ℕ) (c : CreateConfig) (m : ConfigMap) (w : World)
    → w.hcom_dl ≢ 0
    → CanDestroy w
    → init_config_map c [] ≡ some m
    → lookup (service_name m) w.service_map ≡ none
    → let ((ret, s), u) = server_create_with_cfg (some ip) port server (some c) w in
      find_server s w.service_map ≡ none → is_ok ret ≡ false → u.service_map ≡ w.service_map
unfolding server_create_with_cfg check_create_cfg
server_create_with_cfg-undone ip port server c m w loaded d configured free =
    let v = (init_dlopen_so w).1 in
    let (same_lib, same_table, _, same_servers) = init_dlopen_so-LeavesLibrary w loaded in
    let d' : CanDestroy v = record {
      bound = rw same_table d.bound;
      answers = rw same_lib d.answers;
    } in
    let configured' = create_configured-undone ip port c m v d' (rw same_servers free) in
    elim (Bool-cases (is_ok (init_dlopen_so w).0)) [
      | inr bad ↦ rw bad λ fresh failed. same_servers
      | inl good ↦
          rw good
            (elim (Bool-cases ((not (port == 0) && ltb port ock_min_port_num) || (server == 0))) [
              | inl refused ↦ rw refused λ fresh failed. same_servers
              | inr accepted ↦ rw accepted (
                  rw configured
                    λ fresh failed. configured' (rw same_servers fresh) failed ∙ same_servers)
            ])
    ]
