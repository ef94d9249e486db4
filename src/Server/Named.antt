-- ===== src/Server/Named.antt =====
-- OckRpcCreateServer of src/hcom4db.cpp and the names of the servers: a name that is taken stays
-- with its first server.
use hcom4db.Base.{
  ℕ, ◌≡◌, ◌≢◌, ◌<◌, refl, ◌∙◌, inl, inr, pos, true, false, List, [], ◌∷◌, none, some, Bool-cases,
  Option-cases, ltb, length, is_some, arith,
}
use hcom4db.Base.Maps.{lookup, insert, bytes_key}
use hcom4db.Config.{ConfigMap}
use hcom4db.Hcom.Types.{Bytes, ServiceType, ock_rpc_ok, ock_rpc_err_invalid_param}
use hcom4db.Hcom.Service.{service_create}
use hcom4db.Hcom.World.{World, is_ok, invoke_int}
use hcom4db.Server.Registered.{accepts, server_add_service_lem}
use hcom4db.Server.{
  RpcService, find_server, server_add_service, create_service, create_server, service_name,
  transport_of,
}

insert_taken : (k : Bytes) (v u : ℕ) (m : List (Bytes × ℕ)) → lookup k m ≡ some u → insert k v m ≡ m
unfolding lookup insert
insert_taken k v u [] h = cc
insert_taken k v u ((j, x) ∷ m) h = ground (arith, insert_taken k v u m)

pub find_server-insert :
    (k : Bytes) (v : ℕ) (m : List (Bytes × ℕ))
    → lookup k m ≡ none
    → is_some (find_server v (insert k v m)) ≡ true
unfolding lookup insert find_server
find_server-insert k v [] h = ground arith
find_server-insert k v ((j, x) ∷ m) h = ground (arith, find_server-insert k v m)

create_service-map :
    (type : ServiceType) (name : Bytes) (w : World)
    → let r = create_service type name w in
      is_ok r.0.0 ≡ true → r.1.service_map ≡ insert name r.0.1 w.service_map
unfolding create_service service_create invoke_int
create_service-map type name w = ground arith

pub create_server-map :
    (c : ConfigMap) (w : World)
    → let r = create_server c w in
      is_ok r.0.0 ≡ true → r.1.service_map ≡ insert (service_name c) r.0.1 w.service_map
unfolding create_server
create_server-map c w = elim (Bool-cases (ltb 64 (length (service_name c)))) [
  | inl long ↦ rw long λ good. cc
  | inr short ↦ rw short (elim (Option-cases (transport_of c)) [
    | inl bad ↦ rw bad λ good. cc
    | inr (none, default) ↦ rw default (create_service-map _ _ w)
    | inr (some type, chosen) ↦ rw chosen (create_service-map type _ _)
  ])
]

-- Where OckRpcCreateServer answers OCK_RPC_OK for a name that no server has,
-- OckRpcServerAddService then accepts for the new server every id below 1000 with a handler that
-- is not null.
pub create_server-free_name :
    (c : ConfigMap) (s : RpcService) (w : World)
    → lookup (service_name c) w.service_map ≡ none
    → (s.id < 1000) × (s.handler ≢ 0)
    → let ((ret, server), w') = create_server c w in
      is_ok ret ≡ true → (server_add_service server (some s) w').0 ≡ ock_rpc_ok
create_server-free_name c s w free (small, there) good =
    let ((ret, server), w') = create_server c w in
    let known : is_some (find_server server w'.service_map) ≡ true =
      rw (create_server-map c w good)
        (find_server-insert (service_name c) server w.service_map free) in
    let accepted : accepts w' server s ≡ true = ground arith in
    (server_add_service_lem server s w' (pos 0)).0 ∙ rw accepted refl

-- Where OckRpcCreateServer answers OCK_RPC_OK for a name that another server has, and the new
-- server is not one on record, OckRpcServerAddService then refuses every service for the new
-- server.
pub create_server-taken_name :
    (c : ConfigMap) (s : RpcService) (w : World) (old : ℕ)
    → lookup (service_name c) w.service_map ≡ some old
    → let ((ret, server), w') = create_server c w in
      is_ok ret ≡ true
      → find_server server w.service_map ≡ none
      → (server_add_service server (some s) w').0 ≡ ock_rpc_err_invalid_param
create_server-taken_name c s w old taken good fresh =
    let ((ret, server), w') = create_server c w in
    let same : w'.service_map ≡ w.service_map =
      create_server-map c w good ∙ insert_taken (service_name c) server old w.service_map taken in
    let refused : accepts w' server s ≡ false = ground arith in
    (server_add_service_lem server s w' (pos 0)).0 ∙ rw refused refl
