-- ===== src/Server/Registry.antt =====
-- The registration of message handlers in src/hcom4db.cpp against an abstract registry: a function
-- from ids to handlers, which knows nothing of maps, mutexes and histories.
use mathlib.Core.Path.{fun_ext}
use hcom4db.Base.{
  ℕ, ◌≡◌, refl, ap, ◌∙◌, ℤ, pos, Bool, ◌&&◌, List, [], ◌∷◌, Option, some, if◌then◌else◌, eq_ℤ,
  arith, is_some, ltb, not, ◌==◌,
}
use hcom4db.Base.Maps.{lookup, int_eq}
use hcom4db.Hcom.Types.{ock_rpc_ok, ock_rpc_err_invalid_param}
use hcom4db.Hcom.World.{World}
use hcom4db.Server.{RpcService, find_server, server_add_service}
use hcom4db.Server.Registered.{server_add_service_lem}

-- The abstract registry, and what a world looks like from there.
abbrev pub Registry : Type 0
Registry = ℤ → Option ℕ

abbrev pub registry : World → Registry
registry w id = lookup id w.handle_map

-- A request is taken if its server is known, its id is below 1000 and its handler is not null.
abbrev pub is_taken : (ℕ → Bool) → ℕ × RpcService → Bool
is_taken known (server, s) = known server && ltb s.id 1000 && not (s.handler == 0)

-- One abstract registration, with its status.
abbrev pub register : (ℕ → Bool) → ℕ × RpcService → Registry → ℤ × Registry
register known (server, s) r =
    if is_taken known (server, s)
    then (ock_rpc_ok, λ id. if eq_ℤ (pos s.id) id then some s.handler else r id)
    else (ock_rpc_err_invalid_param, r)

-- A sequence of registrations, abstract and in the code, with the statuses in order.
abbrev pub register_all : (ℕ → Bool) → List (ℕ × RpcService) → Registry → List ℤ × Registry
register_all known [] r = ([], r)
register_all known (q ∷ qs) r =
    let (ret, r') = register known q r in
    let (rets, r'') = register_all known qs r' in (ret ∷ rets, r'')

abbrev pub add_all : List (ℕ × RpcService) → World → List ℤ × World
add_all [] w = ([], w)
add_all ((server, s) ∷ qs) w =
    let (ret, w') = server_add_service server (some s) w in
    let (rets, w'') = add_all qs w' in (ret ∷ rets, w'')

-- The servers on record.
abbrev pub knows : World → ℕ → Bool
knows w server = is_some (find_server server w.service_map)

add-servers :
    (server : ℕ) (s : RpcService) (w : World)
    → (server_add_service server (some s) w).1.service_map ≡ w.service_map
unfolding server_add_service
add-servers server s w = ground arith

add-status :
    (server : ℕ) (s : RpcService) (w : World)
    → (server_add_service server (some s) w).0 ≡ (register (knows w) (server, s) (registry w)).0
add-status server s w = ground (arith, server_add_service_lem server s w (pos 0))

add-registry :
    (server : ℕ) (s : RpcService) (w : World) (id : ℤ)
    → registry (server_add_service server (some s) w).1 id
      ≡ (register (knows w) (server, s) (registry w)).1 id
add-registry server s w id = ground (arith, server_add_service_lem server s w id)

knows-add :
    (server : ℕ) (s : RpcService) (w : World)
    → knows (server_add_service server (some s) w).1 ≡ knows w
knows-add server s w = ap (λ m known. is_some (find_server known m)) (add-servers server s w)

-- A sequence of OckRpcServerAddService calls answers the statuses of the abstract registrations, in
-- order, and leaves the registry that they leave.
pub add_all-register_all :
    (qs : List (ℕ × RpcService)) (w : World)
    → let r = register_all (knows w) qs (registry w) in
      ((add_all qs w).0 ≡ r.0) × (registry (add_all qs w).1 ≡ r.1)
add_all-register_all [] w = (refl, refl)
add_all-register_all ((server, s) ∷ qs) w =
    let (ret, w') = server_add_service server (some s) w in
    let (answer, r) = register (knows w) (server, s) (registry w) in
    let same : registry w' ≡ r = fun_ext (add-registry server s w) in
    let (statuses, left) = add_all-register_all qs w' in
    let after : register_all (knows w') qs (registry w') ≡ register_all (knows w) qs r =
      ap (λ k. register_all k qs (registry w')) (knows-add server s w)
      ∙ ap (register_all (knows w) qs) same in
    (
      ap (λ x. x ∷ (add_all qs w').0) (add-status server s w)
          ∙ ap (λ xs. answer ∷ xs) (statuses ∙ ap (λ x. x.0) after),
      left ∙ ap (λ x. x.1) after,
    )
